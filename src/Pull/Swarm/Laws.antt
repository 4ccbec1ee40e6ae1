-- ===== src/Pull/Swarm/Laws.antt =====
-- When the wait for the swarm ends without data.
use llmp2p.Common.{
  ℕ, ◌-◌, ◌+◌, ◌<◌, ◌≤◌, List, [], ◌∷◌, ◌++◌, ◌≡◌, ◌⊎◌, refl, sym, ◌∙◌, subst, ap, arith, ltb, All,
  Bool-cases, inl, inr,
}
use llmp2p.Common.Int.{ℤ, int_eq, int_eq_iff}
use llmp2p.Pull.Swarm.{Event, done, tick, gave_up, restart, watch}

-- The ticks between two events at which the byte count is the same, from the time of the last change.
pub data Idle (bytes : ℤ) (since : ℕ) : List Event → Type 0 where
  idle : Idle bytes since []
  more : {now : ℕ} {es : List Event} → Idle bytes since es → Idle bytes since (tick now bytes ∷ es)

-- The time and the byte count of the last change, which is the last event of `before`, or else those
-- from which the wait started.
abbrev pub IsLastChange : ℕ → ℤ → List Event → ℕ → ℤ → Type 0
IsLastChange started last before since bytes =
    ((before ≡ []) × (since ≡ started) × (bytes ≡ last))
    ⊎ ((b : List Event) × (before ≡ b ++ tick since bytes ∷ []))

-- There are a last change and a later tick with only ticks of the same bytes between them, and more than
-- the grace between their times.
pub record IsStalled (grace started : ℕ) (last : ℤ) (es : List Event) : Type 0 where
  pub before : List Event
  pub quiet : List Event
  pub rest : List Event
  pub bytes : ℤ
  pub since : ℕ
  pub now : ℕ
  pub split_events : es ≡ before ++ (quiet ++ tick now bytes ∷ rest)
  pub last_change : IsLastChange started last before since bytes
  pub is_quiet : Idle bytes since quiet
  pub too_long : since + grace < now

cong_before : (before es : List Event) → before ≡ [] → before ++ es ≡ es
cong_before before es h = ap (λ b. b ++ es) h

IsStalled-quiet :
    (grace started now : ℕ) (last : ℤ) (es : List Event)
    → IsStalled grace started last es
    → IsStalled grace started last (tick now last ∷ es)
IsStalled-quiet grace started now last es g = elim g.last_change [
  | inl (a, b, c) ↦ record {
    before = [];
    quiet = tick now last ∷ g.quiet;
    rest = g.rest;
    bytes = last;
    since = started;
    now = g.now;
    split_events =
        ap (λ t. tick now last ∷ t)
          (g.split_events
            ∙ cong_before g.before (g.quiet ++ tick g.now g.bytes ∷ g.rest) a
            ∙ ap (λ x. g.quiet ++ tick g.now x ∷ g.rest) c);
    last_change = inl (refl, refl, refl);
    is_quiet =
        more
          (subst (λ x. Idle last x g.quiet) b (subst (λ x. Idle x g.since g.quiet) c g.is_quiet));
    too_long = ground (arith, g.too_long);
  }
  | inr (b, e) ↦ record {
    before = tick now last ∷ g.before;
    quiet = g.quiet;
    rest = g.rest;
    bytes = g.bytes;
    since = g.since;
    now = g.now;
    split_events = ap (λ t. tick now last ∷ t) g.split_events;
    last_change = inr (tick now last ∷ b, ap (λ t. tick now last ∷ t) e);
    is_quiet = g.is_quiet;
    too_long = g.too_long;
  }
]

IsStalled-change :
    (grace started now : ℕ) (last cur : ℤ) (es : List Event)
    → IsStalled grace now cur es
    → IsStalled grace started last (tick now cur ∷ es)
IsStalled-change grace started now last cur es g = record {
  before = tick now cur ∷ g.before;
  quiet = g.quiet;
  rest = g.rest;
  bytes = g.bytes;
  since = g.since;
  now = g.now;
  split_events = ap (λ t. tick now cur ∷ t) g.split_events;
  last_change = elim g.last_change [
    | inl (a, b, c) ↦ inr ([], ground arith)
    | inr (b, e) ↦ inr (tick now cur ∷ b, ap (λ t. tick now cur ∷ t) e)
  ];
  is_quiet = g.is_quiet;
  too_long = g.too_long;
}

IsStalled-now :
    (grace started now : ℕ) (last : ℤ) (es : List Event)
    → started + grace < now
    → IsStalled grace started last (tick now last ∷ es)
IsStalled-now grace started now last es h = record {
  before = [];
  quiet = [];
  rest = es;
  bytes = last;
  since = started;
  now = now;
  split_events = refl;
  last_change = inl (refl, refl, refl);
  is_quiet = idle;
  too_long = h;
}

-- The swarm is only given up after a time of more than the grace, since the last change of the byte
-- count, in which every tick saw the same bytes.
pub watch-IsStalled :
    (grace started : ℕ) (last : ℤ) (es : List Event)
    → watch grace started last es ≡ gave_up
    → IsStalled grace started last es
unfolding watch
watch-IsStalled grace started last [] h = absurd (ground arith)
watch-IsStalled grace started last (done e ∷ es) h = absurd (ground arith)
watch-IsStalled grace started last (tick now cur ∷ es) h = elim (Bool-cases (int_eq cur last)) [
  | inl q ↦
      let same = (int_eq_iff cur last).0 q in
      subst (λ x. IsStalled grace started last (tick now x ∷ es)) (sym same)
        (elim (Bool-cases (ltb grace (now - started))) [
          | inl late ↦ IsStalled-now grace started now last es (ground arith)
          | inr soon ↦
              IsStalled-quiet grace started now last es
                (watch-IsStalled grace started last es (ground arith))
        ])
  | inr q ↦
      IsStalled-change grace started now last cur es
        (watch-IsStalled grace now cur es (ground arith))
]

restart_same : (started now : ℕ) (last : ℤ) → restart started last now last ≡ started
restart_same started now last = ground (arith, int_eq_iff last last)

watch_quiet :
    (grace started t : ℕ) (last : ℤ) (es : List Event)
    → t ≤ started + grace
    → watch grace started last (tick t last ∷ es) ≡ watch grace started last es
unfolding watch
watch_quiet grace started t last es h = let p = restart_same started t last in rw p (ground arith)

-- The swarm is given up at the first tick that comes more than the grace after the start of a wait in
-- which nothing arrives, whatever comes later.
pub watch_gives_up :
    (grace started now : ℕ) (last : ℤ) (quiet rest : List Event)
    → All (λ e. (t : ℕ) × (e ≡ tick t last) × (t ≤ started + grace)) quiet
    → started + grace < now
    → watch grace started last (quiet ++ tick now last ∷ rest) ≡ gave_up
unfolding watch
watch_gives_up grace started now last [] rest q h = ground (arith, int_eq_iff last last)
watch_gives_up grace started now last (e ∷ quiet) rest ((t, same, soon), q) h =
    subst (λ x. watch grace started last (x ∷ (quiet ++ tick now last ∷ rest)) ≡ gave_up) (sym same)
      (watch_quiet grace started t last (quiet ++ tick now last ∷ rest) soon
        ∙ watch_gives_up grace started now last quiet rest q h)
