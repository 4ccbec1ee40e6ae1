-- ===== src/Ollama/Laws.antt =====
-- Which file is imported, and with which command.
use llmp2p.Common.{
  Bool, true, false, List, [], ◌∷◌, Option, none, some, Result, ok, err, ◌≡◌, ◌⊎◌, ◌↔◌, refl, sym,
  ap, arith, All, inl, inr, Bool-cases, Result-cases,
}
use llmp2p.Common.Bytes.{Bytes}
use llmp2p.Common.Disk.{FilePath, Disk, file, dir, stat, write_file, read_file}
use llmp2p.Common.Disk.Laws.{read_file-write_file}
use llmp2p.Ollama.Shards.{IsShardName, no_shard, not-IsShardName}
use llmp2p.Ollama.{
  OllamaError, Visit, failed, seen, base, is_gguf, is_shard, sort_out, collect, choose, find_gguf,
  Command, is_blank, modelfile_text, run_create, command_of, create, drop_temp, bin_of,
}

-- A visit that cannot be imported: of a directory, or of a file with another extension.
pub data IsOther : Visit → Type 0 where
  directory : {p : FilePath} → IsOther (seen p true)
  extension : {p : FilePath} → is_gguf (base p) ≡ false → IsOther (seen p false)

-- The walk succeeds and meets one GGUF file, whose name has not the form of a shard's.
pub data Only (p : FilePath) : List Visit → Type 0 where
  here :
      {vs : List Visit}
      → is_gguf (base p) ≡ true
      → ¬ IsShardName (base p)
      → All IsOther vs
      → Only p (seen p false ∷ vs)
  there : {v : Visit} {vs : List Visit} → IsOther v → Only p vs → Only p (v ∷ vs)

abbrev Found : Type 0
Found = List FilePath × List FilePath

sort_out-IsOther : (p : FilePath) (b : Bool) (f : Found) → IsOther (seen p b) → sort_out p b f ≡ f
unfolding sort_out
sort_out-IsOther p b f directory = refl
sort_out-IsOther p b f (extension h) = ground arith

collect_none : (vs : List Visit) → All IsOther vs → collect vs ≡ ok ([], [])
unfolding collect
collect_none [] h = refl
collect_none (failed e ∷ vs) (o, h) = elim o [ ]
collect_none (seen p b ∷ vs) (o, h) =
    rw (collect_none vs h) (ap ok (sort_out-IsOther p b ([], []) o))

collect-Only : {p : FilePath} (vs : List Visit) → Only p vs → collect vs ≡ ok ([], p ∷ [])
unfolding collect
collect-Only [] x = elim x [ ]
collect-Only (failed e ∷ vs) (there o h) = elim o [ ]
collect-Only (seen p false ∷ vs) (here g s h) =
    let whole = no_shard (base p) s in rw (collect_none vs h) (unfold sort_out in ground arith)
collect-Only {p} (seen q b ∷ vs) (there o h) =
    rw (collect-Only vs h) (ap ok (sort_out-IsOther q b ([], p ∷ []) o))

abbrev is_failed : Visit → Bool
is_failed (failed e) = true
is_failed (seen p b) = false

-- what a visit is
visit_cases :
    (p : FilePath) (b : Bool)
    → (IsOther (seen p b))
      ⊎ ((b ≡ false) × (is_gguf (base p) ≡ true) × (is_shard (base p) ≡ false))
      ⊎ ((b ≡ false) × (is_gguf (base p) ≡ true) × (is_shard (base p) ≡ true))
visit_cases p true = inl directory
visit_cases p false = elim (Bool-cases (is_gguf (base p))) [
  | inr g ↦ inl (extension g)
  | inl g ↦ elim (Bool-cases (is_shard (base p))) [
    | inr s ↦ inr (inl (refl, g, s))
    | inl s ↦ inr (inr (refl, g, s))
  ]
]

none_collect : (vs : List Visit) → collect vs ≡ ok ([], []) → All IsOther vs
unfolding collect
none_collect [] h = tt
none_collect (failed e ∷ vs) h = absurd (ground arith)
none_collect (seen p b ∷ vs) h = go (collect vs) refl (λ e. none_collect vs e)
  where
    go :
        (r : Result OllamaError Found)
        → collect vs ≡ r
        → (collect vs ≡ ok ([], []) → All IsOther vs)
        → All IsOther (seen p b ∷ vs)
    go (err e) q rec = absurd (ground arith)
    go (ok f) q rec = elim (visit_cases p b) [
      | inl o ↦ (o, rec (ground (arith, sort_out-IsOther p b f o)))
      | inr (inl (x, g, s)) ↦ absurd (unfold sort_out in ground arith)
      | inr (inr (x, g, s)) ↦ absurd (unfold sort_out in ground arith)
    ]

Only-collect : {p : FilePath} (vs : List Visit) → collect vs ≡ ok ([], p ∷ []) → Only p vs
unfolding collect
Only-collect [] h = absurd (ground arith)
Only-collect (failed e ∷ vs) h = absurd (ground arith)
Only-collect {p} (seen q b ∷ vs) h = go (collect vs) refl (λ e. Only-collect vs e)
  where
    go :
        (r : Result OllamaError Found)
        → collect vs ≡ r
        → (collect vs ≡ ok ([], p ∷ []) → Only p vs)
        → Only p (seen q b ∷ vs)
    go (err e) c rec = absurd (ground arith)
    go (ok f) c rec = elim (visit_cases q b) [
      | inl o ↦ there o (rec (ground (arith, sort_out-IsOther q b f o)))
      | inr (inl (x, g, s)) ↦
          let same : q ≡ p = unfold sort_out in ground arith in
          let rest : collect vs ≡ ok ([], []) = unfold sort_out in ground arith in
          rw (x, sym same) (here g (not-IsShardName (base q) s) (none_collect vs rest))
      | inr (inr (x, g, s)) ↦ absurd (unfold sort_out in ground arith)
    ]

-- A file is chosen exactly if the walk of the directory succeeds and meets it as the only file with the
-- extension `.gguf`, in any case of its letters, and its name does not end in a dash, five digits, `-of-`,
-- five digits and `.gguf`, all in lower case. So a shard whose name ends otherwise, as in `.GGUF`, is
-- chosen where it is alone.
pub find_gguf_iff : (vs : List Visit) (p : FilePath) → (find_gguf vs ≡ ok p) ↔ Only p vs
unfolding find_gguf
find_gguf_iff vs p = (
  λ h. Only-collect vs (go (collect vs) refl h),
  λ h. rw (collect-Only vs h) (unfold choose in refl),
)
  where
    go :
        (r : Result OllamaError Found)
        → collect vs ≡ r
        → find_gguf vs ≡ ok p
        → collect vs ≡ ok ([], p ∷ [])
    go (err e) c h = absurd (ground arith)
    go (ok (s ∷ ss, fs)) c h = absurd (unfold choose in ground arith)
    go (ok ([], [])) c h = absurd (unfold choose in ground arith)
    go (ok ([], q ∷ [])) c h = unfold choose in ground arith
    go (ok ([], q ∷ r ∷ fs)) c h = absurd (unfold choose in ground arith)

module _ (look_path : Bytes → Bool) (execute : Command → Disk → Disk × Bool) where
  -- The command ran on a disk that has the Modelfile, for a file with contents, and succeeded.
  pub record HasRun (bin : Bytes) (gguf : FilePath) (name host : Bytes) (d : Disk)
      (tmp : Option FilePath) : Type 0 where
    pub contents : Bytes
    pub temp : FilePath
    pub before : Disk
    pub is_file : stat d gguf ≡ ok (file contents)
    pub not_blank : is_blank (file contents) ≡ false
    pub has_temp : tmp ≡ some temp
    pub has_modelfile : read_file before temp ≡ ok (modelfile_text gguf)
    pub has_binary : look_path (bin_of bin) ≡ true
    pub succeeded : (execute (command_of look_path execute bin name host temp) before).1 ≡ true

  drop_temp-eq-none :
      (t : FilePath) (r : Disk × Option OllamaError) → (drop_temp t r).1 ≡ none → r.1 ≡ none
  unfolding drop_temp
  drop_temp-eq-none t r h = ground arith

  run_create-eq-none :
      (bin name host : Bytes) (t : FilePath) (d : Disk)
      → (run_create look_path execute bin name host t d).1 ≡ none
      → (look_path (bin_of bin) ≡ true)
        × ((execute (command_of look_path execute bin name host t) d).1 ≡ true)
  unfolding run_create
  run_create-eq-none bin name host t d h = ground arith

  -- An import that returns no error has run `ollama create` with the wanted arguments, on a disk on which
  -- the Modelfile names the file; the file exists and is not empty.
  pub create-HasRun :
      (tmp : Option FilePath) (bin : Bytes) (gguf : FilePath) (name host : Bytes) (d : Disk)
      → (create look_path execute tmp bin gguf name host d).1 ≡ none
      → HasRun bin gguf name host d tmp
  unfolding create
  create-HasRun none bin gguf name host d h = absurd (ground arith)
  create-HasRun (some t) bin gguf name host d h = elim (Result-cases (stat d gguf)) [
    | inr (e, p) ↦ absurd (ground arith)
    | inl (dir, p) ↦ absurd (unfold is_blank in ground arith)
    | inl (file b, p) ↦ elim (Bool-cases (is_blank (file b))) [
      | inl q ↦ absurd (ground arith)
      | inr q ↦ elim (Result-cases (write_file d t (modelfile_text gguf))) [
        | inr (e, w) ↦ absurd (ground arith)
        | inl (f, w) ↦
            let ran =
              drop_temp-eq-none t (run_create look_path execute bin name host t f) (ground arith) in
            let (found, good) = run_create-eq-none bin name host t f ran in
            record {
              contents = b;
              temp = t;
              before = f;
              is_file = p;
              not_blank = q;
              has_temp = refl;
              has_modelfile = read_file-write_file d f t (modelfile_text gguf) w;
              has_binary = found;
              succeeded = good;
            }
      ]
    ]
  ]
