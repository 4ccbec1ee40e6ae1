-- ===== src/Pull/Swarm.antt =====
-- The wait of `pullP2P` for the swarm: the `select` between the end of the download and the ticker.
-- An event is what the select took: the end, or a tick with the time since the start of the wait and
-- the bytes that `engBytes` saw. Times are in nanoseconds.
pub mod Laws
use llmp2p.Common.{
  ℕ, zero, suc, ◌-◌, ◌+◌, ◌<◌, ◌≤◌, Bool, true, false, List, [], ◌∷◌, ◌++◌, Option, none, some, ◌≡◌,
  ◌⊎◌, refl, sym, ◌∙◌, subst, ap, arith, if◌then◌else◌, ltb, All, Bool-cases, inl, inr,
}
use llmp2p.Common.Int.{ℤ, pos, negsuc, int_eq, int_eq_iff}
use llmp2p.Common.Bytes.{Bytes, equal}
use llmp2p.Engine.{EngineError, Status}

pub data Event : Type 0 where
  done : Option EngineError → Event
  tick : ℕ → ℤ → Event

pub data Outcome : Type 0 where
  ended : Option EngineError → Outcome
  gave_up still_waiting : Outcome

-- `DefaultP2PGrace`, 90 seconds
abbrev pub default_p2p_grace : ℕ
default_p2p_grace = 90000000000

-- `if grace <= 0 { grace = DefaultP2PGrace }`
unfoldable pub grace_of : ℤ → ℕ
grace_of (pos zero) = default_p2p_grace
grace_of (pos (suc n)) = suc n
grace_of (negsuc n) = default_p2p_grace

-- `engBytes`
unfoldable pub eng_bytes : List Status → Bytes → ℤ
eng_bytes [] h = pos 0
eng_bytes (s ∷ ss) h =
    let rest = eng_bytes ss h in if equal s.info_hash h then s.completed else rest

-- `if cur != lastBytes { … started = time.Now() }`
abbrev pub restart : ℕ → ℤ → ℕ → ℤ → ℕ
restart started last now cur = if int_eq cur last then started else now

-- the loop, from the time `started` and the bytes `last`
unfoldable pub watch : ℕ → ℕ → ℤ → List Event → Outcome
watch grace started last [] = still_waiting
watch grace started last (done e ∷ es) = ended e
watch grace started last (tick now cur ∷ es) =
    let rest = watch grace (restart started last now cur) cur es in
    if ltb grace (now - restart started last now cur) then gave_up else rest

-- the swarm has delivered
unfoldable pub is_delivered : Outcome → Bool
is_delivered (ended none) = true
is_delivered (ended (some e)) = false
is_delivered gave_up = false
is_delivered still_waiting = false
