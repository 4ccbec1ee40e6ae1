-- ===== src/Daemon/Queue/Invariant/Counts.antt =====
-- The status of a job by its id, and the number of jobs of a status.
use llmp2p.Common.{
  ℕ, ◌+◌, Bool, true, false, ◌||◌, List, [], ◌∷◌, ◌++◌, Option, none, some, ◌≡◌, refl, arith,
  if◌then◌else◌, Bool-cases, inl, inr,
}
use llmp2p.Common.Bytes.{Bytes, equal}
use llmp2p.Common.Bytes.Laws.{equal_iff, equal_refl}
use llmp2p.Common.Dict.{Dict, find, insert, find-insert}
use llmp2p.Daemon.Queue.{Status, queued, running, succeeded, failed, Job}

abbrev pub option_status : Option Job → Option Status
option_status none = none
option_status (some j) = some j.status

abbrev pub status_at : Dict Job → Bytes → Option Status
status_at jobs id = option_status (find id jobs)

abbrev pub is_some {ℓ} : {A : Type ℓ} → Option A → Bool
is_some none = false
is_some (some a) = true

abbrev pub has_id : Bytes → List Bytes → Bool
has_id id [] = false
has_id id (k ∷ ks) = equal k id || has_id id ks

abbrev pub IsDistinct : List Bytes → Type 0
IsDistinct [] = Unit
IsDistinct (k ∷ ks) = (has_id k ks ≡ false) × IsDistinct ks

abbrev pub status_eq : Status → Status → Bool
status_eq queued queued = true
status_eq running running = true
status_eq succeeded succeeded = true
status_eq failed failed = true
status_eq _ _ = false

abbrev pub hit : Status → Option Status → ℕ
hit s none = 0
hit s (some t) = if status_eq s t then 1 else 0

-- the number of listed jobs of a status
abbrev pub jobs_with : Status → List Bytes → Dict Job → ℕ
jobs_with s [] jobs = 0
jobs_with s (id ∷ ids) jobs = hit s (status_at jobs id) + jobs_with s ids jobs

pub status_at-insert :
    (id k : Bytes) (j : Job) (jobs : Dict Job)
    → status_at (insert id j jobs) k ≡ (if equal id k then some j.status else status_at jobs k)
status_at-insert id k j jobs = ground (arith, find-insert k id j jobs)

pub is_some-insert :
    (id k : Bytes) (j : Job) (jobs : Dict Job)
    → is_some (find k (insert id j jobs)) ≡ (equal id k || is_some (find k jobs))
is_some-insert id k j jobs = ground (arith, find-insert k id j jobs)

pub has_id-append :
    (id k : Bytes) (ks : List Bytes) → has_id id (ks ++ k ∷ []) ≡ (equal k id || has_id id ks)
has_id-append id k [] = ground arith
has_id-append id k (j ∷ ks) = ground (arith, has_id-append id k ks)

pub IsDistinct-append :
    (k : Bytes) (ks : List Bytes) → has_id k ks ≡ false → IsDistinct ks → IsDistinct (ks ++ k ∷ [])
IsDistinct-append k [] h d = (refl, tt)
IsDistinct-append k (j ∷ ks) h d = (
  ground (arith, has_id-append j k ks, equal_iff j k, equal_iff k j),
  IsDistinct-append k ks (ground arith) d.1,
)

pub jobs_with_absent :
    (s : Status) (id : Bytes) (j : Job) (jobs : Dict Job) (ids : List Bytes)
    → has_id id ids ≡ false
    → jobs_with s ids (insert id j jobs) ≡ jobs_with s ids jobs
jobs_with_absent s id j jobs [] h = refl
jobs_with_absent s id j jobs (k ∷ ids) h = ground (
  arith,
  status_at-insert id k j jobs,
  equal_iff id k,
  equal_iff k id,
  jobs_with_absent s id j jobs ids,
)

pub jobs_with-append :
    (s : Status) (k : Bytes) (ids : List Bytes) (jobs : Dict Job)
    → jobs_with s (ids ++ k ∷ []) jobs ≡ hit s (status_at jobs k) + jobs_with s ids jobs
jobs_with-append s k [] jobs = refl
jobs_with-append s k (i ∷ ids) jobs = omega (arith, jobs_with-append s k ids jobs)

jobs_with_head :
    (s : Status) (id : Bytes) (j : Job) (jobs : Dict Job) (ids : List Bytes)
    → has_id id ids ≡ false
    → jobs_with s (id ∷ ids) (insert id j jobs) + hit s (status_at jobs id)
      ≡ jobs_with s (id ∷ ids) jobs + hit s (some j.status)
jobs_with_head s id j jobs ids n =
    let a = jobs_with_absent s id j jobs ids n in
    rw (status_at-insert id id j jobs, equal_refl id, a) (omega arith)

-- A write to one job moves it from the status that it had to its new one.
pub jobs_with_present :
    (s : Status) (id : Bytes) (j : Job) (jobs : Dict Job) (ids : List Bytes)
    → IsDistinct ids
    → has_id id ids ≡ true
    → jobs_with s ids (insert id j jobs) + hit s (status_at jobs id)
      ≡ jobs_with s ids jobs + hit s (some j.status)
jobs_with_present s id j jobs [] d h = absurd (ground arith)
jobs_with_present s id j jobs (k ∷ ids) d h = elim (Bool-cases (equal k id)) [
  | inl e ↦ let p = (equal_iff k id).0 e in rw p (jobs_with_head s id j jobs ids (rw (← p) d.0))
  | inr e ↦
      let rest = jobs_with_present s id j jobs ids d.1 (ground arith) in
      let apart : equal id k ≡ false = ground (arith, equal_iff id k, equal_iff k id) in
      rw (status_at-insert id k j jobs, apart) (omega (arith, rest))
]
