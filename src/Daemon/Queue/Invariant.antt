-- ===== src/Daemon/Queue/Invariant.antt =====
-- What holds between any two steps of the queue.
pub mod Counts
pub mod Waiting
pub mod Running
use llmp2p.Common.{
  ℕ, suc, ◌+◌, Bool, true, false, not, ◌&&◌, ◌||◌, List, [], ◌∷◌, ◌++◌, Option, none, some, Result,
  ok, err, ◌≡◌, ◌≢◌, ◌⊎◌, refl, sym, ap, subst, arith, if◌then◌else◌, All, All-append, inl, inr,
  Bool-cases, Option-cases,
}
use llmp2p.Common.Bytes.{Bytes, equal}
use llmp2p.Common.Bytes.Laws.{equal_iff, equal_refl}
use llmp2p.Common.Dict.{Dict, find, insert, find-insert}
use llmp2p.Ref.{Ref}
use llmp2p.Pull.{PullError, Pulled}
use llmp2p.Daemon.Queue.{
  Status, queued, running, succeeded, failed, Job, Task, Phase, taken, started, finished, Queue,
  new_queue, new_job, status_text, count_of, record_pull_result, enqueue, update_job, mark_running,
  start_job, status_of, mark_finished, finish_job, list_from, list_jobs,
}
use llmp2p.Daemon.Queue.Steps.{Step, add, take, start, finish, release, Reach, here, move}
use Counts.{
  hit, status_at, has_id, is_some, IsDistinct, jobs_with, status_at-insert, jobs_with_absent,
  jobs_with_present, IsDistinct-append, jobs_with-append, has_id-append, is_some-insert,
}

-- None of the goroutines is that of the job.
abbrev pub IsApart : Bytes → List Task → Type 0
IsApart id ts = All (λ u. equal id u.id ≡ false) ts

abbrev pub AreApart : List Task → Type 0
AreApart [] = Unit
AreApart (t ∷ ts) = IsApart t.id ts × AreApart ts

abbrev pub AreQueued : Dict Job → List Task → Type 0
AreQueued jobs ts = All (λ t. status_at jobs t.id ≡ some queued) ts

-- the status of a job while its goroutine is in the phase
abbrev pub fits : Phase → Option Status → Bool
fits taken (some queued) = true
fits started (some running) = true
fits finished (some succeeded) = true
fits finished (some failed) = true
fits _ _ = false

-- The job of the goroutine that holds the semaphore has the status of its phase.
abbrev pub HolderFits : Dict Job → List Task → Option (Task × Phase) → Type 0
HolderFits jobs ts none = Unit
HolderFits jobs ts (some (t, p)) = (fits p (status_at jobs t.id) ≡ true) × IsApart t.id ts

-- The goroutine of the job holds the semaphore, and has started the job.
abbrev pub IsHeld : Option (Task × Phase) → Bytes → Type 0
IsHeld h id = (t : Task) × (h ≡ some (t, started)) × (t.id ≡ id)

abbrev pub has_task : Bytes → List Task → Bool
has_task id [] = false
has_task id (t ∷ ts) = equal t.id id || has_task id ts

abbrev pub is_taken : Bytes → Option (Task × Phase) → Bool
is_taken id (some (t, taken)) = equal t.id id
is_taken id _ = false

pub record Inv (q : Queue) : Type 0 where
  pub ids_listed : (id : Bytes) → has_id id q.order ≡ is_some (find id q.jobs)
  pub ids_distinct : IsDistinct q.order
  pub waiting_queued : AreQueued q.jobs q.waiting
  pub waiting_apart : AreApart q.waiting
  pub holder_fits : HolderFits q.jobs q.waiting q.holder
  pub running_held : (id : Bytes) → status_at q.jobs id ≡ some running → IsHeld q.holder id
  pub queued_waits :
      (id : Bytes)
      → status_at q.jobs id ≡ some queued
      → (has_task id q.waiting || is_taken id q.holder) ≡ true
  pub successes :
      count_of (find (status_text succeeded) q.stats) ≡ jobs_with succeeded q.order q.jobs
  pub failures : count_of (find (status_text failed) q.stats) ≡ jobs_with failed q.order q.jobs

pub AreQueued-insert :
    (jobs : Dict Job) (id : Bytes) (j : Job) (ts : List Task)
    → IsApart id ts
    → AreQueued jobs ts
    → AreQueued (insert id j jobs) ts
AreQueued-insert jobs id j [] a h = tt
AreQueued-insert jobs id j (t ∷ ts) a h =
    (ground (arith, status_at-insert id t.id j jobs), AreQueued-insert jobs id j ts a.1 h.1)

-- A job whose status is not `queued` has no waiting goroutine.
pub AreQueued-IsApart :
    (jobs : Dict Job) (id : Bytes) (ts : List Task)
    → status_at jobs id ≢ some queued
    → AreQueued jobs ts
    → IsApart id ts
AreQueued-IsApart jobs id [] n h = tt
AreQueued-IsApart jobs id (t ∷ ts) n h =
    (go (equal id t.id) refl, AreQueued-IsApart jobs id ts n h.1)
  where
    go : (b : Bool) → equal id t.id ≡ b → equal id t.id ≡ false
    go false e = e
    go true e = absurd (n (rw ((equal_iff id t.id).0 e) h.0))

pub AreApart-append :
    (t : Task) (ts : List Task) → IsApart t.id ts → AreApart ts → AreApart (ts ++ t ∷ [])
AreApart-append t [] a h = (tt, tt)
AreApart-append t (u ∷ ts) a h = (
  All-append (λ w. equal u.id w.id ≡ false) ts (t ∷ []) h.0
      (ground (arith, equal_iff u.id t.id, equal_iff t.id u.id), tt),
  AreApart-append t ts a.1 h.1,
)

-- A goroutine that is taken out of the list is apart from the rest.
pub All-without :
    (P : Task → Type 0) (before : List Task) (t : Task) (after : List Task)
    → All P (before ++ t ∷ after)
    → P t × All P (before ++ after)
All-without P [] t after h = h
All-without P (u ∷ before) t after h =
    let (a, b) = All-without P before t after h.1 in (a, (h.0, b))

pub AreApart-without :
    (before : List Task) (t : Task) (after : List Task)
    → AreApart (before ++ t ∷ after)
    → IsApart t.id (before ++ after) × AreApart (before ++ after)
AreApart-without [] t after h = h
AreApart-without (u ∷ before) t after h =
    let (a, b) = AreApart-without before t after h.1 in
    let (c, d) = All-without (λ w. equal u.id w.id ≡ false) before t after h.0 in
    ((ground (arith, equal_iff u.id t.id, equal_iff t.id u.id), a), (d, b))

pub has_task-append :
    (id : Bytes) (t : Task) (ts : List Task)
    → has_task id (ts ++ t ∷ []) ≡ (equal t.id id || has_task id ts)
has_task-append id t [] = refl
has_task-append id t (u ∷ ts) = ground (arith, has_task-append id t ts)

pub has_task-without :
    (id : Bytes) (before : List Task) (t : Task) (after : List Task)
    → has_task id (before ++ t ∷ after) ≡ (equal t.id id || has_task id (before ++ after))
has_task-without id [] t after = refl
has_task-without id (u ∷ before) t after = ground (arith, has_task-without id before t after)

pub is_taken-equal :
    (id : Bytes) (t : Task) (p : Phase) → is_taken id (some (t, p)) ≡ true → equal t.id id ≡ true
is_taken-equal id t p h = ground arith
