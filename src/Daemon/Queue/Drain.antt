-- ===== src/Daemon/Queue/Drain.antt =====
-- The runs of the queue without new jobs, and the work that they have before them.
use llmp2p.Common.{
  ℕ, suc, ◌+◌, ◌*◌, List, [], ◌∷◌, length, length-append, Option, none, some, Result, ◌≡◌, ◌⊎◌,
  refl, ap, arith, inl, inr,
}
use llmp2p.Common.Bytes.{Bytes}
use llmp2p.Common.Dict.{find}
use llmp2p.Pull.{PullError, Pulled}
use llmp2p.Daemon.Queue.{
  Status, queued, running, succeeded, failed, Job, Task, Phase, taken, started, finished, Queue,
  new_queue, start_job, finish_job,
}
use llmp2p.Daemon.Queue.Steps.{Step, add, take, start, finish, release, Reach, move}
use llmp2p.Daemon.Queue.Invariant.{Inv}
use llmp2p.Daemon.Queue.Laws.{Reach-Inv}

-- A job has come to its end.
abbrev pub IsEnded : Status → Type 0
IsEnded s = (s ≡ succeeded) ⊎ (s ≡ failed)

drained-IsEnded :
    (q : Queue)
    → Inv q
    → q.waiting ≡ []
    → q.holder ≡ none
    → (id : Bytes) (j : Job) → find id q.jobs ≡ some j
    → IsEnded j.status
drained-IsEnded q i w h id j at = go j.status refl
  where
    go : (s : Status) → j.status ≡ s → IsEnded j.status
    go succeeded e = inl e
    go failed e = inr e
    go queued e = let waits = i.queued_waits id (ground arith) in absurd (ground arith)
    go running e = absurd (let (t, x, y) = i.running_held id (ground arith) in ground arith)

-- All jobs have.
abbrev pub AllEnded : Queue → Type 0
AllEnded q = (id : Bytes) (j : Job) → find id q.jobs ≡ some j → IsEnded j.status

-- the steps that the goroutine behind the semaphore still has before it
abbrev phase_work : Option (Task × Phase) → ℕ
phase_work none = 0
phase_work (some (t, taken)) = 3
phase_work (some (t, started)) = 2
phase_work (some (t, finished)) = 1

-- the steps that all goroutines have before them: four for each that waits
abbrev pub work : Queue → ℕ
work q = 4 * length q.waiting + phase_work q.holder

module _ (outcome : Task → Result PullError Pulled) where
  -- The step is no new job, and if it ends a pull, the pull gives what `outcome` says.
  abbrev pub Obeys : {q u : Queue} → Step q u → Type 0
  Obeys (add q id r http_only now new) = ⊥
  Obeys (take q before t after w h) = Unit
  Obeys (start q t now h) = Unit
  Obeys (finish q t now result h) = result ≡ outcome t
  Obeys (release q t h) = Unit

  -- so many steps of that kind, in any order that the queue allows
  pub data Run (q : Queue) : ℕ → Queue → Type 0 where
    stay : Run q 0 q
    next : {n : ℕ} {u v : Queue} → Run q n u → (st : Step u v) → Obeys st → Run q (suc n) v

  -- a state that has a further step of that kind
  abbrev pub CanStep : Queue → Type 0
  CanStep q = (u : Queue) × (st : Step q u) × Obeys st

  step-work :
      {q u : Queue} (st : Step q u) → Obeys st → (suc (work u) ≡ work q) × (u.order ≡ q.order)
  unfolding start_job finish_job
  step-work (add q id r http_only now new) o = absurd o
  step-work (take q before t after w h) o = (
    ground (
      arith,
      length-append before after,
      length-append before (t ∷ after),
      ap length w,
      ap phase_work h,
    ),
    refl,
  )
  step-work (start q t now h) o = (ground (arith, ap phase_work h), refl)
  step-work (finish q t now result h) o = (ground (arith, ap phase_work h), refl)
  step-work (release q t h) o = (ground (arith, ap phase_work h), refl)

  Run-work : {q u : Queue} {n : ℕ} → Run q n u → (n + work u ≡ work q) × (u.order ≡ q.order)
  Run-work stay = (ground arith, refl)
  Run-work (next r st o) =
      let (a, b) = Run-work r in let (c, d) = step-work st o in (ground arith, ground arith)

  Run-Reach : {s q u : Queue} {n : ℕ} → Reach s q → Run q n u → Reach s u
  Run-Reach p stay = p
  Run-Reach p (next r st o) = move (Run-Reach p r) st

  -- Who holds the semaphore can go on; if nobody does, who waits can take it.
  progress : (q : Queue) → Inv q → CanStep q ⊎ AllEnded q
  progress q i = go q.holder refl q.waiting refl
    where
      go :
          (o : Option (Task × Phase))
          → q.holder ≡ o
          → (ts : List Task) → q.waiting ≡ ts
          → CanStep q ⊎ AllEnded q
      go none h [] w = inr (drained-IsEnded q i w h)
      go none h (t ∷ ts) w = inl (_, take q [] t ts w h, tt)
      go (some (t, taken)) h ts w = inl (_, start q t 0 h, tt)
      go (some (t, started)) h ts w = inl (_, finish q t 0 (outcome t) h, refl)
      go (some (t, finished)) h ts w = inl (_, release q t h, tt)

  -- Let the queue reach a state, and then go on without new jobs, in any order of the goroutines that it allows,
  -- where the pull of each job gives what `outcome` says for it, with success or not. Each such step takes one
  -- from the work that is left, so that there are never more of them than the work of the first state; no job
  -- gets lost or appears; and where no further step is possible, every job has succeeded or failed.
  pub Run-IsEnded :
      {q u : Queue} {n : ℕ}
      → Reach new_queue q
      → Run q n u
      → (n + work u ≡ work q) × (u.order ≡ q.order) × (CanStep u ⊎ AllEnded u)
  Run-IsEnded p r = let (a, b) = Run-work r in (a, b, progress _ (Reach-Inv (Run-Reach p r)))
