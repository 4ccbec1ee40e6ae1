-- ===== src/Daemon/Queue/Steps.antt =====
-- The interleavings of the goroutines of the queue, as a relation between its states.
use llmp2p.Common.{ℕ, Bool, List, ◌∷◌, ◌++◌, none, some, Result, ◌≡◌}
use llmp2p.Common.Bytes.{Bytes}
use llmp2p.Common.Dict.{find}
use llmp2p.Ref.{Ref}
use llmp2p.Pull.{PullError, Pulled}
use llmp2p.Daemon.Queue.{Queue, Task, taken, started, finished, enqueue, start_job, finish_job}

-- A new id is none that was given before. The runtime may let any waiting goroutine pass.
pub data Step : Queue → Queue → Type 0 where
  add :
      (q : Queue) (id : Bytes) (r : Ref) (http_only : Bool) (now : ℕ)
      → find id q.jobs ≡ none
      → Step q (enqueue id r http_only now q).0
  take :
      (q : Queue) (before : List Task) (t : Task) (after : List Task)
      → q.waiting ≡ before ++ t ∷ after
      → q.holder ≡ none
      → Step q (record q { waiting = before ++ after; holder = some (t, taken) })
  start : (q : Queue) (t : Task) (now : ℕ) → q.holder ≡ some (t, taken) → Step q (start_job t now q)
  finish :
      (q : Queue) (t : Task) (now : ℕ) (outcome : Result PullError Pulled)
      → q.holder ≡ some (t, started)
      → Step q (finish_job t now outcome q)
  release :
      (q : Queue) (t : Task) → q.holder ≡ some (t, finished) → Step q (record q { holder = none })

pub data Reach (s : Queue) : Queue → Type 0 where
  here : Reach s s
  move : {q u : Queue} → Reach s q → Step q u → Reach s u

pub Reach-trans : {s q u : Queue} → Reach s q → Reach q u → Reach s u
Reach-trans r here = r
Reach-trans r (move p st) = move (Reach-trans r p) st
