-- ===== src/Cli/Delegate/Laws.antt =====
-- The command line and the daemon together.
use llmp2p.Common.{
  true, false, List, [], ◌∷◌, ◌++◌, map, Option, none, some, ok, ◌≡◌, refl, sym, ◌∙◌, ap, subst,
  arith, if◌then◌else◌, All, inl, inr,
}
use llmp2p.Common.Bytes.{Bytes, codes, equal}
use llmp2p.Common.Dict.{find}
use llmp2p.Pull.{PullError}
use llmp2p.Cli.Delegate.{JobResult, Decoder, is_final, poll_loop}
use llmp2p.Daemon.Queue.{
  Status, Job, Queue, status_text, snapshot, Answer, found, unknown_job, handle_pull_get,
}
use llmp2p.Daemon.Queue.Drain.{IsEnded}

module _ (text_of : PullError → Bytes) where
  abbrev error_text : Option PullError → Bytes
  error_text none = []
  error_text (some e) = text_of e

  -- a job as its JSON is read
  abbrev pub view : Job → JobResult
  view j = record {
    id = j.id;
    status = status_text j.status;
    error = error_text j.error;
    result = j.result;
  }

  abbrev lost : JobResult → JobResult
  lost old = record old { error = codes "unknown pull job" }

  -- The body of an answer of `handlePullGet`: a job, or an object with the field `error` alone.
  abbrev pub decoder : Answer → Decoder
  decoder (found j) old = some (view j)
  decoder unknown_job old = some (lost old)
  decoder _ old = none

  -- a poll that the daemon answers in a state of its queue
  abbrev pub poll_in : Queue → Bytes → Option Decoder
  poll_in q id = some (decoder (handle_pull_get id q))

  -- The job is in the queue, and not at its end.
  abbrev pub IsOpen : Bytes → Queue → Type 0
  IsOpen id q =
      (j : Job) × (find id q.jobs ≡ some j)
      × (j.id ≡ id)
      × (is_final (status_text j.status) ≡ false)

  IsEnded-is_final : (s : Status) → IsEnded s → is_final (status_text s) ≡ true
  unfolding is_final equal
  IsEnded-is_final s (inl e) = rw e refl
  IsEnded-is_final s (inr e) = rw e refl

  poll_found :
      (id : Bytes) (q : Queue) (j : Job) → find id q.jobs ≡ some j → handle_pull_get id q ≡ found j
  unfolding handle_pull_get snapshot
  poll_found id q j h = ground arith

  poll_missing :
      (id : Bytes) (q : Queue) → find id q.jobs ≡ none → handle_pull_get id q ≡ unknown_job
  unfolding handle_pull_get snapshot
  poll_missing id q h = ground arith

  poll_step :
      (q : Queue) (gets : List (Bytes → Option Decoder)) (job k : JobResult)
      → decoder (handle_pull_get job.id q) job ≡ some k
      → poll_loop (poll_in q ∷ gets) job
        ≡ (if is_final k.status then some (ok k) else poll_loop gets k)
  unfolding poll_loop
  poll_step q gets job k h = ground arith

  -- However the queue goes on, the polls for a job return it as the daemon holds it in the first state in
  -- which it has succeeded or failed.
  pub poll_loop-view :
      (qs : List Queue) (u : Queue) (rest : List (Bytes → Option Decoder)) (job : JobResult)
      (j : Job)
      → All (IsOpen job.id) qs
      → find job.id u.jobs ≡ some j
      → IsEnded j.status
      → poll_loop (map poll_in qs ++ poll_in u ∷ rest) job ≡ some (ok (view j))
  poll_loop-view [] u rest job j o h e =
      poll_step u rest job (view j) (ap (λ a. decoder a job) (poll_found job.id u j h))
      ∙ ap (λ b. if b then some (ok (view j)) else poll_loop rest (view j))
          (IsEnded-is_final j.status e)
  poll_loop-view (q ∷ qs) u rest job j ((k, at, same, open_status), o) h e =
      poll_step q _ job (view k) (ap (λ a. decoder a job) (poll_found job.id q k at))
      ∙ (ap
            (λ b.
              if b
              then some (ok (view k))
              else poll_loop (map poll_in qs ++ poll_in u ∷ rest) (view k))
            open_status
          ∙ poll_loop-view qs u rest (view k) j (subst (λ y. All (IsOpen y) qs) (sym same) o)
              (subst (λ y. find y u.jobs ≡ some j) (sym same) h) e)

  -- Of a job that the daemon does not know, as after its restart, the polls never return.
  pub poll_loop_unknown :
      (qs : List Queue) (job : JobResult)
      → is_final job.status ≡ false
      → All (λ q. find job.id q.jobs ≡ none) qs
      → poll_loop (map poll_in qs) job ≡ none
  unfolding poll_loop
  poll_loop_unknown [] job h n = refl
  poll_loop_unknown (q ∷ qs) job h (m, n) =
      poll_step q (map poll_in qs) job (lost job)
        (ap (λ a. decoder a job) (poll_missing job.id q m))
      ∙ (ap (λ b. if b then some (ok (lost job)) else poll_loop (map poll_in qs) (lost job)) h
          ∙ poll_loop_unknown qs (lost job) h n)
