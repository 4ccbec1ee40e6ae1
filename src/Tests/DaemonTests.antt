-- ===== src/Tests/DaemonTests.antt =====
-- The queue of delegated pulls: two jobs, of which the second overtakes the first.
use llmp2p.Common.{
  ℕ, ◌+◌, ◌⊎◌, Bool, true, false, List, [], ◌∷◌, ◌++◌, Option, none, some, Result, ok, err, ◌≡◌,
  refl, arith, map, inl, inr,
}
use llmp2p.Common.Bytes.{Bytes, codes}
use llmp2p.Common.Dict.{find}
use llmp2p.Ref.{Ref, parse}
use llmp2p.Pull.{PullError, unreachable, Pulled}
use llmp2p.Daemon.Queue.{
  Status, queued, running, succeeded, failed, Job, Task, Phase, taken, started, finished, Queue,
  new_queue, enqueue, start_job, finish_job, list_jobs, handle_pull_create, accepted, new_job,
  status_text,
}
use llmp2p.Daemon.Queue.Steps.{add, take, start, finish, Reach, here, move}
use llmp2p.Daemon.Queue.Invariant.{Inv}
use llmp2p.Daemon.Queue.Invariant.Counts.{status_at}
use llmp2p.Daemon.Queue.Laws.{Reach-Inv, Reach-running, handle_pull_create_lem}
use llmp2p.Cli.Delegate.{JobResult, is_final, poll_loop}
use llmp2p.Cli.Delegate.Laws.{view, poll_in, poll_loop-view, poll_loop_unknown}
use llmp2p.Daemon.Queue.Drain.{AllEnded, work, Run, stay, next, CanStep, Run-IsEnded}

abbrev first : Bytes
first = codes "11"

abbrev second : Bytes
second = codes "22"

abbrev ref : Ref
ref = record { owner = codes "org"; repo = codes "repo"; revision = codes "main"; path = [] }

abbrev task_of : Bytes → Task
task_of id = record { id = id; ref = ref; http_only = false }

abbrev two_jobs : Queue
two_jobs = (enqueue second ref false 2 (enqueue first ref false 1 new_queue).0).0

abbrev overtaken : Queue
overtaken = record two_jobs { waiting = task_of first ∷ []; holder = some (task_of second, taken) }

abbrev second_runs : Queue
second_runs = start_job (task_of second) 3 overtaken

abbrev second_failed : Queue
second_failed = finish_job (task_of second) 4 (err unreachable) second_runs

no_first : find first new_queue.jobs ≡ none
unfolding find
no_first = refl

no_second : find second (enqueue first ref false 1 new_queue).0.jobs ≡ none
unfolding find enqueue llmp2p.Common.Dict.insert llmp2p.Common.Bytes.equal
no_second = refl

both_wait : two_jobs.waiting ≡ (task_of first ∷ []) ++ task_of second ∷ []
unfolding enqueue
both_wait = refl

none_holds : two_jobs.holder ≡ none
unfolding enqueue
none_holds = refl

two_jobs_reached : Reach new_queue two_jobs
two_jobs_reached =
    move (move here (add new_queue first ref false 1 no_first))
      (add (enqueue first ref false 1 new_queue).0 second ref false 2 no_second)

second_runs_reached : Reach new_queue second_runs
second_runs_reached =
    move
      (move two_jobs_reached
        (take two_jobs (task_of first ∷ []) (task_of second) [] both_wait none_holds))
      (start overtaken (task_of second) 3 refl)

second_held : second_runs.holder ≡ some (task_of second, started)
unfolding start_job
second_held = refl

second_failed_reached : Reach new_queue second_failed
second_failed_reached =
    move second_runs_reached (finish second_runs (task_of second) 4 (err unreachable) second_held)

second_is_running : status_at second_runs.jobs second ≡ some running
unfolding start_job enqueue find llmp2p.Daemon.Queue.update_job llmp2p.Common.Dict.insert
    llmp2p.Common.Bytes.equal llmp2p.Daemon.Queue.mark_running
second_is_running = refl

-- the jobs of a queue, in the order in which they are listed
abbrev statuses : Option (List Job) → List Bytes
statuses none = []
statuses (some []) = []
statuses (some (j ∷ js)) = status_text j.status ∷ statuses (some js)

listing_works : statuses (list_jobs second_failed) ≡ codes "queued" ∷ codes "failed" ∷ []
unfolding list_jobs llmp2p.Daemon.Queue.list_from finish_job start_job enqueue find
    llmp2p.Daemon.Queue.update_job llmp2p.Common.Dict.insert llmp2p.Common.Bytes.equal
    llmp2p.Daemon.Queue.mark_finished
listing_works = refl

Reach-Inv_example : Inv second_failed
Reach-Inv_example = Reach-Inv second_failed_reached

Reach-running_example : second ≡ second
Reach-running_example =
    Reach-running second second second_runs_reached second_is_running second_is_running

abbrev all_fail : Task → Result PullError Pulled
all_fail t = err unreachable

one_step : Run all_fail second_runs 1 second_failed
one_step = next stay (finish second_runs (task_of second) 4 (err unreachable) second_held) refl

Run-IsEnded_example :
    (1 + work second_failed ≡ work second_runs)
    × (second_failed.order ≡ second_runs.order)
    × (CanStep all_fail second_failed ⊎ AllEnded second_failed)
Run-IsEnded_example = Run-IsEnded all_fail second_runs_reached one_step

abbrev body : Bytes
body = codes "hf:org/repo"

create_works :
    handle_pull_create first 1 (some (body, true)) new_queue
    ≡ ((enqueue first ref true 1 new_queue).0, accepted (new_job first ref 1))
unfolding handle_pull_create parse llmp2p.Ref.parse_body llmp2p.Common.Bytes.cut llmp2p.Ref.cut_or
    llmp2p.Ref.validate llmp2p.Common.Bytes.is_alnum llmp2p.Ref.is_owner_byte
    llmp2p.Common.Bytes.class_between llmp2p.Ref.is_repo_byte llmp2p.Ref.is_revision_byte
    llmp2p.Daemon.Queue.accept_reference enqueue
create_works = refl

handle_pull_create_lem_example :
    (text : Bytes) × (http_only : Bool) × (r : Ref) × (◌≡◌ {A = Option (Bytes × Bool)}
      (some (body, true))
      (some (text, http_only)))
    × (parse text ≡ ok r)
    × (r.path ≡ [])
    × (find first (enqueue first ref true 1 new_queue).0.jobs ≡ some (new_job first ref 1))
    × ((new_job first ref 1).status ≡ queued)
    × (parse (new_job first ref 1).reference ≡ parse text)
handle_pull_create_lem_example =
    handle_pull_create_lem first 1 (some (body, true)) new_queue
      (enqueue first ref true 1 new_queue).0 create_works

abbrev text_of : PullError → Bytes
text_of e = codes "unreachable"

abbrev second_job : Job
second_job = record {
  id = second;
  reference = codes "hf:org/repo";
  status = failed;
  error = some unreachable;
  result = none;
  queued_at = 2;
  started_at = 3;
  finished_at = 4;
}

abbrev running_job : Job
running_job = record second_job { status = running; error = none; finished_at = 0 }

second_at : find second second_failed.jobs ≡ some second_job
unfolding find finish_job llmp2p.Daemon.Queue.update_job start_job enqueue llmp2p.Common.Dict.insert
    llmp2p.Common.Bytes.equal llmp2p.Daemon.Queue.mark_finished llmp2p.Daemon.Queue.mark_running
    llmp2p.Ref.ref_string
second_at = refl

running_at : find second second_runs.jobs ≡ some running_job
unfolding find start_job llmp2p.Daemon.Queue.update_job enqueue llmp2p.Common.Dict.insert
    llmp2p.Common.Bytes.equal llmp2p.Daemon.Queue.mark_running llmp2p.Ref.ref_string
running_at = refl

running_is_open : is_final (status_text running) ≡ false
unfolding is_final llmp2p.Common.Bytes.equal
running_is_open = refl

abbrev asked : JobResult
asked = record { id = second; status = codes "queued"; error = []; result = none }

poll_loop-view_example :
    poll_loop (map (poll_in text_of) (second_runs ∷ []) ++ poll_in text_of second_failed ∷ []) asked
    ≡ some (ok (view text_of second_job))
poll_loop-view_example =
    poll_loop-view text_of (second_runs ∷ []) second_failed [] asked second_job
      ((running_job, running_at, refl, running_is_open), tt) second_at (inr refl)

queued_is_open : is_final asked.status ≡ false
unfolding is_final llmp2p.Common.Bytes.equal
queued_is_open = refl

no_second_job : find second new_queue.jobs ≡ none
unfolding find
no_second_job = refl

poll_loop_unknown_example :
    poll_loop (map (poll_in text_of) (new_queue ∷ new_queue ∷ [])) asked ≡ none
poll_loop_unknown_example =
    poll_loop_unknown text_of (new_queue ∷ new_queue ∷ []) asked queued_is_open
      (no_second_job, (no_second_job, tt))
