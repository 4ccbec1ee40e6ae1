-- ===== src/Daemon/Queue.antt =====
-- internal/daemon/pull.go: the delegated pulls.
-- A job runs in a goroutine of its own, which waits for the semaphore, marks the job as running, pulls,
-- marks it as finished, and gives the semaphore back. Each of these is one step; between steps of one
-- goroutine any step of another may come. `waiting` holds the goroutines before the semaphore, `holder`
-- the one behind it. The random id of a new job and the times are arguments.
pub mod Steps
pub mod Invariant
pub mod Laws
pub mod Drain
use llmp2p.Common.{
  ℕ, ◌+◌, Bool, true, false, List, [], ◌∷◌, ◌++◌, Option, none, some, Result, ok, err,
  if◌then◌else◌,
}
use llmp2p.Common.Bytes.{Bytes, codes, is_empty}
use llmp2p.Common.Dict.{Dict, find, insert}
use llmp2p.Ref.{Ref, RefError, parse, ref_string}
use llmp2p.Pull.{PullError}
use llmp2p.Pull.{Pulled}

pub data Status : Type 0 where
  queued running succeeded failed : Status

-- `pullJob`
pub record Job : Type 0 where
  pub id : Bytes
  pub reference : Bytes
  pub status : Status
  pub error : Option PullError
  pub result : Option Pulled
  pub queued_at : ℕ
  pub started_at : ℕ
  pub finished_at : ℕ

-- what the goroutine of a job keeps
pub record Task : Type 0 where
  pub id : Bytes
  pub ref : Ref
  pub http_only : Bool

-- how far the goroutine that holds the semaphore has come
pub data Phase : Type 0 where
  taken started finished : Phase

-- `pullQueue`, with `pullStats` of the server
pub record Queue : Type 0 where
  pub jobs : Dict Job
  pub order : List Bytes
  pub waiting : List Task
  pub holder : Option (Task × Phase)
  pub stats : Dict ℕ

-- `newPullQueue`
abbrev pub new_queue : Queue
new_queue = record { jobs = []; order = []; waiting = []; holder = none; stats = [] }

abbrev pub status_text : Status → Bytes
status_text queued = codes "queued"
status_text running = codes "running"
status_text succeeded = codes "succeeded"
status_text failed = codes "failed"

abbrev pub count_of : Option ℕ → ℕ
count_of none = 0
count_of (some n) = n

-- `recordPullResult`
unfoldable pub record_pull_result : Status → Dict ℕ → Dict ℕ
record_pull_result s stats =
    insert (status_text s) (count_of (find (status_text s) stats) + 1) stats

abbrev pub new_job : Bytes → Ref → ℕ → Job
new_job id r now = record {
  id = id;
  reference = ref_string r;
  status = queued;
  error = none;
  result = none;
  queued_at = now;
  started_at = 0;
  finished_at = 0;
}

-- `enqueue`, with the snapshot that it returns
unfoldable pub enqueue : Bytes → Ref → Bool → ℕ → Queue → Queue × Job
enqueue id r http_only now q =
    let job = new_job id r now in
    (
      record q {
        jobs = insert id job q.jobs;
        order = q.order ++ id ∷ [];
        waiting = q.waiting ++ record { id = id; ref = r; http_only = http_only } ∷ [];
      },
      job,
    )

-- a write to a job through its pointer
unfoldable pub update_job : Bytes → (Job → Job) → Dict Job → Dict Job
update_job id f jobs = elim (find id jobs) [ none ↦ jobs | some j ↦ insert id (f j) jobs ]

-- `job.Status = "running"`
unfoldable pub mark_running : ℕ → Job → Job
mark_running now j = record j { status = running; started_at = now }

unfoldable pub start_job : Task → ℕ → Queue → Queue
start_job t now q = record q {
  jobs = update_job t.id (mark_running now) q.jobs;
  holder = some (t, started);
}

-- the status that the outcome of a pull gives
unfoldable pub status_of : Result PullError Pulled → Status
status_of (ok p) = succeeded
status_of (err e) = failed

unfoldable pub mark_finished : ℕ → Result PullError Pulled → Job → Job
mark_finished now (ok p) j = record j { status = succeeded; finished_at = now; result = some p }
mark_finished now (err e) j = record j { status = failed; finished_at = now; error = some e }

-- the end of `run`
unfoldable pub finish_job : Task → ℕ → Result PullError Pulled → Queue → Queue
finish_job t now outcome q = record q {
  jobs = update_job t.id (mark_finished now outcome) q.jobs;
  holder = some (t, finished);
  stats = record_pull_result (status_of outcome) q.stats;
}

-- `snapshot`
unfoldable pub snapshot : Bytes → Queue → Option Job
snapshot id q = find id q.jobs

-- `list`; `none` where it follows a nil pointer
unfoldable pub list_from : List Bytes → Dict Job → Option (List Job)
list_from [] jobs = some []
list_from (id ∷ ids) jobs =
    let rest = list_from ids jobs in
    elim (find id jobs) [
      | none ↦ none
      | some j ↦ elim rest [ none ↦ none | some js ↦ some (j ∷ js) ]
    ]

unfoldable pub list_jobs : Queue → Option (List Job)
list_jobs q = list_from q.order q.jobs

-- What a handler answers: the status code with the body.
pub data Answer : Type 0 where
  accepted found : Job → Answer
  listed : List Job → Answer
  bad_body whole_models_only unknown_job : Answer
  bad_reference : RefError → Answer

unfoldable pub accept_reference : Bytes → Bool → ℕ → Ref → Queue → Queue × Answer
accept_reference id http_only now r q =
    if is_empty r.path
    then (let p = enqueue id r http_only now q in (p.0, accepted p.1))
    else (q, whole_models_only)

-- `handlePullCreate`; the body is `none` if it cannot be decoded
unfoldable pub handle_pull_create : Bytes → ℕ → Option (Bytes × Bool) → Queue → Queue × Answer
handle_pull_create id now none q = (q, bad_body)
handle_pull_create id now (some (text, http_only)) q = elim (parse text) [
  | err e ↦ (q, bad_reference e)
  | ok r ↦ accept_reference id http_only now r q
]

-- `handlePullGet`
unfoldable pub handle_pull_get : Bytes → Queue → Answer
handle_pull_get id q = elim (snapshot id q) [ none ↦ unknown_job | some j ↦ found j ]

-- `handlePullList`; `none` is the panic of `list`
unfoldable pub handle_pull_list : Queue → Option Answer
handle_pull_list q = elim (list_jobs q) [ none ↦ none | some js ↦ some (listed js) ]
