-- ===== src/Daemon/Queue/Laws.antt =====
-- The queue of delegated pulls, in every state that it can reach.
use llmp2p.Common.{
  ℕ, ◌+◌, Bool, true, List, [], ◌∷◌, Option, none, some, Result, ok, err, ◌≡◌, refl, sym, ◌∙◌,
  subst, arith, if◌then◌else◌, inl, inr, Bool-cases, Option-cases,
}
use llmp2p.Common.Bytes.{Bytes, equal, is_empty}
use llmp2p.Common.Bytes.Laws.{equal_iff, equal_refl}
use llmp2p.Common.Dict.{Dict, find, insert, find-insert}
use llmp2p.Ref.{RefError, Ref, parse}
use llmp2p.Ref.RoundTrip.{parse-ref_string_of_parse}
use llmp2p.Pull.{PullError, Pulled}
use llmp2p.Daemon.Queue.{
  Status, queued, running, succeeded, failed, Job, Task, started, finished, Queue, new_queue,
  new_job, status_text, count_of, record_pull_result, enqueue, status_of, mark_finished, finish_job,
  list_from, list_jobs, accepted, handle_pull_create, accept_reference,
}
use llmp2p.Daemon.Queue.Steps.{Step, add, take, start, finish, release, Reach, here, move}
use llmp2p.Daemon.Queue.Invariant.{Inv, HolderFits}
use llmp2p.Daemon.Queue.Invariant.Waiting.{new_queue-Inv, add-Inv, take-Inv}
use llmp2p.Daemon.Queue.Invariant.Running.{start-Inv, update_job_lem, status-some, write-Inv}
use llmp2p.Daemon.Queue.Invariant.Counts.{status_at, has_id, is_some}

count-record :
    (s t : Status) (stats : Dict ℕ)
    → count_of (find (status_text s) (record_pull_result t stats))
      ≡ (if equal (status_text t) (status_text s) then 1 else 0)
        + count_of (find (status_text s) stats)
unfolding record_pull_result
count-record s t stats = elim (Bool-cases (equal (status_text t) (status_text s))) [
  | inl e ↦
      let p = (equal_iff (status_text t) (status_text s)).0 e in
      rw
        (
          find-insert (status_text s) (status_text t) (count_of (find (status_text t) stats) + 1)
              stats,
          e,
          p,
        )
        (omega arith)
  | inr e ↦
      rw
        (
          find-insert (status_text s) (status_text t) (count_of (find (status_text t) stats) + 1)
              stats,
          e,
        )
        (omega arith)
]

finish-Inv :
    (q : Queue) (t : Task) (now : ℕ) (outcome : Result PullError Pulled)
    → q.holder ≡ some (t, started)
    → Inv q
    → Inv (finish_job t now outcome q)
unfolding finish_job mark_finished status_of equal
finish-Inv q t now outcome h i =
    let fit = subst (λ o. HolderFits q.jobs q.waiting o) h i.holder_fits in
    let (j, at) = status-some q.jobs t.id (λ e. ground arith) in
    let old : j.status ≡ running = ground arith in
    rw (update_job_lem t.id (mark_finished now outcome) q.jobs j at) (go j at old outcome)
  where
    go :
        (j : Job)
        → find t.id q.jobs ≡ some j
        → j.status ≡ running
        → (o : Result PullError Pulled)
        → Inv (record q {
          jobs = insert t.id (mark_finished now o j) q.jobs;
          holder = some (t, finished);
          stats = record_pull_result (status_of o) q.stats;
        })
    go j at old (ok p) =
        write-Inv q t started finished j (mark_finished now (ok p) j) _ h at refl i
          (λ e. absurd (ground arith)) (λ e. absurd (ground arith))
          (ground (arith, count-record succeeded succeeded q.stats))
          (ground (arith, count-record failed succeeded q.stats))
    go j at old (err e) =
        write-Inv q t started finished j (mark_finished now (err e) j) _ h at refl i
          (λ e. absurd (ground arith)) (λ e. absurd (ground arith))
          (ground (arith, count-record succeeded failed q.stats))
          (ground (arith, count-record failed failed q.stats))

release-Inv :
    (q : Queue) (t : Task)
    → q.holder ≡ some (t, finished)
    → Inv q
    → Inv (record q { holder = none })
release-Inv q t h i = record {
  ids_listed = i.ids_listed;
  ids_distinct = i.ids_distinct;
  waiting_queued = i.waiting_queued;
  waiting_apart = i.waiting_apart;
  holder_fits = tt;
  running_held = λ id s. absurd (let (u, x, y) = i.running_held id s in ground arith);
  queued_waits = λ id s. ground (arith, i.queued_waits id s);
  successes = i.successes;
  failures = i.failures;
}

Step-Inv : {q u : Queue} → Step q u → Inv q → Inv u
Step-Inv (add q id r http_only now n) i = add-Inv q id r http_only now n i
Step-Inv (take q before t after w n) i = take-Inv q before t after w n i
Step-Inv (start q t now h) i = start-Inv q t now h i
Step-Inv (finish q t now outcome h) i = finish-Inv q t now outcome h i
Step-Inv (release q t h) i = release-Inv q t h i

-- Every state that the queue reaches satisfies the invariant: the ids that are listed are distinct and
-- are those of the jobs, a waiting goroutine has a queued job, the goroutine that holds the semaphore
-- has a job of the status of its phase, a running job's goroutine holds the semaphore, and the two
-- counters are the numbers of the jobs that succeeded and that failed.
pub Reach-Inv : {q : Queue} → Reach new_queue q → Inv q
Reach-Inv here = new_queue-Inv
Reach-Inv (move r st) = Step-Inv st (Reach-Inv r)

-- At most one job is running at a time.
pub Reach-running :
    {q : Queue} (a b : Bytes)
    → Reach new_queue q
    → status_at q.jobs a ≡ some running
    → status_at q.jobs b ≡ some running
    → a ≡ b
Reach-running a b r ha hb =
    let (t, ht, ta) = (Reach-Inv r).running_held a ha in
    let (u, hu, ub) = (Reach-Inv r).running_held b hb in
    let same : t.id ≡ u.id = ground arith in sym ta ∙ (same ∙ ub)

list_from_all :
    (ids : List Bytes) (jobs : Dict Job)
    → ((id : Bytes) → has_id id ids ≡ true → is_some (find id jobs) ≡ true)
    → (js : List Job) × (list_from ids jobs ≡ some js)
unfolding list_from
list_from_all [] jobs h = ([], refl)
list_from_all (id ∷ ids) jobs h =
    let (js, e) = list_from_all ids jobs (λ k p. h k (ground arith)) in
    let found = h id (ground (arith, equal_refl id)) in
    elim (Option-cases (find id jobs)) [
      | inl n ↦ absurd (ground arith)
      | inr p ↦ (p.0 ∷ js, ground (arith, p.1))
    ]

-- Listing the jobs never follows a nil pointer.
pub Reach-list_jobs : {q : Queue} → Reach new_queue q → (js : List Job) × (list_jobs q ≡ some js)
unfolding list_jobs
Reach-list_jobs {q} r =
    list_from_all q.order q.jobs (λ id h. ground (arith, (Reach-Inv r).ids_listed id))

-- A request is accepted only with a text that parses to a whole repository. The job that is answered is
-- the one that the queue holds under the new id, is queued, and its reference parses as the text does.
pub handle_pull_create_lem :
    (id : Bytes) (now : ℕ) (body : Option (Bytes × Bool)) (q u : Queue) {j : Job}
    → handle_pull_create id now body q ≡ (u, accepted j)
    → (text : Bytes) × (http_only : Bool) × (r : Ref) × (body ≡ some (text, http_only))
      × (parse text ≡ ok r)
      × (r.path ≡ [])
      × (find id u.jobs ≡ some j)
      × (j.status ≡ queued)
      × (parse j.reference ≡ parse text)
unfolding handle_pull_create accept_reference enqueue is_empty
handle_pull_create_lem id now none q u h = absurd (ground arith)
handle_pull_create_lem id now (some (text, http_only)) q u {j} h = go (parse text) refl
  where
    Accepted : Type 0
    Accepted =
        (t : Bytes) × (b : Bool) × (r : Ref) × (◌≡◌ {A = Option (Bytes × Bool)}
          (some (text, http_only)) (some (t, b)))
        × (parse t ≡ ok r)
        × (r.path ≡ [])
        × (find id u.jobs ≡ some j)
        × (j.status ≡ queued)
        × (parse j.reference ≡ parse t)

    whole : (r : Ref) → parse text ≡ ok r → (p : Bytes) → r.path ≡ p → Accepted
    whole r e (c ∷ p) n = absurd (ground arith)
    whole r e [] n =
        let made : j ≡ new_job id r now = ground arith in
        let stored : find id u.jobs ≡ some (new_job id r now) =
          ground (arith, find-insert id id (new_job id r now) q.jobs, equal_refl id) in
        let back = parse-ref_string_of_parse text e in
        (text, http_only, r, refl, e, n, rw made stored, rw made refl, rw made back)

    go : (o : Result RefError Ref) → parse text ≡ o → Accepted
    go (err x) e = absurd (ground arith)
    go (ok r) e = whole r e r.path refl
