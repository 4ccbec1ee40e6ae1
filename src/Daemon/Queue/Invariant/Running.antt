-- ===== src/Daemon/Queue/Invariant/Running.antt =====
-- Writes to the job of the goroutine that holds the semaphore keep the invariant.
use llmp2p.Common.{
  ℕ, ◌+◌, true, ◌||◌, none, some, ◌≡◌, ◌≢◌, refl, ap, subst, arith, inl, inr, Bool-cases,
  Option-cases,
}
use llmp2p.Common.Bytes.{Bytes, equal}
use llmp2p.Common.Bytes.Laws.{equal_iff, equal_refl}
use llmp2p.Common.Dict.{Dict, find, insert}
use llmp2p.Daemon.Queue.{
  queued, running, succeeded, failed, Job, Task, Phase, taken, started, Queue, status_text,
  count_of, update_job, mark_running, start_job,
}
use llmp2p.Daemon.Queue.Invariant.Counts.{
  hit, status_at, has_id, status_at-insert, jobs_with_present, is_some-insert,
}
use llmp2p.Daemon.Queue.Invariant.{
  fits, HolderFits, IsHeld, has_task, is_taken, Inv, AreQueued-insert, is_taken-equal,
}

pub update_job_lem :
    (id : Bytes) (f : Job → Job) (jobs : Dict Job) (j : Job)
    → find id jobs ≡ some j
    → update_job id f jobs ≡ insert id (f j) jobs
unfolding update_job
update_job_lem id f jobs j h = ground arith

pub status-some :
    (jobs : Dict Job) (id : Bytes) → status_at jobs id ≢ none → (j : Job) × (find id jobs ≡ some j)
status-some jobs id n = elim (Option-cases (find id jobs)) [
  | inl e ↦ absurd (n (rw e refl))
  | inr p ↦ p
]

-- The goroutine that holds the semaphore writes to its job.
module _ (q : Queue) (t : Task) (p r : Phase) (j k : Job) (stats : Dict ℕ)
    (h : q.holder ≡ some (t, p)) (at : find t.id q.jobs ≡ some j)
    (new : fits r (some k.status) ≡ true) (i : Inv q) where
  old_fits : HolderFits q.jobs q.waiting (some (t, p))
  old_fits = subst (λ o. HolderFits q.jobs q.waiting o) h i.holder_fits

  listed : has_id t.id q.order ≡ true
  listed = ground (arith, i.ids_listed t.id)

  write-IsHeld :
      (k.status ≡ running → r ≡ started)
      → (id : Bytes) → status_at (insert t.id k q.jobs) id ≡ some running
      → IsHeld (some (t, r)) id
  write-IsHeld a id s = elim (Bool-cases (equal t.id id)) [
    | inl e ↦
        let now : k.status ≡ running = ground (arith, status_at-insert t.id id k q.jobs) in
        (t, ap (λ x. some (t, x)) (a now), (equal_iff t.id id).0 e)
    | inr e ↦
        let (u, held, same) =
          i.running_held id (ground (arith, status_at-insert t.id id k q.jobs)) in
        absurd (ground (arith, equal_iff t.id id))
  ]

  write-waits :
      k.status ≢ queued
      → (id : Bytes) → status_at (insert t.id k q.jobs) id ≡ some queued
      → (has_task id q.waiting || is_taken id (some (t, r))) ≡ true
  write-waits b id s = elim (Bool-cases (equal t.id id)) [
    | inl e ↦ absurd (b (ground (arith, status_at-insert t.id id k q.jobs)))
    | inr e ↦
        let old : (has_task id q.waiting || is_taken id (some (t, p))) ≡ true =
          subst (λ o. (has_task id q.waiting || is_taken id o) ≡ true) h
            (i.queued_waits id (ground (arith, status_at-insert t.id id k q.jobs))) in
        ground (arith, is_taken-equal id t p)
  ]

  pub write-Inv :
      (k.status ≡ running → r ≡ started)
      → k.status ≢ queued
      → count_of (find (status_text succeeded) stats) + hit succeeded (some j.status)
        ≡ count_of (find (status_text succeeded) q.stats) + hit succeeded (some k.status)
      → count_of (find (status_text failed) stats) + hit failed (some j.status)
        ≡ count_of (find (status_text failed) q.stats) + hit failed (some k.status)
      → Inv (record q { jobs = insert t.id k q.jobs; holder = some (t, r); stats = stats })
  write-Inv a live b c = record {
    ids_listed =
        λ id. ground (arith, is_some-insert t.id id k q.jobs, i.ids_listed id, equal_iff t.id id);
    ids_distinct = i.ids_distinct;
    waiting_queued = AreQueued-insert q.jobs t.id k q.waiting old_fits.1 i.waiting_queued;
    waiting_apart = i.waiting_apart;
    holder_fits = (rw (status_at-insert t.id t.id k q.jobs, equal_refl t.id) new, old_fits.1);
    running_held = write-IsHeld a;
    queued_waits = write-waits live;
    successes = ground (
      arith,
      jobs_with_present succeeded t.id k q.jobs q.order i.ids_distinct listed,
      i.successes,
    );
    failures =
        ground
          (arith, jobs_with_present failed t.id k q.jobs q.order i.ids_distinct listed, i.failures);
  }

pub start-Inv :
    (q : Queue) (t : Task) (now : ℕ) → q.holder ≡ some (t, taken) → Inv q → Inv (start_job t now q)
unfolding start_job mark_running
start-Inv q t now h i =
    let fit = subst (λ o. HolderFits q.jobs q.waiting o) h i.holder_fits in
    let (j, at) = status-some q.jobs t.id (λ e. ground arith) in
    let old : j.status ≡ queued = ground arith in
    rw (update_job_lem t.id (mark_running now) q.jobs j at) (
      write-Inv q t taken started j (mark_running now j) q.stats h at refl i (λ e. refl)
        (λ e. absurd (ground arith)) (ground arith) (ground arith))
