-- ===== src/Daemon/Queue/Invariant/Waiting.antt =====
-- The steps of new and of waiting goroutines keep the invariant.
use llmp2p.Common.{
  ℕ, Bool, true, false, ◌||◌, List, [], ◌∷◌, ◌++◌, Option, none, some, ◌≡◌, refl, subst, arith,
  All-append,
}
use llmp2p.Common.Bytes.{Bytes, equal}
use llmp2p.Common.Bytes.Laws.{equal_iff, equal_refl}
use llmp2p.Common.Dict.{Dict, find, insert}
use llmp2p.Ref.{Ref}
use llmp2p.Daemon.Queue.{
  queued, succeeded, failed, Job, Task, Phase, taken, Queue, new_queue, new_job, enqueue,
}
use llmp2p.Daemon.Queue.Invariant.Counts.{
  status_at, status_at-insert, jobs_with_absent, IsDistinct-append, jobs_with-append, has_id-append,
  is_some-insert,
}
use llmp2p.Daemon.Queue.Invariant.{
  IsApart, fits, HolderFits, has_task, is_taken, Inv, AreQueued-insert, AreQueued-IsApart,
  AreApart-append, All-without, AreApart-without, has_task-append, has_task-without,
}

pub new_queue-Inv : Inv new_queue
unfolding find
new_queue-Inv = record {
  ids_listed = λ id. refl;
  ids_distinct = tt;
  waiting_queued = tt;
  waiting_apart = tt;
  holder_fits = tt;
  running_held = λ id h. absurd (ground arith);
  queued_waits = λ id h. absurd (ground arith);
  successes = refl;
  failures = refl;
}

fresh-IsApart : (q : Queue) (id : Bytes) → Inv q → find id q.jobs ≡ none → IsApart id q.waiting
fresh-IsApart q id i n = AreQueued-IsApart q.jobs id q.waiting (λ h. ground arith) i.waiting_queued

fits_some : (p : Phase) → fits p none ≡ false
fits_some p = ground arith

fits-apart :
    (jobs : Dict Job) (id k : Bytes) (p : Phase)
    → find id jobs ≡ none
    → fits p (status_at jobs k) ≡ true
    → equal id k ≡ false
fits-apart jobs id k p n f = go (equal id k) refl
  where
    go : (b : Bool) → equal id k ≡ b → equal id k ≡ false
    go false e = e
    go true e =
        let q = (equal_iff id k).0 e in
        let none_at : find k jobs ≡ none = rw (← q) n in absurd (ground (arith, fits_some p))

-- A new job changes nothing for the goroutine that holds the semaphore.
add-HolderFits :
    (jobs : Dict Job) (ts : List Task) (u : Task) (j : Job) (h : Option (Task × Phase))
    → find u.id jobs ≡ none
    → HolderFits jobs ts h
    → HolderFits (insert u.id j jobs) (ts ++ u ∷ []) h
add-HolderFits jobs ts u j none n f = tt
add-HolderFits jobs ts u j (some (t, p)) n f =
    let apart : equal u.id t.id ≡ false = fits-apart jobs u.id t.id p n f.0 in
    (
      rw (status_at-insert u.id t.id j jobs, apart) f.0,
      All-append (λ w. equal t.id w.id ≡ false) ts (u ∷ []) f.1
          (ground (arith, equal_iff u.id t.id, equal_iff t.id u.id), tt),
    )

pub add-Inv :
    (q : Queue) (id : Bytes) (r : Ref) (http_only : Bool) (now : ℕ)
    → find id q.jobs ≡ none
    → Inv q
    → Inv (enqueue id r http_only now q).0
unfolding enqueue
add-Inv q id r http_only now n i = record {
  ids_listed = λ k. ground (
    arith,
    is_some-insert id k (new_job id r now) q.jobs,
    has_id-append k id q.order,
    i.ids_listed k,
  );
  ids_distinct = IsDistinct-append id q.order (ground (arith, i.ids_listed id)) i.ids_distinct;
  waiting_queued =
      All-append (λ t. status_at (insert id (new_job id r now) q.jobs) t.id ≡ some queued) q.waiting
        (record { id = id; ref = r; http_only = http_only } ∷ [])
        (AreQueued-insert q.jobs id (new_job id r now) q.waiting (fresh-IsApart q id i n)
          i.waiting_queued)
        (ground (arith, status_at-insert id id (new_job id r now) q.jobs, equal_refl id), tt);
  waiting_apart =
      AreApart-append (record { id = id; ref = r; http_only = http_only }) q.waiting
        (fresh-IsApart q id i n) i.waiting_apart;
  holder_fits =
      add-HolderFits q.jobs q.waiting (record { id = id; ref = r; http_only = http_only })
        (new_job id r now) q.holder n i.holder_fits;
  queued_waits = λ k h. ground (
    arith,
    status_at-insert id k (new_job id r now) q.jobs,
    has_task-append k (record { id = id; ref = r; http_only = http_only }) q.waiting,
    i.queued_waits k,
  );
  running_held =
      λ k h. i.running_held k (ground (arith, status_at-insert id k (new_job id r now) q.jobs));
  successes = ground (
    arith,
    jobs_with-append succeeded id q.order (insert id (new_job id r now) q.jobs),
    jobs_with_absent succeeded id (new_job id r now) q.jobs q.order,
    status_at-insert id id (new_job id r now) q.jobs,
    equal_refl id,
    i.ids_listed id,
    i.successes,
  );
  failures = ground (
    arith,
    jobs_with-append failed id q.order (insert id (new_job id r now) q.jobs),
    jobs_with_absent failed id (new_job id r now) q.jobs q.order,
    status_at-insert id id (new_job id r now) q.jobs,
    equal_refl id,
    i.ids_listed id,
    i.failures,
  );
}

pub take-Inv :
    (q : Queue) (before : List Task) (t : Task) (after : List Task)
    → q.waiting ≡ before ++ t ∷ after
    → q.holder ≡ none
    → Inv q
    → Inv (record q { waiting = before ++ after; holder = some (t, taken) })
take-Inv q before t after w n i =
    let (a, b) = AreApart-without before t after (rw (← w) i.waiting_apart) in
    let (c, d) =
      All-without (λ u. status_at q.jobs u.id ≡ some queued) before t after
        (rw (← w) i.waiting_queued) in
    record {
      ids_listed = i.ids_listed;
      ids_distinct = i.ids_distinct;
      waiting_queued = d;
      waiting_apart = b;
      holder_fits = (rw c refl, a);
      running_held = λ k h. absurd (let (u, x, y) = i.running_held k h in ground arith);
      queued_waits = λ k h.
          let old : (has_task k (before ++ t ∷ after) || is_taken k q.holder) ≡ true =
            subst (λ ts. (has_task k ts || is_taken k q.holder) ≡ true) w (i.queued_waits k h) in
          ground (arith, has_task-without k before t after);
      successes = i.successes;
      failures = i.failures;
    }
