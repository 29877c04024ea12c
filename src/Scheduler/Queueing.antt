-- ===== src/Scheduler/Queueing.antt =====
-- What the passes of the scheduler in internal/scheduler/ip_scheduler.go do to the task queue, and to
-- the schedule when a call is lost, whatever the network does.
use animehot.Common.{
  ℕ, zero, suc, ◌+◌, ◌*◌, Bool, true, false, not, some, List, [], ◌∷◌, str_eq, if◌then◌else◌,
  batches, length,
}
use animehot.Queue.Messages.{
  CrawlRequest, task_exists, ip_without_name, record_not_found, Result, ok, err,
}
use animehot.Queue.Server.{
  Redis, tasks, processing, dead, results, result_processing, result_dead, pending, processed,
}
use animehot.Queue.Network.{
  World, M, return, ◌>>=◌, Keeps, >>=-Keeps, attempt->>=-Keeps, guard->>-Keeps, if-Keeps,
  ignore-Keeps, query-Keeps, required-Keeps, query, attempt, ignore,
}
use animehot.Queue.Pairs.{on_left, on_right, on_left-Keeps, on_right-Keeps}
use animehot.Queue.Tasks.{push_task}
use animehot.Queue.Upkeep.{get_queue_stats}
use animehot.Queue.Dedup.Steps.{Deduped}
use animehot.Queue.Dedup.Operations.{push_task-Deduped}
use animehot.Schedule.Operations.{schedule, remove, get_due}
use animehot.Scheduler.Settings.{
  IpScheduler, IpMetadata, is_active, find_ip, second, calculate_interval,
}
use animehot.Scheduler.Pass.{
  Stores, crawl_request, tolerate_existing, push_tasks_for_ip, get_ip_by_id, reschedule,
  visit_found, visit, visit_all, wait_for_queue_drain, visit_batches, check_and_schedule,
  drain_ticks, is_drained, batch_size_or_default, threshold_or_default,
}

module _ (q : Redis) where
  -- Commands that only read, one after the other.
  abbrev reads : List (q.Store → ℕ) → World q.Store → World q.Store
  reads [] w = w
  reads (f ∷ fs) w = reads fs (query f w).1

  reads-Keeps {ℓ} :
      (P : q.Store → Type ℓ) (fs : List (q.Store → ℕ)) (w : World q.Store)
      → P w.store
      → P (reads fs w).store
  reads-Keeps P [] w p = p
  reads-Keeps P (f ∷ fs) w p = reads-Keeps P fs (query f w).1 (query-Keeps P f w p)

  get_queue_stats-Keeps {ℓ} :
      (ready : Bool) (P : q.Store → Type ℓ) → Keeps P (get_queue_stats q ready)
  unfolding get_queue_stats
  get_queue_stats-Keeps false P w p = p
  get_queue_stats-Keeps true P w p =
      reads-Keeps P
        (q.llen tasks
          ∷ q.llen processing
          ∷ q.llen dead
          ∷ q.scard pending
          ∷ q.llen results
          ∷ q.llen result_processing
          ∷ q.llen result_dead
          ∷ q.scard processed
          ∷ [])
        w p

-- A property of the queue that every push of a task keeps.
module _ {ℓ} (s : IpScheduler) (P : s.queue.Store → Type ℓ)
    (push_task-Keeps : (t : CrawlRequest)
      → Keeps P (push_task s.queue s.queue_ready (some t))) where
  open s use {schedule_store, queue, queue_ready, weights, config, db}

  abbrev Q : Stores s → Type ℓ
  Q x = P x.1

  done : {A : Type 0} (a : A) → Keeps Q (return a)
  done a w p = p

  tolerate-Keeps : (res : Result (Unit {0})) → Keeps Q (tolerate_existing res)
  unfolding tolerate_existing
  tolerate-Keeps (ok x) w p = p
  tolerate-Keeps (err task_exists) w p = p
  tolerate-Keeps (err e) w p = p

  abbrev pushing : IpMetadata weights → M (Stores s) (Unit {0})
  pushing found = on_right (push_task queue queue_ready (some (crawl_request s found)))

  put-Keeps : (m : M schedule_store.Store (Unit {0})) → Keeps Q (ignore (on_left m))
  put-Keeps m = ignore-Keeps Q (on_left m) (on_left-Keeps P m)

  push_tasks_for_ip-Keeps : (found : IpMetadata weights) → Keeps Q (push_tasks_for_ip s found)
  unfolding push_tasks_for_ip
  push_tasks_for_ip-Keeps found = guard->>-Keeps Q (not (str_eq found.name "")) ip_without_name _ (
      attempt->>=-Keeps Q (pushing found) tolerate_existing
        (on_right-Keeps P (push_task queue queue_ready (some (crawl_request s found)))
          (push_task-Keeps (crawl_request s found)))
        tolerate-Keeps)

  reschedule-Keeps :
      (now id : ℕ) (found : IpMetadata weights) (out : Result (Unit {0}))
      → Keeps Q (reschedule s now id found out)
  unfolding reschedule
  reschedule-Keeps now id found (ok x) =
      put-Keeps (schedule schedule_store id (now + calculate_interval weights config found.weight))
  reschedule-Keeps now id found (err e) = put-Keeps (schedule schedule_store id (now + 60 * second))

  visit_found-Keeps :
      (now id : ℕ) (found : Result (IpMetadata weights)) → Keeps Q (visit_found s now id found)
  unfolding visit_found
  visit_found-Keeps now id (err e) = put-Keeps (remove schedule_store id)
  visit_found-Keeps now id (ok found) =
      if-Keeps Q (is_active found.status)
        (attempt (push_tasks_for_ip s found) >>= reschedule s now id found)
        (ignore (on_left (remove schedule_store id)))
        (attempt->>=-Keeps Q (push_tasks_for_ip s found) (reschedule s now id found)
          (push_tasks_for_ip-Keeps found) (reschedule-Keeps now id found))
        (put-Keeps (remove schedule_store id))

  get_ip_by_id-Keeps : (id : ℕ) → Keeps Q (get_ip_by_id s id)
  unfolding get_ip_by_id
  get_ip_by_id-Keeps id =
      >>=-Keeps Q (query λ _. find_ip weights id db) _ (query-Keeps Q (λ _. find_ip weights id db))
        (λ found. required-Keeps Q found record_not_found)

  visit-Keeps : (now id : ℕ) → Keeps Q (visit s now id)
  unfolding visit
  visit-Keeps now id =
      attempt->>=-Keeps Q (get_ip_by_id s id) (visit_found s now id) (get_ip_by_id-Keeps id)
        (visit_found-Keeps now id)

  pub visit_all-Keeps : (now : ℕ) (ids : List ℕ) → Keeps Q (visit_all s now ids)
  unfolding visit_all
  visit_all-Keeps now [] = done tt
  visit_all-Keeps now (id ∷ ids) =
      >>=-Keeps Q (visit s now id) _ (visit-Keeps now id) (λ _. visit_all-Keeps now ids)

  wait_for_queue_drain-Keeps :
      (threshold ticks : ℕ) → Keeps Q (wait_for_queue_drain s threshold ticks)
  unfolding wait_for_queue_drain
  wait_for_queue_drain-Keeps threshold zero = done tt
  wait_for_queue_drain-Keeps threshold (suc ticks) =
      let rest = wait_for_queue_drain-Keeps threshold ticks in
      attempt->>=-Keeps Q (on_right (get_queue_stats queue queue_ready))
        (λ stats.
          if is_drained s threshold stats
          then return tt
          else wait_for_queue_drain s threshold ticks)
        (on_right-Keeps P (get_queue_stats queue queue_ready)
          (get_queue_stats-Keeps queue queue_ready P))
        (λ stats.
          if-Keeps Q (is_drained s threshold stats) (return tt)
            (wait_for_queue_drain s threshold ticks) (done tt) rest)

  pub visit_batches-Keeps :
      (now threshold : ℕ) (bs : List (List ℕ)) → Keeps Q (visit_batches s now threshold bs)
  unfolding visit_batches
  visit_batches-Keeps now threshold [] = done tt
  visit_batches-Keeps now threshold (batch ∷ []) = visit_all-Keeps now batch
  visit_batches-Keeps now threshold (batch ∷ next ∷ rest) =
      let later = visit_batches-Keeps now threshold (next ∷ rest) in
      >>=-Keeps Q (visit_all s now batch) _ (visit_all-Keeps now batch) (λ _.
        >>=-Keeps Q (wait_for_queue_drain s threshold drain_ticks) _
          (wait_for_queue_drain-Keeps threshold drain_ticks) (λ _. later))

  pub check_and_schedule-Keeps : (due_at now : ℕ) → Keeps Q (check_and_schedule s due_at now)
  unfolding check_and_schedule
  check_and_schedule-Keeps due_at now =
      let size = batch_size_or_default config.batch_size in
      let threshold = threshold_or_default size config.backpressure_threshold in
      >>=-Keeps Q (on_left (get_due schedule_store due_at))
        (λ due. visit_batches s now threshold (batches (length due) size due))
        (on_left-Keeps P (get_due schedule_store due_at))
        (λ due. visit_batches-Keeps now threshold (batches (length due) size due))

module _ (s : IpScheduler) where
  open s use {schedule_store, queue, queue_ready, weights, config, db}

  -- Whatever the network does, a pass of the scheduler that starts where every IP has at most one task
  -- waiting or in processing, marked as pending, ends so.
  pub check_and_schedule-Deduped :
      (due_at now : ℕ) (w : World (Stores s))
      → Deduped queue (queue.view w.store.1)
      → Deduped queue (queue.view (check_and_schedule s due_at now w).1.store.1)
  check_and_schedule-Deduped due_at now =
      check_and_schedule-Keeps s (λ x. Deduped queue (queue.view x))
        (λ t. push_task-Deduped queue queue_ready t) due_at now
