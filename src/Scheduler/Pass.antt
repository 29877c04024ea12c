-- ===== src/Scheduler/Pass.antt =====
-- One pass of the scheduler in internal/scheduler/ip_scheduler.go: `checkAndSchedule` and what it
-- calls. Cancellation by the context and logging are left out. The two Redis stores and the database
-- stand behind one network; each read of the table is a call that may fail.
use animehot.Common.{
  ℕ, zero, suc, ◌+◌, ◌*◌, ◌/◌, ◌%◌, ◌^◌, str_eq, not, Bool, false, some, List, [], ◌∷◌,
  if◌then◌else◌, ◌==◌, ltb, leb, length, batches,
}
use animehot.Queue.Messages.{
  CrawlRequest, task_exists, record_not_found, ip_without_name, Result, ok, err,
}
use animehot.Queue.Network.{M, return, fail, ◌>>=◌, ◌>>◌, guard, required, attempt, ignore, query}
use animehot.Queue.Pairs.{on_left, on_right}
use animehot.Queue.Tasks.{push_task}
use animehot.Queue.Upkeep.{QueueStats, get_queue_stats}
use animehot.Schedule.Operations.{schedule, get_due, remove}
use animehot.Scheduler.Settings.{
  IpScheduler, IpMetadata, is_active, second, unix, calculate_interval, find_ip,
}

-- A page count as an int32, where 0 stands for 5.
abbrev pub pages_or_default : ℕ → ℕ
pages_or_default pages = if pages % 2 ^ 32 == 0 then 5 else pages % 2 ^ 32

-- `ErrTaskExists` is no failure of `pushTasksForIP`.
unfoldable pub tolerate_existing : {S : Type 0} → Result (Unit {0}) → M S (Unit {0})
tolerate_existing (ok _) = return tt
tolerate_existing (err task_exists) = return tt
tolerate_existing (err e) = fail e

abbrev pub batch_size_or_default : ℕ → ℕ
batch_size_or_default n = if n == 0 then 10 else n

abbrev pub threshold_or_default : ℕ → ℕ → ℕ
threshold_or_default batch_size n =
    if n == 0 then if ltb (batch_size / 2) 2 then 2 else batch_size / 2 else n

-- The ticks, 5 seconds apart, until 10 minutes have passed.
abbrev pub drain_ticks : ℕ
drain_ticks = 10 * 60 / 5

module _ (s : IpScheduler) where
  open s use {schedule_store, queue, queue_ready, weights, config, db, uuid, clock}

  abbrev pub Stores : Type 0
  Stores = schedule_store.Store × queue.Store

  abbrev pub crawl_request : IpMetadata weights → CrawlRequest
  crawl_request ip = record {
    ip_id = ip.id;
    keyword = ip.name;
    task_id = uuid ip.id;
    created_at = unix (clock ip.id);
    retry_count = 0;
    pages_on_sale = pages_or_default config.pages_on_sale;
    pages_sold = pages_or_default config.pages_sold;
  }

  unfoldable pub push_tasks_for_ip : IpMetadata weights → M Stores (Unit {0})
  unfolding tolerate_existing
  push_tasks_for_ip ip = do
    guard (not (str_eq ip.name "")) ip_without_name
    reply ← attempt (on_right (push_task queue queue_ready (some (crawl_request ip))))
    tolerate_existing reply

  unfoldable pub get_ip_by_id : ℕ → M Stores (IpMetadata weights)
  get_ip_by_id id = do found ← query λ _. find_ip weights id db; required found record_not_found

  -- After the push: the next crawl, or a try again in a minute.
  unfoldable pub reschedule : ℕ → ℕ → IpMetadata weights → Result (Unit {0}) → M Stores (Unit {0})
  reschedule now id ip (ok _) =
      ignore
        (on_left (schedule schedule_store id (now + calculate_interval weights config ip.weight)))
  reschedule now id ip (err e) = ignore (on_left (schedule schedule_store id (now + 60 * second)))

  unfoldable pub visit_found : ℕ → ℕ → Result (IpMetadata weights) → M Stores (Unit {0})
  unfolding reschedule
  visit_found now id (err e) = ignore (on_left (remove schedule_store id))
  visit_found now id (ok ip) =
      if is_active ip.status
      then (attempt (push_tasks_for_ip ip) >>= λ pushed. reschedule now id ip pushed)
      else ignore (on_left (remove schedule_store id))

  -- The body of the loop over a batch.
  unfoldable pub visit : ℕ → ℕ → M Stores (Unit {0})
  unfolding visit_found
  visit now id = do found ← attempt (get_ip_by_id id); visit_found now id found

  unfoldable pub visit_all : ℕ → List ℕ → M Stores (Unit {0})
  visit_all now [] = return tt
  visit_all now (id ∷ ids) = do visit now id; visit_all now ids

  unfoldable pub is_drained : ℕ → Result QueueStats → Bool
  is_drained threshold (ok stats) = leb (stats.task_queue_len + stats.task_processing_len) threshold
  is_drained threshold (err e) = false

  -- `waitForQueueDrain`, with the ticks that are left before its deadline.
  unfoldable pub wait_for_queue_drain : ℕ → ℕ → M Stores (Unit {0})
  unfolding is_drained
  wait_for_queue_drain threshold zero = return tt
  wait_for_queue_drain threshold (suc ticks) = do
    stats ← attempt (on_right (get_queue_stats queue queue_ready))
    let rest = wait_for_queue_drain threshold ticks in
        if is_drained threshold stats then return tt else rest

  unfoldable pub visit_batches : ℕ → ℕ → List (List ℕ) → M Stores (Unit {0})
  visit_batches now threshold [] = return tt
  visit_batches now threshold (batch ∷ []) = visit_all now batch
  visit_batches now threshold (batch ∷ next ∷ rest) = do
    visit_all now batch
    wait_for_queue_drain threshold drain_ticks
    visit_batches now threshold (next ∷ rest)

  -- `due_at` is the clock, in seconds, of `GetDue`, and `now` the one of the pass. An error of `GetDue`
  -- ends the pass.
  unfoldable pub check_and_schedule : ℕ → ℕ → M Stores (Unit {0})
  check_and_schedule due_at now = do
    due ← on_left (get_due schedule_store due_at)
    let size = batch_size_or_default config.batch_size in
        visit_batches now (threshold_or_default size config.backpressure_threshold)
          (batches (length due) size due)
