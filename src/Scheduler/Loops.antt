-- ===== src/Scheduler/Loops.antt =====
-- One round of each loop of the scheduler in internal/scheduler/ip_scheduler.go: what `scheduleLoop`
-- waits for, and what the loops do at a tick. Stopping and logging are left out.
use animehot.Common.{ℕ, ◌+◌, ◌-◌, ◌*◌, ◌/◌, Option, none, some, ◌==◌, if◌then◌else◌, ltb, leb}
use animehot.Queue.Messages.{Result, ok, err}
use animehot.Queue.Network.{M, return, ◌>>=◌, ◌>>◌, attempt, ignore}
use animehot.Queue.Pairs.{on_left, on_right}
use animehot.Queue.Janitor.{rescue_stuck_tasks}
use animehot.Queue.ResultJanitor.{rescue_stuck_results}
use animehot.Queue.Upkeep.{QueueStats, get_queue_stats}
use animehot.Schedule.Operations.{count, get_next_time}
use animehot.Scheduler.Settings.{IpScheduler, second, unix}
use animehot.Scheduler.Pass.{Stores, check_and_schedule}

abbrev pub max_sleep_duration : ℕ
max_sleep_duration = 5 * 60 * second

-- What a round of `scheduleLoop` does: sleep and look again, a pass at once, or a pass after a sleep.
pub data Round : Type 0 where
  look_again_after : ℕ → Round
  pass_now : Round
  pass_after : ℕ → Round

abbrev pub sleep_duration : ℕ → ℕ
sleep_duration d = if ltb max_sleep_duration d then max_sleep_duration else d

-- By the reply of `GetNextTime`; `now` is the clock, in nanoseconds.
unfoldable pub round_of : ℕ → Result (Option ℕ) → Round
round_of now (err e) = look_again_after (30 * second)
round_of now (ok none) = look_again_after max_sleep_duration
round_of now (ok (some next_time)) =
    if leb next_time now then pass_now else pass_after (sleep_duration (next_time - now))

-- The gauges that `updateQueueMetrics` sets; the schedule's length only if it can be read.
pub record Gauges : Type 0 where
  pub queues : QueueStats
  pub schedule_length : Option ℕ
  pub all_dead : ℕ
  pub all_processing : ℕ

abbrev reply_of : {A : Type 0} → Result A → Option A
reply_of (ok a) = some a
reply_of (err e) = none

abbrev pub duration_or_default : ℕ → ℕ → ℕ
duration_or_default default d = if d == 0 then default else d

module _ (s : IpScheduler) where
  open s use {schedule_store, queue, queue_ready, config}

  -- The pass of a round, once the round has slept. What others do to the stores in the meantime is left out.
  unfoldable pub run_round : ℕ → Round → M (Stores s) Round
  run_round now (look_again_after d) = return (look_again_after d)
  run_round now pass_now = do ignore (check_and_schedule s (unix now) now); return pass_now
  run_round now (pass_after d) = do
    ignore (check_and_schedule s (unix (now + d)) (now + d))
    return (pass_after d)

  unfoldable pub schedule_round : ℕ → M (Stores s) Round
  unfolding round_of run_round
  schedule_round now = do
    reply ← attempt (on_left (get_next_time schedule_store))
    run_round now (round_of now reply)

  unfoldable pub gauges_of : Result QueueStats → M (Stores s) (Option Gauges)
  gauges_of (err e) = return none
  gauges_of (ok stats) = do
    n ← attempt (on_left (count schedule_store))
    return (
        some (record {
          queues = stats;
          schedule_length = reply_of n;
          all_dead = stats.task_dead_letter_len + stats.result_dead_letter_len;
          all_processing = stats.task_processing_len + stats.result_processing_len;
        }))

  unfoldable pub update_queue_metrics : M (Stores s) (Option Gauges)
  unfolding gauges_of
  update_queue_metrics = do
    stats ← attempt (on_right (get_queue_stats queue queue_ready))
    gauges_of stats

  -- The rescue takes its time-out in seconds.
  abbrev pub rescue_after : ℕ
  rescue_after = duration_or_default (10 * 60 * second) config.janitor_timeout / second

  -- `janitorLoop` at a tick; `now` is the Unix time.
  unfoldable pub janitor_tick : ℕ → M (Stores s) (Option Gauges)
  unfolding update_queue_metrics
  janitor_tick now = do
    ignore (on_right (rescue_stuck_tasks queue queue_ready now rescue_after))
    ignore (on_right (rescue_stuck_results queue queue_ready now rescue_after))
    update_queue_metrics

  abbrev pub janitor_period : ℕ
  janitor_period = duration_or_default (5 * 60 * second) config.janitor_interval
