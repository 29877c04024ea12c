-- ===== src/Crawler/Worker.antt =====
-- What a worker of internal/crawler/crawl.go does with a task behind its crawl: `StartWorker` from the
-- end of the crawl on. The semaphore, the goroutines and logging are left out. `now` is the Unix time.
use animehot.Common.{ℕ, String, str_eq, Bool, true, false, Option, none, some, [], if◌then◌else◌}
use animehot.Queue.Messages.{CrawlRequest, CrawlResponse, Result, ok, err}
use animehot.Queue.Server.{Redis}
use animehot.Queue.Network.{M, return, ◌>>=◌, ◌>>◌, attempt, ignore}
use animehot.Queue.Tasks.{pop_task, ack_task}
use animehot.Queue.Results.{push_result}

-- How the crawl of a task ended: with what `doCrawl` returned (a nil error is `none`), or with the
-- end of the task's time, with the texts of the errors.
pub data Outcome : Type 0 where
  completed : Option CrawlResponse → Option String → Outcome
  timed_out : String → Outcome

-- A response that only reports an error.
abbrev pub error_response : CrawlRequest → String → ℕ → CrawlResponse
error_response t message now = record {
  ip_id = t.ip_id;
  items = [];
  total_found = 0;
  error_message = message;
  task_id = t.task_id;
  crawled_at = now;
  pages_crawled = 0;
  retry_count = 0;
}

abbrev with_task_id : CrawlRequest → CrawlResponse → CrawlResponse
with_task_id t resp = if str_eq resp.task_id "" then record resp { task_id = t.task_id } else resp

abbrev pub result_of : CrawlRequest → ℕ → Outcome → Option CrawlResponse
result_of t now (completed (some resp) e) = some (with_task_id t resp)
result_of t now (completed none (some message)) =
    some (with_task_id t (error_response t message now))
result_of t now (completed none none) = none
result_of t now (timed_out message) = some (with_task_id t (error_response t message now))

-- `taskCompleted`
abbrev pub is_completed : Outcome → Bool
is_completed (completed resp e) = true
is_completed (timed_out message) = false

module _ (r : Redis) (ready : Bool) where
  open r use {Store}

  unfoldable pub report : Option CrawlResponse → M Store (Unit {0})
  report none = return tt
  report (some resp) = ignore (push_result r ready (some resp))

  -- Only a task whose crawl came back is acknowledged.
  unfoldable pub acknowledge : Bool → CrawlRequest → M Store (Unit {0})
  acknowledge true t = ignore (ack_task r ready (some t))
  acknowledge false t = return tt

  unfoldable pub finish_task : CrawlRequest → ℕ → Outcome → M Store (Unit {0})
  unfolding report acknowledge
  finish_task t now outcome = do
    report (result_of t now outcome)
    acknowledge (is_completed outcome) t

  -- A panic that the worker recovers from: the task is not acknowledged.
  unfoldable pub recover_panic : CrawlRequest → ℕ → String → M Store (Unit {0})
  unfolding report
  recover_panic t now message = report (some (error_response t message now))

  -- A round of the loop: the task, if there is one, is crawled, and the result reported.
  unfoldable pub work_popped : (CrawlRequest → Outcome) → ℕ → Result CrawlRequest → M Store Bool
  unfolding finish_task
  work_popped crawl now (err e) = return false
  work_popped crawl now (ok t) = do finish_task t now (crawl t); return true

  unfoldable pub work : (CrawlRequest → Outcome) → ℕ → M Store Bool
  unfolding work_popped
  work crawl now = do popped ← attempt (pop_task r ready now); work_popped crawl now popped
