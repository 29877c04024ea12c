-- ===== src/Pipeline/Process.antt =====
-- `processOne` of internal/analyzer/pipeline.go: one result from the queue. What `processResult`
-- does with it is a parameter. Logging and the texts of the last error are left out.
use animehot.Common.{ℕ, suc, ◌≡◌, refl, ap, ◌∙◌, str_eq, Bool, true, false, some, if◌then◌else◌}
use animehot.Queue.Messages.{CrawlResponse, no_result, Result, ok, err}
use animehot.Queue.Server.{Redis}
use animehot.Queue.Network.{M, World, return, ◌>>=◌, ◌>>◌, attempt, ignore, continue_with}
use animehot.Queue.Results.{pop_result, ack_result, mark_processed, is_processed}

-- What a call of `processOne` adds to the counters.
pub data Verdict : Type 0 where
  idle pop_failed skipped failed done : Verdict

pub record PipelineStats : Type 0 where
  pub processed : ℕ
  pub failed : ℕ
  pub skipped : ℕ

unfoldable pub add_verdict : Verdict → PipelineStats → PipelineStats
add_verdict Verdict.skipped s = record s { skipped = suc s.skipped }
add_verdict Verdict.failed s = record s { failed = suc s.failed }
add_verdict Verdict.done s = record s { processed = suc s.processed }
add_verdict _ s = s

abbrev is_yes : Result Bool → Bool
is_yes (ok b) = b
is_yes (err e) = false

module _ (r : Redis) (ready : Bool) (ttl : ℕ)
    (process_result : CrawlResponse → M r.Store (Unit {0})) where
  open r use {Store}

  -- An error of the check is taken for "not processed".
  unfoldable pub was_processed : CrawlResponse → M Store Bool
  was_processed resp =
      if str_eq resp.task_id ""
      then return false
      else (attempt (is_processed r ready resp.task_id) >>= λ found. return (is_yes found))

  unfoldable pub finish : CrawlResponse → Result (Unit {0}) → M Store Verdict
  finish resp (err e) = return Verdict.failed
  finish resp (ok _) = do
    if str_eq resp.task_id "" then return tt else ignore (mark_processed r ready resp.task_id ttl)
    ignore (ack_result r ready (some resp))
    return Verdict.done

  unfoldable pub process_popped : CrawlResponse → Bool → M Store Verdict
  unfolding finish
  process_popped resp true = do ignore (ack_result r ready (some resp)); return Verdict.skipped
  process_popped resp false = do result ← attempt (process_result resp); finish resp result

  unfoldable pub after_pop : Result CrawlResponse → M Store Verdict
  unfolding was_processed process_popped
  after_pop (err no_result) = return Verdict.idle
  after_pop (err e) = return Verdict.pop_failed
  after_pop (ok resp) = do seen ← was_processed resp; process_popped resp seen

  unfoldable pub process_one : ℕ → M Store Verdict
  unfolding after_pop
  process_one now = do popped ← attempt (pop_result r ready now); after_pop popped

  marked :
      (resp : CrawlResponse) (after checked : World Store)
      → str_eq resp.task_id "" ≡ false
      → is_processed r ready resp.task_id after ≡ (ok true, checked)
      → was_processed resp after ≡ (ok true, checked)
  unfolding was_processed
  marked resp after checked n q = rw (n, q) refl

  -- If the result that is taken from the queue has an id that is marked as processed, and the mark
  -- can be read, then it is acknowledged and add_verdict as skipped, and it is not processed again.
  pub process_one_skips :
      (now : ℕ) (resp : CrawlResponse) (w after checked : World Store)
      → pop_result r ready now w ≡ (ok resp, after)
      → str_eq resp.task_id "" ≡ false
      → is_processed r ready resp.task_id after ≡ (ok true, checked)
      → process_one now w ≡ (ok Verdict.skipped, (ack_result r ready (some resp) checked).1)
  unfolding process_one after_pop was_processed process_popped
  process_one_skips now resp w after checked p n q =
      ap (λ o. after_pop o.0 o.1) p
      ∙ ap (λ o. continue_with o (process_popped resp)) (marked resp after checked n q)
