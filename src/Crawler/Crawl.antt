-- ===== src/Crawler/Crawl.antt =====
-- `doCrawl` of internal/crawler/crawl.go: a crawl, its failures, and the second attempt through the
-- proxy. What the page crawl, the browser, the waits and the proxy's check give is an input of each
-- attempt; metrics and logging are left out.
use animehot.Common.{ℕ, suc, ◌/◌, Bool, true, false, not, ◌&&◌, ltb, leb, if◌then◌else◌}
use animehot.Queue.Messages.{CrawlRequest, CrawlResponse, Result, ok, err}
use animehot.Queue.Network.{M, return, ◌>>=◌, ◌>>◌, attempt, ignore}
use animehot.Crawler.Keys.{KeyServer}
use animehot.Crawler.Failures.{activates}
use animehot.Crawler.Pages.{
  CrawlError, browser_state_failed, context_cancelled, proxy_unavailable, proxy_unhealthy,
  needs_retry,
}
pub use animehot.Crawler.Pages.{Crawled, crawled, failed}
use animehot.Crawler.Throttle.{second}
use animehot.Crawler.Proxy.{
  Service, CrawlConfig, State, get_service, modify, ensure_browser_state, set_proxy_cooldown,
  incr_consecutive_failures, reset_consecutive_failures,
}

-- What an attempt meets: the clock, whether a browser starts, whether the context ends while the
-- attempt waits, what the pages give, whether the proxy is healthy, and whether the context is done then.
pub record Attempt : Type 0 where
  pub now : ℕ
  pub rotates : Bool
  pub stopped_waiting : Bool
  pub pages : Crawled
  pub healthy : Bool
  pub context_done : Bool

abbrev pub count_processed : Service → Service
count_processed s = record s { total_processed = suc s.total_processed }

abbrev pub count_succeeded : Service → Service
count_succeeded s = record s { total_succeeded = suc s.total_succeeded }

abbrev pub count_failed : Service → Service
count_failed s = record s { total_failed = suc s.total_failed }

-- The count of tasks after which the crawler restarts.
abbrev pub count_task : ℕ → Service → Service
count_task max s = record s {
  task_counter = suc s.task_counter;
  restart_pending = if leb max (suc s.task_counter) then true else s.restart_pending;
}

abbrev pub finished : CrawlRequest → ℕ → CrawlResponse → CrawlResponse
finished req now resp = record resp { task_id = req.task_id; crawled_at = now / second }

module _ (r : KeyServer) (c : CrawlConfig) (req : CrawlRequest) where
  -- `if attempt == 0 { ... }`
  abbrev pub at_first : Bool → (Service → Service) → M (State r c) (Unit {0})
  at_first true f = modify r c f
  at_first false f = return tt

  unfoldable pub give_up : Bool → CrawlError → M (State r c) Crawled
  give_up first e = do at_first first count_failed; return (failed e)

  -- The proxy is healthy: it is switched on, and the crawl tried again.
  unfoldable pub activate : Attempt → CrawlError → M (State r c) Crawled → M (State r c) Crawled
  unfolding give_up
  activate a e again = do
    reset_consecutive_failures r c
    ignore (set_proxy_cooldown r c a.now c.proxy_cooldown_duration)
    if a.context_done then give_up true needs_retry else again

  unfoldable pub direct_failed :
      Attempt → CrawlError → ℕ → M (State r c) Crawled → M (State r c) Crawled
  unfolding activate
  direct_failed a e failures again =
      if ltb failures c.proxy_failure_threshold
      then give_up true e
      else if a.healthy
      then activate a e again
      else give_up true proxy_unhealthy

  -- `shouldActivateProxy` and its conditions.
  abbrev may_switch : Bool → CrawlError → Service → Bool
  may_switch first e s = c.proxy_auto_switch && (first && (not s.current_is_proxy && activates e))

  unfoldable pub after_pages :
      Bool → Attempt → M (State r c) Crawled → Crawled → M (State r c) Crawled
  unfolding direct_failed
  after_pages first a again (crawled resp) = do
    reset_consecutive_failures r c
    at_first first count_succeeded
    return (crawled (if first then finished req a.now resp else resp))
  after_pages first a again (failed e) = do
    failures ← incr_consecutive_failures r c a.now
    s ← get_service r c
    if may_switch first e s then direct_failed a e failures again else give_up first e

  abbrev counts_tasks : Bool → Bool
  counts_tasks first = first && ltb 0 c.max_tasks

  unfoldable pub crawl_now : Bool → Attempt → M (State r c) Crawled → M (State r c) Crawled
  unfolding after_pages
  crawl_now first a again =
      if a.stopped_waiting
      then return (failed context_cancelled)
      else (at_first (counts_tasks first) (count_task c.max_tasks)
          >> after_pages first a again a.pages)

  unfoldable pub force_proxy :
      Attempt → M (State r c) Crawled → Result (Unit {0}) → M (State r c) Crawled
  force_proxy a again (err e) = return (failed proxy_unavailable)
  force_proxy a again (ok _) = again

  unfoldable pub with_browser :
      Bool → Attempt → M (State r c) Crawled → Result (Unit {0}) → M (State r c) Crawled
  unfolding crawl_now force_proxy
  with_browser first a again (err e) = give_up first browser_state_failed
  with_browser first a again (ok _) = do
    s ← get_service r c
    if first && (not s.current_is_proxy && s.force_proxy_once)
        then (modify r c (λ x. record x { force_proxy_once = false })
            >> (attempt (set_proxy_cooldown r c a.now c.proxy_cooldown_duration)
                >>= force_proxy a again))
        else crawl_now first a again

  -- One attempt, with what a call with `attempt+1` does.
  unfoldable pub do_attempt : Bool → Attempt → M (State r c) Crawled → M (State r c) Crawled
  unfolding with_browser
  do_attempt first a again = do
    at_first first count_processed
    state ← attempt (ensure_browser_state r c a.now a.rotates)
    with_browser first a again state

  -- Only the first attempt tries again, so the second one needs no third.
  unfoldable pub do_crawl : Attempt → Attempt → M (State r c) Crawled
  unfolding do_attempt
  do_crawl a b = do_attempt true a (do_attempt false b (return (failed needs_retry)))
