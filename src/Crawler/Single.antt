-- ===== src/Crawler/Single.antt =====
-- When `doCrawl` of internal/crawler/crawl.go comes to its second attempt.
use animehot.Common.{ℕ, ◌≡◌, refl, ap, Bool, true, false, not, ◌&&◌, ltb, if◌then◌else◌, arith}
use animehot.Queue.Messages.{CrawlRequest, Result, ok, err}
use animehot.Queue.Network.{M, World, return, ◌>>◌, continue_with}
use animehot.Crawler.Keys.{KeyServer}
use animehot.Crawler.Failures.{activates}
use animehot.Crawler.Pages.{
  CrawlError, browser_draining, browser_missing, context_cancelled, browser_state_failed,
  proxy_unavailable, proxy_unhealthy, needs_retry,
}
use animehot.Crawler.Proxy.{
  Service, CrawlConfig, State, ensure_browser_state, incr_consecutive_failures,
}
use animehot.Crawler.Counts.{ensure_browser_state-Keeps}
use animehot.Crawler.Crawl.{
  Crawled, crawled, failed, Attempt, count_processed, count_task, at_first, give_up, activate,
  direct_failed, after_pages, crawl_now, with_browser, do_attempt, do_crawl,
}

-- What `crawlWithFixedPages` can give an attempt: a response, or one of its three errors; the error
-- of a context only if the context is done.
abbrev pub IsOfPages : Crawled → Bool → Type 0
IsOfPages (crawled resp) done = Unit {0}
IsOfPages (failed browser_draining) done = Unit {0}
IsOfPages (failed browser_missing) done = Unit {0}
IsOfPages (failed context_cancelled) done = done ≡ true
IsOfPages (failed browser_state_failed) done = false ≡ true
IsOfPages (failed proxy_unavailable) done = false ≡ true
IsOfPages (failed proxy_unhealthy) done = false ≡ true
IsOfPages (failed needs_retry) done = false ≡ true

module _ (r : KeyServer) (c : CrawlConfig) (req : CrawlRequest) where
  continue-same :
      {A B : Type 0} (o : Result A × World (State r c)) (f g : A → M (State r c) B)
      → ((x : A) (w : World (State r c)) → f x w ≡ g x w)
      → continue_with o f ≡ continue_with o g
  continue-same (ok x, w) f g h = h x w
  continue-same (err e, w) f g h = refl

  if-same :
      {A : Type 0} (b : Bool) (m n o : M (State r c) A) (w : World (State r c))
      → m w ≡ n w
      → (if b then m else o) w ≡ (if b then n else o) w
  if-same true m n o w h = h
  if-same false m n o w h = refl

  unswitched :
      {A : Type 0} (x y : Bool) (m n o : M (State r c) A) (w : World (State r c))
      → (if x && (true && (y && false)) then m else o) w
        ≡ (if x && (true && (y && false)) then n else o) w
  unswitched true true m n o w = refl
  unswitched true false m n o w = refl
  unswitched false y m n o w = refl

  unforced :
      {A : Type 0} (x force : Bool)
      → force ≡ false
      → (m n o p : M (State r c) A) (w : World (State r c)) → o w ≡ p w
      → (if true && (not x && force) then m else o) w
        ≡ (if true && (not x && force) then n else p) w
  unforced true force f m n o p w h = h
  unforced false false f m n o p w h = h
  unforced false true f m n o p w h = ground (arith, f)

  module _ (a : Attempt) (again again' : M (State r c) Crawled) where
    activate-same :
        (e : CrawlError)
        → a.context_done ≡ true
        → activate r c req a e again ≡ activate r c req a e again'
    unfolding activate
    activate-same e h = rw h refl

    direct_failed-same :
        (e : CrawlError) (failures : ℕ)
        → a.context_done ≡ true
        → direct_failed r c req a e failures again ≡ direct_failed r c req a e failures again'
    unfolding direct_failed
    direct_failed-same e failures h =
        ap
          (λ m.
            if ltb failures c.proxy_failure_threshold
            then give_up r c req true e
            else if a.healthy
            then m
            else give_up r c req true proxy_unhealthy)
          (activate-same e h)

    after_pages-same :
        (found : Crawled) (w : World (State r c))
        → IsOfPages found a.context_done
        → after_pages r c req true a again found w ≡ after_pages r c req true a again' found w
    unfolding after_pages
    after_pages-same (crawled resp) w h = refl
    after_pages-same (failed browser_draining) w h =
        continue-same (incr_consecutive_failures r c a.now w) _ _
          λ failures v. unswitched c.proxy_auto_switch (not v.store.0.current_is_proxy) _ _ _ v
    after_pages-same (failed browser_missing) w h =
        continue-same (incr_consecutive_failures r c a.now w) _ _
          λ failures v. unswitched c.proxy_auto_switch (not v.store.0.current_is_proxy) _ _ _ v
    after_pages-same (failed context_cancelled) w h =
        continue-same (incr_consecutive_failures r c a.now w) _ _ λ failures v.
          if-same
            (c.proxy_auto_switch
              && (true && (not v.store.0.current_is_proxy && activates context_cancelled)))
            _ _ _ v (ap (λ m. m v) (direct_failed-same context_cancelled failures h))
    after_pages-same (failed browser_state_failed) w h = ground (arith, h)
    after_pages-same (failed proxy_unavailable) w h = ground (arith, h)
    after_pages-same (failed proxy_unhealthy) w h = ground (arith, h)
    after_pages-same (failed needs_retry) w h = ground (arith, h)

    crawl_now-same :
        (w : World (State r c))
        → IsOfPages a.pages a.context_done
        → crawl_now r c req true a again w ≡ crawl_now r c req true a again' w
    unfolding crawl_now
    crawl_now-same w h = waited a.stopped_waiting
      where
        counting : M (State r c) (Unit {0})
        counting = at_first r c req (true && ltb 0 c.max_tasks) (count_task c.max_tasks)

        waited :
            (stopped : Bool)
            → (if stopped
                  then return (failed context_cancelled)
                  else (counting >> after_pages r c req true a again a.pages))
                w
              ≡ (if stopped
                    then return (failed context_cancelled)
                    else (counting >> after_pages r c req true a again' a.pages))
                  w
        waited true = refl
        waited false = continue-same (counting w) _ _ λ _ v. after_pages-same a.pages v h

    with_browser-same :
        (reply : Result (Unit {0})) (w : World (State r c))
        → w.store.0.force_proxy_once ≡ false
        → IsOfPages a.pages a.context_done
        → with_browser r c req true a again reply w ≡ with_browser r c req true a again' reply w
    unfolding with_browser
    with_browser-same (err e) w f h = refl
    with_browser-same (ok x) w f h =
        unforced w.store.0.current_is_proxy w.store.0.force_proxy_once f _ _ _ _ w
          (crawl_now-same w h)

  abbrev Unforced : Service → Type 0
  Unforced s = s.force_proxy_once ≡ false

  -- Unless the proxy is forced, the second attempt is never made: of what `crawlWithFixedPages` reports,
  -- only the end of a context may switch to the proxy, and then the context is done, so that no attempt
  -- follows. Whatever the network, the browser and the proxy do, the crawl returns the same and leaves
  -- the same state, whatever the second attempt would meet.
  pub do_crawl_once :
      (a b b' : Attempt) (w : World (State r c))
      → w.store.0.force_proxy_once ≡ false
      → IsOfPages a.pages a.context_done
      → do_crawl r c req a b w ≡ do_crawl r c req a b' w
  unfolding do_crawl do_attempt
  do_crawl_once a b b' w f h =
      let started : World (State r c) = record {
        store = (count_processed w.store.0, w.store.1);
        fates = w.fates;
      } in
      let out = ensure_browser_state r c a.now a.rotates started in
      with_browser-same a (do_attempt r c req false b (return (failed needs_retry)))
        (do_attempt r c req false b' (return (failed needs_retry))) out.0 out.1
        (ensure_browser_state-Keeps r c Unforced (λ state now s q. q, λ mode s q. q) a.now a.rotates
          started f)
        h
