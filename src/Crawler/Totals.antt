-- ===== src/Crawler/Totals.antt =====
-- The counters of `doCrawl` in internal/crawler/crawl.go, whatever the network does.
use animehot.Common.{
  ℕ, suc, ◌+◌, ◌≡◌, refl, ◌≤◌, Bool, true, false, not, ◌&&◌, bit, ltb, if◌then◌else◌, arith,
}
use animehot.Queue.Messages.{CrawlRequest, CrawlResponse, Result, ok, err}
use animehot.Queue.Network.{
  M, World, return, attempt, ignore, ◌>>=◌, ◌>>◌, continue_with, Keeps, ignore-Keeps,
}
use animehot.Crawler.Keys.{KeyServer}
use animehot.Crawler.Failures.{activates}
use animehot.Crawler.Pages.{
  CrawlError, browser_state_failed, context_cancelled, proxy_unhealthy, needs_retry,
}
use animehot.Crawler.Proxy.{
  Service, CrawlConfig, State, get_service, modify, set_proxy_cooldown, ensure_browser_state,
  incr_consecutive_failures, reset_consecutive_failures,
}
use animehot.Crawler.Crawl.{
  Crawled, crawled, failed, Attempt, count_processed, count_succeeded, finished, count_task,
  at_first, give_up, activate, direct_failed, after_pages, crawl_now, force_proxy, with_browser,
  do_attempt, do_crawl,
}
use animehot.Crawler.Counts.{
  IsSteady, quiet, ensure_browser_state-Keeps, set_proxy_cooldown-Keeps,
  incr_consecutive_failures-Keeps, reset_consecutive_failures-Keeps,
}

module _ (r : KeyServer) (c : CrawlConfig) (req : CrawlRequest) where
  -- So many tasks were started, and at most so many have an end that was counted.
  abbrev Counted : ℕ → ℕ → Service → Type 0
  Counted p n s = (s.total_processed ≡ p) × (s.total_succeeded + s.total_failed ≤ n)

  abbrev Counts : ℕ → ℕ → State r c → Type 0
  Counts p n x = Counted p n x.0

  Counted-IsSteady : (p n : ℕ) → IsSteady r c (Counted p n)
  Counted-IsSteady p n = (λ state now s h. h, λ mode s h. h)

  -- An operation that counts the end of at most so many tasks.
  abbrev Adds : ℕ → {A : Type 0} → M (State r c) A → Type 0
  Adds k m = (p n : ℕ) (w : World (State r c)) → Counts p n w.store → Counts p (n + k) (m w).1.store

  abbrev Quiet : {A : Type 0} → M (State r c) A → Type 0
  Quiet m = (p n : ℕ) → Keeps (Counts p n) m

  grown : (p n k : ℕ) (x : State r c) → Counts p n x → Counts p (n + k) x
  grown p n k x (e, l) = (e, omega (arith, l))

  Quiet-Adds : {A : Type 0} (k : ℕ) (m : M (State r c) A) → Quiet m → Adds k m
  Quiet-Adds k m h p n w q = grown p n k (m w).1.store (h p n w q)

  continue-Adds :
      {A B : Type 0} (k p n : ℕ) (o : Result A × World (State r c)) (f : A → M (State r c) B)
      → ((a : A) → Adds k (f a))
      → Counts p n o.1.store
      → Counts p (n + k) (continue_with o f).1.store
  continue-Adds k p n (ok a, w) f h q = h a p n w q
  continue-Adds k p n (err e, w) f h q = grown p n k w.store q

  >>=-Adds :
      {A B : Type 0} (k : ℕ) (m : M (State r c) A) (f : A → M (State r c) B)
      → Quiet m
      → ((a : A) → Adds k (f a))
      → Adds k (m >>= f)
  >>=-Adds k m f h g p n w q = continue-Adds k p n (m w) f g (h p n w q)

  attempt->>=-Adds :
      {A B : Type 0} (k : ℕ) (m : M (State r c) A) (f : Result A → M (State r c) B)
      → Quiet m
      → ((a : Result A) → Adds k (f a))
      → Adds k (attempt m >>= f)
  attempt->>=-Adds k m f h g p n w q = g (m w).0 p n (m w).1 (h p n w q)

  if-Adds :
      {A : Type 0} (k : ℕ) (b : Bool) (m o : M (State r c) A)
      → Adds k m
      → Adds k o
      → Adds k (if b then m else o)
  if-Adds k true m o h g = h
  if-Adds k false m o h g = g

  give_up-Adds : (first : Bool) (e : CrawlError) → Adds (bit first) (give_up r c req first e)
  unfolding give_up
  give_up-Adds true e p n w (q, l) = (q, omega (arith, l))
  give_up-Adds false e p n w (q, l) = (q, omega (arith, l))

  success-Adds :
      (first : Bool) (resp : CrawlResponse)
      → Adds (bit first) (at_first r c req first count_succeeded >> return (crawled resp))
  success-Adds true resp p n w (q, l) = (q, omega (arith, l))
  success-Adds false resp p n w (q, l) = (q, omega (arith, l))

  module _ (a : Attempt) (again : M (State r c) Crawled) (calm_again : Quiet again) where
    activate-Adds : (e : CrawlError) → Adds 1 (activate r c req a e again)
    unfolding activate
    activate-Adds e =
        let cooldown = set_proxy_cooldown r c a.now c.proxy_cooldown_duration in
        >>=-Adds 1 (reset_consecutive_failures r c)
          (λ _.
            ignore cooldown >> (if a.context_done then give_up r c req true needs_retry else again))
          (λ p n. reset_consecutive_failures-Keeps r c (Counted p n) (Counted-IsSteady p n))
          (λ _.
            >>=-Adds 1 (ignore cooldown)
              (λ _. if a.context_done then give_up r c req true needs_retry else again)
              (λ p n. ignore-Keeps (Counts p n) cooldown (
                set_proxy_cooldown-Keeps r c (Counted p n) (Counted-IsSteady p n) a.now
                  c.proxy_cooldown_duration))
              (λ _.
                if-Adds 1 a.context_done (give_up r c req true needs_retry) again
                  (give_up-Adds true needs_retry) (Quiet-Adds 1 again calm_again)))

    direct_failed-Adds :
        (e : CrawlError) (failures : ℕ) → Adds 1 (direct_failed r c req a e failures again)
    unfolding direct_failed
    direct_failed-Adds e failures =
        if-Adds 1 (ltb failures c.proxy_failure_threshold) (give_up r c req true e)
          (if a.healthy then activate r c req a e again else give_up r c req true proxy_unhealthy)
          (give_up-Adds true e)
          (if-Adds 1 a.healthy (activate r c req a e again) (give_up r c req true proxy_unhealthy)
            (activate-Adds e) (give_up-Adds true proxy_unhealthy))

    switching-Adds :
        (first auto rest : Bool) (e : CrawlError) (failures : ℕ)
        → Adds (bit first) (
            if auto && (first && rest)
            then direct_failed r c req a e failures again
            else give_up r c req first e)
    switching-Adds true auto rest e failures =
        if-Adds 1 (auto && (true && rest)) (direct_failed r c req a e failures again)
          (give_up r c req true e) (direct_failed-Adds e failures) (give_up-Adds true e)
    switching-Adds false true rest e failures = give_up-Adds false e
    switching-Adds false false rest e failures = give_up-Adds false e

    after_pages-Adds :
        (first : Bool) (found : Crawled)
        → Adds (bit first) (after_pages r c req first a again found)
    unfolding after_pages
    after_pages-Adds first (crawled resp) =
        let reported = if first then finished req a.now resp else resp in
        >>=-Adds (bit first) (reset_consecutive_failures r c)
          (λ _. at_first r c req first count_succeeded >> return (crawled reported))
          (λ p n. reset_consecutive_failures-Keeps r c (Counted p n) (Counted-IsSteady p n))
          (λ _. success-Adds first reported)
    after_pages-Adds first (failed e) =
        >>=-Adds (bit first) (incr_consecutive_failures r c a.now)
          (λ failures. get_service r c >>= λ s.
            if c.proxy_auto_switch && (first && (not s.current_is_proxy && activates e))
            then direct_failed r c req a e failures again
            else give_up r c req first e)
          (λ p n. incr_consecutive_failures-Keeps r c (Counted p n) (Counted-IsSteady p n) a.now)
          (λ failures p n w.
            switching-Adds first c.proxy_auto_switch (not w.store.0.current_is_proxy && activates e)
              e failures p n w)

    count_task-Quiet : (b : Bool) → Quiet (at_first r c req b (count_task c.max_tasks))
    count_task-Quiet true p n w h = h
    count_task-Quiet false p n w h = h

    crawl_now-Adds : (first : Bool) → Adds (bit first) (crawl_now r c req first a again)
    unfolding crawl_now
    crawl_now-Adds first =
        let counting = first && ltb 0 c.max_tasks in
        if-Adds (bit first) a.stopped_waiting (return (failed context_cancelled))
          (at_first r c req counting (count_task c.max_tasks)
            >> after_pages r c req first a again a.pages)
          (Quiet-Adds (bit first) (return (failed context_cancelled))
            (λ p n. quiet r c (Counted p n) (Counted-IsSteady p n) (failed context_cancelled)))
          (>>=-Adds (bit first) (at_first r c req counting (count_task c.max_tasks))
            (λ _. after_pages r c req first a again a.pages) (count_task-Quiet counting)
            (λ _. after_pages-Adds first a.pages))

    force_proxy-Quiet : (reply : Result (Unit {0})) → Quiet (force_proxy r c req a again reply)
    unfolding force_proxy
    force_proxy-Quiet (err e) p n w h = h
    force_proxy-Quiet (ok _) p n w h = calm_again p n w h

    with_browser-Adds :
        (first : Bool) (state : Result (Unit {0}))
        → Adds (bit first) (with_browser r c req first a again state)
    unfolding with_browser
    with_browser-Adds first (err e) p n w = give_up-Adds first browser_state_failed p n w
    with_browser-Adds first (ok _) p n w =
        let cooldown = set_proxy_cooldown r c a.now c.proxy_cooldown_duration in
        let unforce : M (State r c) (Unit {0}) =
          modify r c (λ x. record x { force_proxy_once = false }) in
        if-Adds (bit first)
          (first && (not w.store.0.current_is_proxy && w.store.0.force_proxy_once))
          (unforce >> (attempt cooldown >>= force_proxy r c req a again))
          (crawl_now r c req first a again)
          (>>=-Adds (bit first) unforce (λ _. attempt cooldown >>= force_proxy r c req a again)
            (λ p n w h. h)
            (λ _.
              attempt->>=-Adds (bit first) cooldown (force_proxy r c req a again)
                (λ p n.
                  set_proxy_cooldown-Keeps r c (Counted p n) (Counted-IsSteady p n) a.now
                    c.proxy_cooldown_duration)
                (λ reply.
                  Quiet-Adds (bit first) (force_proxy r c req a again reply)
                    (force_proxy-Quiet reply))))
          (crawl_now-Adds first) p n w

    -- An attempt behind the count of the task.
    rest-Adds :
        (first : Bool)
        → Adds (bit first) (
            attempt (ensure_browser_state r c a.now a.rotates)
            >>= with_browser r c req first a again)
    rest-Adds first =
        attempt->>=-Adds (bit first) (ensure_browser_state r c a.now a.rotates)
          (with_browser r c req first a again)
          (λ p n.
            ensure_browser_state-Keeps r c (Counted p n) (Counted-IsSteady p n) a.now a.rotates)
          (with_browser-Adds first)

  second_attempt-Quiet :
      (b : Attempt) → Quiet (do_attempt r c req false b (return (failed needs_retry)))
  unfolding do_attempt
  second_attempt-Quiet b p n w h =
      let (e, l) =
        rest-Adds b (return (failed needs_retry))
          (λ p n. quiet r c (Counted p n) (Counted-IsSteady p n) (failed needs_retry)) false p n w
          h in
      (e, omega (arith, l))

  -- Whatever the network, the browser, the pages and the proxy do: a crawl counts one task more as
  -- processed, and at most one more as succeeded or failed, also where it tries again through the proxy.
  pub do_crawl_counts :
      (a b : Attempt) (w : World (State r c))
      → let before = w.store.0 in
        let after = (do_crawl r c req a b w).1.store.0 in
        (after.total_processed ≡ suc before.total_processed)
        × (after.total_succeeded + after.total_failed
            ≤ suc (before.total_succeeded + before.total_failed))
  unfolding do_crawl do_attempt
  do_crawl_counts a b w =
      let s = w.store.0 in
      let (e, l) =
        rest-Adds a (do_attempt r c req false b (return (failed needs_retry)))
          (second_attempt-Quiet b) true (suc s.total_processed) (s.total_succeeded + s.total_failed)
          (record { store = (count_processed s, w.store.1); fates = w.fates })
          (refl, omega arith) in
      (e, omega (arith, l))
