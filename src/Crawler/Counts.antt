-- ===== src/Crawler/Counts.antt =====
-- What internal/crawler/proxy.go does to the counters of the crawler: nothing, whatever the network does.
use animehot.Common.{ℕ, ◌*◌, Bool, true, false, ltb, if◌then◌else◌, ◌==◌}
use animehot.Queue.Messages.{Result, ok, err, not_initialized}
use animehot.Queue.Network.{
  M, return, attempt, ignore, call, query, update, ◌>>=◌, ◌>>◌, Keeps, >>=-Keeps, attempt->>=-Keeps,
  ignore-Keeps, guard->>-Keeps, if-Keeps,
}
use animehot.Queue.Pairs.{on_right}
use animehot.Crawler.Keys.{KeyServer, proxy_cooldown, consecutive_failures}
use animehot.Crawler.Throttle.{second}
use animehot.Crawler.Proxy.{
  Service, CrawlConfig, State, get_service, modify, with_cache, same_mode, is_present, learn_state,
  get_proxy_state, set_proxy_cooldown, rotate, ensure_browser_state, expire_failures,
  incr_consecutive_failures, reset_consecutive_failures,
}

module _ (r : KeyServer) (c : CrawlConfig) where
  -- What neither the cache of the proxy's state nor the browser's mode touches.
  abbrev pub IsSteady : (Service → Type 0) → Type 0
  IsSteady P =
      ((state : Bool) (now : ℕ) (s : Service) → P s → P (with_cache state now s))
      × ((mode : Bool) (s : Service) → P s → P (record s { current_is_proxy = mode }))

  module _ (P : Service → Type 0) (steady : IsSteady P) where
    abbrev C : State r c → Type 0
    C x = P x.0

    redis-Keeps : {A : Type 0} (m : M r.Store A) → Keeps C (on_right m)
    unfolding on_right
    redis-Keeps m w h = h

    pub quiet : {A : Type 0} (a : A) → Keeps C (return a)
    quiet a w h = h

    abbrev zero_failures : ℕ
    zero_failures = 0

    learn_state-Keeps :
        (now : ℕ) (s : Service) (reply : Result Bool) → Keeps C (learn_state r c now s reply)
    unfolding learn_state
    learn_state-Keeps now s (err e) w h = h
    learn_state-Keeps now s (ok state) w h = steady.0 state now w.store.0 h

    get_proxy_state-Keeps : (now : ℕ) → Keeps C (get_proxy_state r c now)
    unfolding get_proxy_state
    get_proxy_state-Keeps now w =
        let s = w.store.0 in
        let ask : M (State r c) Bool =
          on_right (query λ x. is_present (r.get proxy_cooldown now x)) in
        if-Keeps C (ltb now s.proxy_cache_until) (return s.proxy_cache)
          (if c.redis_ready then (attempt ask >>= learn_state r c now s) else return false)
          (quiet s.proxy_cache)
          (if-Keeps C c.redis_ready (attempt ask >>= learn_state r c now s) (return false)
            (attempt->>=-Keeps C ask (learn_state r c now s)
              (redis-Keeps (query λ x. is_present (r.get proxy_cooldown now x)))
              (learn_state-Keeps now s))
            (quiet false))
          w

    rotate-Keeps : (now : ℕ) (to_proxy rotates : Bool) → Keeps C (rotate r c now to_proxy rotates)
    unfolding rotate
    rotate-Keeps now to_proxy true w h = steady.1 to_proxy w.store.0 h
    rotate-Keeps now true false w h = steady.0 false now w.store.0 h
    rotate-Keeps now false false w h = h

    switch-Keeps :
        (now : ℕ) (rotates proxied current : Bool)
        → Keeps C (if same_mode proxied current then return tt else rotate r c now proxied rotates)
    switch-Keeps now rotates proxied current =
        if-Keeps C (same_mode proxied current) (return tt) (rotate r c now proxied rotates)
          (quiet tt) (rotate-Keeps now proxied rotates)

    pub ensure_browser_state-Keeps :
        (now : ℕ) (rotates : Bool) → Keeps C (ensure_browser_state r c now rotates)
    unfolding ensure_browser_state
    ensure_browser_state-Keeps now rotates =
        >>=-Keeps C (get_proxy_state r c now)
          (λ proxied. get_service r c >>= λ s.
            if same_mode proxied s.current_is_proxy
            then return tt
            else rotate r c now proxied rotates)
          (get_proxy_state-Keeps now)
          (λ proxied w. switch-Keeps now rotates proxied w.store.0.current_is_proxy w)

    pub set_proxy_cooldown-Keeps :
        (now duration : ℕ) → Keeps C (set_proxy_cooldown r c now duration)
    unfolding set_proxy_cooldown
    set_proxy_cooldown-Keeps now duration =
        let put : M (State r c) (Unit {0}) = on_right (
          update (
            r.set proxy_cooldown 1 now
              (if duration == 0 then c.proxy_cooldown_duration else duration))) in
        guard->>-Keeps C c.redis_ready not_initialized
          (ignore put >> modify r c (with_cache true now))
          (>>=-Keeps C (ignore put) (λ _. modify r c (with_cache true now))
            (ignore-Keeps C put (
              redis-Keeps (
                update (
                  r.set proxy_cooldown 1 now
                    (if duration == 0 then c.proxy_cooldown_duration else duration)))))
            (λ _ w h. steady.0 true now w.store.0 h))

    expire_failures-Keeps : (now : ℕ) (reply : Result ℕ) → Keeps C (expire_failures r c now reply)
    unfolding expire_failures
    expire_failures-Keeps now (err e) = quiet zero_failures
    expire_failures-Keeps now (ok m) =
        let put : M (State r c) (Unit {0}) =
          on_right (update (r.expire consecutive_failures now (600 * second))) in
        >>=-Keeps C (ignore put) (λ _. return m)
          (ignore-Keeps C put
            (redis-Keeps (update (r.expire consecutive_failures now (600 * second)))))
          (λ _. quiet m)

    pub incr_consecutive_failures-Keeps : (now : ℕ) → Keeps C (incr_consecutive_failures r c now)
    unfolding incr_consecutive_failures
    incr_consecutive_failures-Keeps now =
        let ask : M (State r c) ℕ = on_right (call (r.incr consecutive_failures now)) in
        if-Keeps C c.redis_ready (attempt ask >>= expire_failures r c now) (return 0)
          (attempt->>=-Keeps C ask (expire_failures r c now)
            (redis-Keeps (call (r.incr consecutive_failures now))) (expire_failures-Keeps now))
          (quiet zero_failures)

    pub reset_consecutive_failures-Keeps : Keeps C (reset_consecutive_failures r c)
    unfolding reset_consecutive_failures
    reset_consecutive_failures-Keeps =
        let put : M (State r c) (Unit {0}) = on_right (update (r.del consecutive_failures)) in
        if-Keeps C c.redis_ready (ignore put) (return tt)
          (ignore-Keeps C put (redis-Keeps (update (r.del consecutive_failures)))) (quiet tt)
