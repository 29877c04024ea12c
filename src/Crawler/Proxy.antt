-- ===== src/Crawler/Proxy.antt =====
-- The proxy of internal/crawler/proxy.go: when the crawler uses it, the cooldown in Redis with its local
-- cache, and the count of failures. `now` is the clock; whether a browser starts and whether the proxy
-- answers are inputs. Locks, pauses, gauges and logging are left out.
use animehot.Common.{
  ℕ, zero, suc, ◌+◌, ◌*◌, Bool, true, false, Option, none, some, if◌then◌else◌, ltb, ◌==◌,
}
use animehot.Queue.Messages.{Result, ok, err, not_initialized, browser_error}
use animehot.Queue.Network.{
  M, return, fail, guard, ◌>>=◌, ◌>>◌, attempt, ignore, call, query, update,
}
use animehot.Queue.Pairs.{on_right}
use animehot.Crawler.Keys.{KeyServer, proxy_cooldown, consecutive_failures}
use animehot.Crawler.Throttle.{second}

-- The fields of `Service` that a crawl changes; `restart_pending` is the channel `restartCh`.
pub record Service : Type 0 where
  pub current_is_proxy : Bool
  pub proxy_cache : Bool
  pub proxy_cache_until : ℕ
  pub force_proxy_once : Bool
  pub task_counter : ℕ
  pub restart_pending : Bool
  pub total_processed : ℕ
  pub total_succeeded : ℕ
  pub total_failed : ℕ

pub record CrawlConfig : Type 0 where
  pub redis_ready : Bool
  pub proxy_cooldown_duration : ℕ
  pub proxy_auto_switch : Bool
  pub proxy_failure_threshold : ℕ
  pub max_tasks : ℕ

abbrev pub proxy_cache_ttl : ℕ
proxy_cache_ttl = 5 * second

abbrev pub same_mode : Bool → Bool → Bool
same_mode true true = true
same_mode false false = true
same_mode _ _ = false

abbrev pub is_present : Option ℕ → Bool
is_present none = false
is_present (some n) = true

abbrev pub with_cache : Bool → ℕ → Service → Service
with_cache state now s = record s { proxy_cache = state; proxy_cache_until = now + proxy_cache_ttl }

-- The attempts of `checkProxyHealthWithRetry` from the `i`-th on, of which `left` are left.
unfoldable pub check_proxy_health_with_retry : (ℕ → Bool) → (ℕ → Bool) → ℕ → ℕ → Bool
check_proxy_health_with_retry healthy stopped zero i = false
check_proxy_health_with_retry healthy stopped (suc left) i = elim (stopped i) [
  | true ↦ false
  | false ↦ elim (healthy i) [
    | true ↦ true
    | false ↦ check_proxy_health_with_retry healthy stopped left (suc i)
  ]
]

module _ (r : KeyServer) (c : CrawlConfig) where
  open r use {Store}

  abbrev pub State : Type 0
  State = Service × Store

  abbrev pub get_service : M State Service
  get_service w = return w.store.0 w

  abbrev pub put_service : Service → M State (Unit {0})
  put_service s w = return tt (record { store = (s, w.store.1); fates = w.fates })

  abbrev pub modify : (Service → Service) → M State (Unit {0})
  modify f = get_service >>= λ s. put_service (f s)

  unfoldable pub learn_state : ℕ → Service → Result Bool → M State Bool
  learn_state now s (err e) = return s.proxy_cache
  learn_state now s (ok state) = do modify (with_cache state now); return state

  -- An error of Redis leaves the cached value.
  unfoldable pub get_proxy_state : ℕ → M State Bool
  unfolding learn_state
  get_proxy_state now = do
    s ← get_service
    if ltb now s.proxy_cache_until
        then return s.proxy_cache
        else if c.redis_ready
        then (attempt (on_right (query λ x. is_present (r.get proxy_cooldown now x)))
            >>= learn_state now s)
        else return false

  unfoldable pub set_proxy_cooldown : ℕ → ℕ → M State (Unit {0})
  set_proxy_cooldown now duration = do
    guard c.redis_ready not_initialized
    ignore (
        on_right (
          update (
            r.set proxy_cooldown 1 now
              (if duration == 0 then c.proxy_cooldown_duration else duration))))
    modify (with_cache true now)

  unfoldable pub clear_proxy_cooldown : ℕ → M State (Unit {0})
  clear_proxy_cooldown now = do
    guard c.redis_ready not_initialized
    ignore (on_right (update (r.del proxy_cooldown)))
    modify (with_cache false now)

  -- `rotateBrowser`; a failed switch to the proxy clears the cache.
  unfoldable pub rotate : ℕ → Bool → Bool → M State (Unit {0})
  rotate now to_proxy true = modify λ s. record s { current_is_proxy = to_proxy }
  rotate now true false = do modify (with_cache false now); fail browser_error
  rotate now false false = fail browser_error

  unfoldable pub ensure_browser_state : ℕ → Bool → M State (Unit {0})
  unfolding rotate
  ensure_browser_state now rotates = do
    should_use_proxy ← get_proxy_state now
    s ← get_service
    if same_mode should_use_proxy s.current_is_proxy
        then return tt
        else rotate now should_use_proxy rotates

  unfoldable pub expire_failures : ℕ → Result ℕ → M State ℕ
  expire_failures now (err e) = return 0
  expire_failures now (ok n) = do
    ignore (on_right (update (r.expire consecutive_failures now (600 * second))))
    return n

  unfoldable pub incr_consecutive_failures : ℕ → M State ℕ
  unfolding expire_failures
  incr_consecutive_failures now =
      if c.redis_ready
      then (attempt (on_right (call (r.incr consecutive_failures now))) >>= expire_failures now)
      else return 0

  unfoldable pub reset_consecutive_failures : M State (Unit {0})
  reset_consecutive_failures =
      if c.redis_ready then ignore (on_right (update (r.del consecutive_failures))) else return tt
