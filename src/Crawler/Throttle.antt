-- ===== src/Crawler/Throttle.antt =====
-- `AdaptiveThrottler` of internal/crawler/adaptive.go: how crawls that are blocked make the crawler
-- pause. `redis_ready` says that the Redis handle is not nil; the random part of a pause is an input.
use animehot.Common.{
  ℕ, ◌+◌, ◌-◌, ◌*◌, ◌%◌, ◌^◌, Bool, true, false, not, ◌&&◌, ◌||◌, Option, none, some, if◌then◌else◌,
  ltb, leb,
}
use animehot.Queue.Messages.{Result, ok, err, increment}
use animehot.Queue.Network.{M, return, ◌>>=◌, ◌>>◌, attempt, ignore, call, update}
use animehot.Queue.Pairs.{on_right}
use animehot.Crawler.Keys.{consecutive_blocks, KeyServer}

-- `consecutiveBlocks` is an int32, as its bit pattern.
pub record Throttler : Type 0 where
  pub consecutive_blocks_count : ℕ
  pub in_cooldown : Bool

abbrev pub second : ℕ
second = 1000000000

abbrev pub block_threshold_for_sleep : ℕ
block_threshold_for_sleep = 3

abbrev pub min_sleep_duration : ℕ
min_sleep_duration = 30 * second

abbrev pub longest_sleep : ℕ
longest_sleep = 60 * second

-- `count >= 3` on an int32.
abbrev pub reaches_threshold : ℕ → Bool
reaches_threshold n = leb block_threshold_for_sleep n && ltb n (2 ^ 31)

abbrev pub any_blocks : ℕ → Bool
any_blocks n = ltb 0 n && ltb n (2 ^ 31)

-- `rand.Int63n`, of a random number.
abbrev pub sleep_of : ℕ → ℕ
sleep_of random = min_sleep_duration + random % (longest_sleep - min_sleep_duration)

-- The greater of the two counts. Redis counts in an int64; its count is taken over as an int32.
unfoldable pub joint_count : ℕ → Result ℕ → ℕ
joint_count count (err e) = count
joint_count count (ok redis_count) =
    if ltb count redis_count || leb (2 ^ 31) count then redis_count % 2 ^ 32 else count

-- The pause, if one is to be made, and the state.
unfoldable pub enter_cooldown : ℕ → ℕ → Throttler → Option ℕ × Throttler
enter_cooldown random count at =
    if reaches_threshold count && not at.in_cooldown
    then (some (sleep_of random), record at { in_cooldown = true })
    else (none, at)

module _ (r : KeyServer) where
  open r use {Store}

  abbrev pub State : Type 0
  State = Throttler × Store

  abbrev get_throttler : M State Throttler
  get_throttler w = return w.store.0 w

  abbrev put_throttler : Throttler → M State (Unit {0})
  put_throttler at w = return tt (record { store = (at, w.store.1); fates = w.fates })

  -- The pipeline of INCR and EXPIRE.
  abbrev pub count_in_redis : ℕ → M State ℕ
  count_in_redis now = on_right (
      call λ s.
        let (n, s') = r.incr consecutive_blocks now s in
        (n, r.expire consecutive_blocks now (600 * second) s'))

  abbrev pub settle_block : ℕ → ℕ → Throttler → M State (Option ℕ)
  settle_block random count at = do
    let (pause, at') = enter_cooldown random count at in put_throttler at'
    return (enter_cooldown random count at).0

  unfoldable pub count_and_settle : Bool → ℕ → ℕ → Throttler → M State (Option ℕ)
  unfolding enter_cooldown joint_count
  count_and_settle true now random at = do
    reply ← attempt (count_in_redis now)
    settle_block random (joint_count at.consecutive_blocks_count reply) at
  count_and_settle false now random at = settle_block random at.consecutive_blocks_count at

  unfoldable pub record_block : Bool → ℕ → ℕ → M State (Option ℕ)
  unfolding count_and_settle
  record_block redis_ready now random = do
    at ← get_throttler
    let count = increment at.consecutive_blocks_count in
        put_throttler (record at { consecutive_blocks_count = count })
    at' ← get_throttler
    count_and_settle redis_ready now random at'

  abbrev pub forget_in_redis : Bool → M State (Unit {0})
  forget_in_redis true = ignore (on_right (update (r.del consecutive_blocks)))
  forget_in_redis false = return tt

  unfoldable pub record_success : Bool → M State (Unit {0})
  record_success redis_ready = do
    at ← get_throttler
    put_throttler (record { consecutive_blocks_count = 0; in_cooldown = false })
    forget_in_redis (redis_ready && any_blocks at.consecutive_blocks_count)

  unfoldable pub exit_cooldown : M State (Unit {0})
  exit_cooldown = do at ← get_throttler; put_throttler (record at { in_cooldown = false })

  unfoldable pub get_consecutive_blocks : M State ℕ
  get_consecutive_blocks = get_throttler >>= λ at. return at.consecutive_blocks_count

  unfoldable pub should_reduce_concurrency : M State Bool
  should_reduce_concurrency =
      get_throttler >>= λ at. return (reaches_threshold at.consecutive_blocks_count)
