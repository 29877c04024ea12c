-- ===== src/Crawler/Keys.antt =====
-- What internal/crawler uses of the Redis server: numbers under three keys, with a time to live. Times
-- and durations are nanoseconds.
use animehot.Common.{ℕ, ◌+◌, ◌≤◌, ◌≡◌, Bool, Option, none, some, ltb, if◌then◌else◌, ◌==◌}

pub data Key : Type 0 where
  proxy_cooldown consecutive_failures consecutive_blocks : Key

abbrev pub key_index : Key → ℕ
key_index proxy_cooldown = 0
key_index consecutive_failures = 1
key_index consecutive_blocks = 2

abbrev pub same_key : Key → Key → Bool
same_key k l = key_index k == key_index l

pub record KeyServer : Type 1 where
  pub Store : Type 0
  pub get : Key → ℕ → Store → Option ℕ  -- at a time
  pub set : Key → ℕ → ℕ → ℕ → Store → Store  -- a value, at a time, with a time to live
  pub del : Key → Store → Store
  pub incr : Key → ℕ → Store → ℕ × Store
  pub expire : Key → ℕ → ℕ → Store → Store
  pub set_law :
      (k l : Key) (v at ttl now : ℕ) (s : Store)
      → at ≤ now
      → get l now (set k v at ttl s)
        ≡ (if same_key k l then if ltb now (at + ttl) then some v else none else get l now s)
  pub del_law :
      (k l : Key) (now : ℕ) (s : Store)
      → get l now (del k s) ≡ (if same_key k l then none else get l now s)
