-- ===== src/Queue/Server.antt =====
-- What internal/pkg/redisqueue/client.go uses of code outside the repository: the Redis server, as
-- commands with their documented effects, protojson, and the network between client and server.
use Prim.Native.String.{len, slice, [] as no_text, ◌∷◌ as ◌▹◌}
use Prim.Native.Char.{Char, code}
use text.Mathlib.Text.{starts_with}
use animehot.Common.{
  ℕ, ◌+◌, ◌-◌, ◌*◌, leb, ltb, ◌&&◌, String, str_eq, ◌≡◌, Bool, true, false, Option, none, some,
  List, [], ◌∷◌, ◌==◌, if◌then◌else◌, unsnoc, remove_first, occurs, length,
}
use animehot.Queue.Messages.{CrawlRequest, CrawlResponse}

-- KeyTaskQueue and the other list keys, in the order of their constants.
pub data ListKey : Type 0 where
  tasks processing dead results result_processing result_dead : ListKey

pub data SetKey : Type 0 where
  pending processed : SetKey

pub data HashKey : Type 0 where
  task_started result_started : HashKey

-- A text in a set: `ip n` is `ip:` with n in decimal, as "ip:%d" prints it, and `id` is any other text.
pub data Member : Type 0 where
  ip : ℕ → Member
  id : String → Member

abbrev digit : Char → Option ℕ
digit c = if leb 48 (code c) && ltb (code c) 58 then some (code c - 48) else none

abbrev decimal : String → ℕ → Option ℕ
decimal no_text n = some n
decimal (c ▹ s) n = elim (digit c) [ none ↦ none | some d ↦ decimal s (n * 10 + d) ]

-- A number as it is printed: without leading zeros.
abbrev printed : String → Option ℕ
printed no_text = none
printed (c ▹ s) = if code c == 48 then if str_eq s "" then some 0 else none else decimal (c ▹ s) 0

-- What a text is in a set.
abbrev pub member_of : String → Member
member_of text = elim (if starts_with text "ip:" then printed (slice text 3 (len text)) else none) [
  | none ↦ id text
  | some n ↦ ip n
]

-- A text in a hash: one that `Sscanf("%d")` reads, or any other.
pub data Stamp : Type 0 where
  number : ℕ → Stamp
  junk : Stamp

abbrev pub member_eq : Member → Member → Bool
member_eq (ip m) (ip n) = m == n
member_eq (ip m) (id t) = false
member_eq (id s) (ip n) = false
member_eq (id s) (id t) = str_eq s t

-- What clients can observe of the server. The head of a list is its left end.
pub record Contents (Raw : Type 0) : Type 0 where
  pub lists : ListKey → List Raw
  pub sets : SetKey → Member → Bool
  pub cards : SetKey → ℕ
  pub hashes : HashKey → String → Option Stamp

abbrev pub list_index : ListKey → ℕ
list_index tasks = 0
list_index processing = 1
list_index dead = 2
list_index results = 3
list_index result_processing = 4
list_index result_dead = 5

abbrev pub set_index : SetKey → ℕ
set_index pending = 0
set_index processed = 1

abbrev pub hash_index : HashKey → ℕ
hash_index task_started = 0
hash_index result_started = 1

module _ {Raw : Type 0} where
  -- The documented effects of the commands.
  abbrev pub with_list : ListKey → List Raw → Contents Raw → Contents Raw
  with_list k l c = record c { lists = λ j. if list_index k == list_index j then l else c.lists j }

  abbrev pub pushed : ListKey → Raw → Contents Raw → Contents Raw
  pushed k v c = with_list k (v ∷ c.lists k) c

  abbrev pub moved : ListKey → ListKey → Contents Raw → Contents Raw
  moved src dst c = elim (unsnoc (c.lists src)) [
    | none ↦ c
    | some (rest, last) ↦ pushed dst last (with_list src rest c)
  ]

  abbrev pub last_of : ListKey → Contents Raw → Option Raw
  last_of src c = elim (unsnoc (c.lists src)) [ none ↦ none | some (rest, last) ↦ some last ]

  abbrev pub with_member : SetKey → Member → Bool → ℕ → Contents Raw → Contents Raw
  with_member k m b n c = record c {
    sets = λ j x.
        if set_index k == set_index j then if member_eq m x then b else c.sets j x else c.sets j x;
    cards = λ j. if set_index k == set_index j then n else c.cards j;
  }

  abbrev pub with_field : HashKey → String → Option Stamp → Contents Raw → Contents Raw
  with_field k f v c = record c {
    hashes = λ j g.
        if hash_index k == hash_index j
        then if str_eq f g then v else c.hashes j g
        else c.hashes j g;
  }

abbrev pub field_of : String → List (String × Stamp) → Option Stamp
field_of f [] = none
field_of f ((g, v) ∷ rest) = if str_eq g f then some v else field_of f rest

pub record Redis : Type 1 where
  -- protojson
  pub Raw : Type 0
  pub raw_discrete : Discrete Raw
  pub marshal_request : CrawlRequest → Option Raw
  pub unmarshal_request : Raw → Option CrawlRequest
  pub marshal_response : CrawlResponse → Option Raw
  pub unmarshal_response : Raw → Option CrawlResponse
  -- Lua's plain `string.find` of `"taskId":"` .. id .. `"` in a text.
  pub mentions : Raw → String → Bool
  -- Decoding undoes encoding.
  pub request_roundtrip :
      (t : CrawlRequest) (raw : Raw) → marshal_request t ≡ some raw → unmarshal_request raw ≡ some t
  pub response_roundtrip :
      (t : CrawlResponse) (raw : Raw)
      → marshal_response t ≡ some raw
      → unmarshal_response raw ≡ some t
  -- the server and its commands
  pub Store : Type 0
  pub view : Store → Contents Raw
  pub lrange : ListKey → Store → List Raw
  pub llen : ListKey → Store → ℕ
  pub lpush : ListKey → Raw → Store → Store
  pub lrem : ListKey → Raw → Store → ℕ × Store  -- with count 1
  pub rpoplpush : ListKey → ListKey → Store → Option Raw × Store
  pub sadd : SetKey → Member → Store → ℕ × Store
  pub srem : SetKey → Member → Store → Store
  pub sismember : SetKey → Member → Store → Bool
  pub scard : SetKey → Store → ℕ
  pub expire : SetKey → ℕ → Store → Store
  pub hset : HashKey → String → Stamp → Store → Store
  pub hdel : HashKey → String → Store → Store
  pub hgetall : HashKey → Store → List (String × Stamp)
  -- what the documentation says of them
  pub lrange_law : (k : ListKey) (s : Store) → lrange k s ≡ (view s).lists k
  pub llen_law : (k : ListKey) (s : Store) → llen k s ≡ length ((view s).lists k)
  pub lpush_law : (k : ListKey) (v : Raw) (s : Store) → view (lpush k v s) ≡ pushed k v (view s)
  pub lrem_law :
      (k : ListKey) (v : Raw) (s : Store)
      → view (lrem k v s).1 ≡ with_list k (remove_first raw_discrete v ((view s).lists k)) (view s)
  pub lrem_count :
      (k : ListKey) (v : Raw) (s : Store)
      → (lrem k v s).0 ≡ occurs raw_discrete v ((view s).lists k)
  pub rpoplpush_law :
      (src dst : ListKey) (s : Store) → view (rpoplpush src dst s).1 ≡ moved src dst (view s)
  pub rpoplpush_reply :
      (src dst : ListKey) (s : Store) → (rpoplpush src dst s).0 ≡ last_of src (view s)
  pub sadd_law :
      (k : SetKey) (m : Member) (s : Store)
      → view (sadd k m s).1 ≡ (
          if (view s).sets k m
          then view s
          else with_member k m true ((view s).cards k + 1) (view s))
  pub sadd_reply :
      (k : SetKey) (m : Member) (s : Store) → (sadd k m s).0 ≡ (if (view s).sets k m then 0 else 1)
  pub srem_law :
      (k : SetKey) (m : Member) (s : Store)
      → view (srem k m s)
        ≡ with_member k m false
            (if (view s).sets k m then (view s).cards k - 1 else (view s).cards k)
            (view s)
  pub sismember_law : (k : SetKey) (m : Member) (s : Store) → sismember k m s ≡ (view s).sets k m
  pub scard_law : (k : SetKey) (s : Store) → scard k s ≡ (view s).cards k
  -- Between two observations no key expires.
  pub expire_law : (k : SetKey) (ttl : ℕ) (s : Store) → view (expire k ttl s) ≡ view s
  pub hset_law :
      (k : HashKey) (f : String) (v : Stamp) (s : Store)
      → view (hset k f v s) ≡ with_field k f (some v) (view s)
  pub hdel_law :
      (k : HashKey) (f : String) (s : Store) → view (hdel k f s) ≡ with_field k f none (view s)
  pub hgetall_law :
      (k : HashKey) (f : String) (s : Store) → field_of f (hgetall k s) ≡ (view s).hashes k f
