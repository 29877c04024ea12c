-- ===== src/Tracker/Server.antt =====
-- What internal/analyzer/state_machine.go uses of the Redis server: one hash for each item, with a
-- time to live. Times are Unix seconds and durations are seconds, at least 0.
use animehot.Common.{
  ℕ, String, str_eq, ◌≡◌, Bool, true, false, Option, none, some, List, [], ◌∷◌, ◌==◌, ◌&&◌, ltb,
  ◌-◌, if◌then◌else◌,
}

-- The key `animetop:item:<ip>:<source id>`.
pub record ItemKey : Type 0 where
  pub ip_id : ℕ
  pub source_id : String

abbrev pub key_eq : ItemKey → ItemKey → Bool
key_eq j k = j.ip_id == k.ip_id && str_eq j.source_id k.source_id

-- A text that `ParseInt` reads as a number, or one that it refuses.
pub data Cell : Type 0 where
  number : ℕ → Cell
  junk : Cell

-- The fields of an item's hash.
pub record Fields : Type 0 where
  pub status : Option String
  pub price : Option Cell
  pub first_seen : Option Cell
  pub last_seen : Option Cell

-- The fields that one `HSET` sends. The first sighting is sent for a new item only.
pub record Write : Type 0 where
  pub status : String
  pub price : ℕ
  pub first_seen : Option ℕ
  pub last_seen : ℕ

-- What clients can observe: the hashes that exist, and how long they live from the last `EXPIRE`.
pub record Items : Type 0 where
  pub hashes : ItemKey → Option Fields
  pub ttls : ItemKey → Option ℕ

abbrev first_sighting : Option ℕ → Option Fields → Option Cell
first_sighting (some t) old = some (number t)
first_sighting none none = none
first_sighting none (some old) = old.first_seen

abbrev pub merged : Write → Option Fields → Fields
merged u old = record {
  status = some u.status;
  price = some (number u.price);
  first_seen = first_sighting u.first_seen old;
  last_seen = some (number u.last_seen);
}

-- The documented effects of the commands.
abbrev pub written : ItemKey → Write → Items → Items
written k u c = record c {
  hashes = λ j. if key_eq k j then some (merged u (c.hashes k)) else c.hashes j;
}

abbrev pub living : ItemKey → ℕ → Items → Items
living k ttl c = record c {
  ttls = λ j.
      if key_eq k j then elim (c.hashes k) [ none ↦ c.ttls j | some f ↦ some ttl ] else c.ttls j;
}

abbrev pub is_listed : ItemKey → List ItemKey → Bool
is_listed k [] = false
is_listed k (j ∷ js) = if key_eq j k then true else is_listed k js

abbrev pub deleted : List ItemKey → Items → Items
deleted ks c = record {
  hashes = λ j. if is_listed j ks then none else c.hashes j;
  ttls = λ j. if is_listed j ks then none else c.ttls j;
}

-- What is left after some seconds: a key whose life is over is gone.
abbrev pub outlives : {A : Type 0} → ℕ → Option ℕ → Option A → Option A
outlives elapsed none x = x
outlives elapsed (some ttl) x = if ltb elapsed ttl then x else none

abbrev pub aged : ℕ → Items → Items
aged elapsed c = record {
  hashes = λ k. outlives elapsed (c.ttls k) (c.hashes k);
  ttls = λ k.
      outlives elapsed (c.ttls k)
        (elim (c.ttls k) [ none ↦ none | some ttl ↦ some (ttl - elapsed) ]);
}

pub record ItemServer : Type 1 where
  pub Store : Type 0
  pub view : Store → Items
  pub hgetall : ItemKey → Store → Option Fields  -- `none` for an empty answer
  pub hset : ItemKey → Write → Store → Store
  pub expire : ItemKey → ℕ → Store → Store
  pub del : List ItemKey → Store → Store
  -- One `SCAN` with the pattern of an IP: some keys, and the next cursor (0 at the end).
  pub scan : ℕ → ℕ → Store → List ItemKey × ℕ
  pub hgetall_law : (k : ItemKey) (s : Store) → hgetall k s ≡ (view s).hashes k
  pub hset_law : (k : ItemKey) (u : Write) (s : Store) → view (hset k u s) ≡ written k u (view s)
  pub expire_law :
      (k : ItemKey) (ttl : ℕ) (s : Store) → view (expire k ttl s) ≡ living k ttl (view s)
  -- The passing of time.
  pub wait : ℕ → Store → Store
  pub wait_law : (elapsed : ℕ) (s : Store) → view (wait elapsed s) ≡ aged elapsed (view s)
  pub del_law : (ks : List ItemKey) (s : Store) → view (del ks s) ≡ deleted ks (view s)
