-- ===== src/Queue/Memory.antt =====
-- A Redis server in memory: it meets every law of `Server`, so that the theorems can be applied.
-- A message is its own text.
use animehot.Common.{
  ℕ, ◌+◌, ◌-◌, ◌≡◌, refl, sym, ap, String, str_eq, eq_iff, Bool, true, false, Option, none, some,
  List, [], ◌∷◌, ◌==◌, if◌then◌else◌, unsnoc, remove_first, occurs, length, arith, ℕ_discrete,
  Bool-cases, Option-cases, inl, inr,
}
use animehot.Queue.Messages.{CrawlRequest, CrawlResponse}
use animehot.Queue.Server.{
  Redis, Contents, ListKey, SetKey, HashKey, Member, Stamp, with_list, pushed, moved, last_of,
  with_member, with_field, field_of, hash_index,
}

unfoldable pub string_discrete : Discrete String
string_discrete s t = elim (Bool-cases (str_eq s t)) [
  | inl e ↦ yes ((eq_iff s t).0 e)
  | inr e ↦ no (λ p. differ e ((eq_iff s t).1 p))
]
  where
    differ : {b : Bool} → b ≡ false → b ≡ true → ⊥
    differ p q = cc

pub data Text : Type 0 where
  request : CrawlRequest → Text
  response : CrawlResponse → Text

pub Text-discrete : Discrete Text
Text-discrete = hlevel (ℕ_discrete, string_discrete)

pub record Memory : Type 0 where
  pub lists : ListKey → List Text
  pub sets : SetKey → Member → Bool
  pub cards : SetKey → ℕ
  pub entries : HashKey → List (String × Stamp)

abbrev pub contents : Memory → Contents Text
contents m = record {
  lists = m.lists;
  sets = m.sets;
  cards = m.cards;
  hashes = λ k f. field_of f (m.entries k);
}

-- The memory with other lists, sets or sizes.
abbrev holding : Memory → Contents Text → Memory
holding m c = record m { lists = c.lists; sets = c.sets; cards = c.cards }

unfoldable pub without : String → List (String × Stamp) → List (String × Stamp)
without f [] = []
without f ((g, v) ∷ rest) = if str_eq f g then without f rest else (g, v) ∷ without f rest

field_of-without :
    (f g : String) (l : List (String × Stamp))
    → field_of g (without f l) ≡ (if str_eq f g then none else field_of g l)
unfolding without
field_of-without f g [] = ground arith
field_of-without f g ((h, v) ∷ rest) =
    ground (arith, eq_iff f g, eq_iff f h, eq_iff h g, field_of-without f g rest)

abbrev hset : HashKey → String → Stamp → Memory → Memory
hset k f v m = record m {
  entries = λ j. if hash_index k == hash_index j then (f, v) ∷ m.entries k else m.entries j;
}

abbrev hdel : HashKey → String → Memory → Memory
hdel k f m = record m {
  entries = λ j. if hash_index k == hash_index j then without f (m.entries j) else m.entries j;
}

pub hset_law :
    (k : HashKey) (f : String) (v : Stamp) (m : Memory)
    → contents (hset k f v m) ≡ with_field k f (some v) (contents m)
hset_law k f v m i = record {
  lists = m.lists;
  sets = m.sets;
  cards = m.cards;
  hashes = λ j g. at k j g i;
}
  where
    at :
        (k j : HashKey) (g : String)
        → field_of g ((hset k f v m).entries j) ≡ (with_field k f (some v) (contents m)).hashes j g
    at HashKey.task_started HashKey.task_started g = refl
    at HashKey.task_started HashKey.result_started g = refl
    at HashKey.result_started HashKey.task_started g = refl
    at HashKey.result_started HashKey.result_started g = refl

pub hdel_law :
    (k : HashKey) (f : String) (m : Memory)
    → contents (hdel k f m) ≡ with_field k f none (contents m)
hdel_law k f m i = record {
  lists = m.lists;
  sets = m.sets;
  cards = m.cards;
  hashes = λ j g. at k j g i;
}
  where
    at :
        (k j : HashKey) (g : String)
        → field_of g ((hdel k f m).entries j) ≡ (with_field k f none (contents m)).hashes j g
    at HashKey.task_started HashKey.task_started g =
        field_of-without f g (m.entries HashKey.task_started)
    at HashKey.task_started HashKey.result_started g = refl
    at HashKey.result_started HashKey.task_started g = refl
    at HashKey.result_started HashKey.result_started g =
        field_of-without f g (m.entries HashKey.result_started)

pub moved_law :
    (src dst : ListKey) (m : Memory)
    → contents (holding m (moved src dst (contents m))) ≡ moved src dst (contents m)
moved_law src dst m = elim (Option-cases (unsnoc (m.lists src))) [
  | inl e ↦ rw (e, moved) refl
  | inr ((rest, last), e) ↦ rw (e, moved) refl
]

abbrev add : SetKey → Member → Memory → Memory
add k x m = if m.sets k x then m else holding m (with_member k x true (m.cards k + 1) (contents m))

pub added_law :
    (k : SetKey) (x : Member) (m : Memory)
    → contents (add k x m)
      ≡ (if m.sets k x then contents m else with_member k x true (m.cards k + 1) (contents m))
added_law k x m = elim (Bool-cases (m.sets k x)) [ inl e ↦ rw e refl | inr e ↦ rw e refl ]

abbrev read_request : Text → Option CrawlRequest
read_request (request t) = some t
read_request (response t) = none

abbrev read_response : Text → Option CrawlResponse
read_response (request t) = none
read_response (response t) = some t

abbrev id_of : Text → String
id_of (request t) = t.task_id
id_of (response t) = t.task_id

pub same_text : {x y : Text} → some x ≡ some y → x ≡ y
same_text e = cc

abbrev pub memory_server : Redis
memory_server = record {
  Raw = Text;
  raw_discrete = Text-discrete;
  marshal_request = λ t. some (request t);
  unmarshal_request = read_request;
  marshal_response = λ t. some (response t);
  unmarshal_response = read_response;
  mentions = λ raw x. str_eq (id_of raw) x;
  request_roundtrip = λ t raw e. ap read_request (sym (same_text e));
  response_roundtrip = λ t raw e. ap read_response (sym (same_text e));
  Store = Memory;
  view = contents;
  lrange = λ k m. m.lists k;
  llen = λ k m. length (m.lists k);
  lpush = λ k v m. holding m (pushed k v (contents m));
  lrem = λ k v m. (
    occurs Text-discrete v (m.lists k),
    holding m (with_list k (remove_first Text-discrete v (m.lists k)) (contents m)),
  );
  rpoplpush = λ src dst m. (last_of src (contents m), holding m (moved src dst (contents m)));
  sadd = λ k x m. (if m.sets k x then 0 else 1, add k x m);
  srem = λ k x m.
      holding m
        (with_member k x false (if m.sets k x then m.cards k - 1 else m.cards k) (contents m));
  sismember = λ k x m. m.sets k x;
  scard = λ k m. m.cards k;
  expire = λ k ttl m. m;
  hset = hset;
  hdel = hdel;
  hgetall = λ k m. m.entries k;
  lrange_law = λ k m. refl;
  llen_law = λ k m. refl;
  lpush_law = λ k v m. refl;
  lrem_law = λ k v m. refl;
  lrem_count = λ k v m. refl;
  rpoplpush_law = λ src dst m. moved_law src dst m;
  rpoplpush_reply = λ src dst m. refl;
  sadd_law = λ k x m. added_law k x m;
  sadd_reply = λ k x m. refl;
  srem_law = λ k x m. refl;
  sismember_law = λ k x m. refl;
  scard_law = λ k m. refl;
  expire_law = λ k ttl m. refl;
  hset_law = hset_law;
  hdel_law = hdel_law;
  hgetall_law = λ k f m. refl;
}
