-- ===== src/Tracker/Memory.antt =====
-- A server in memory that keeps the laws of the item server's interface.
use animehot.Common.{ℕ, none, some, List, [], ◌∷◌, refl, if◌then◌else◌, ◌==◌}
use animehot.Tracker.Server.{ItemServer, ItemKey, Items, is_listed, written, living, deleted, aged}

pub record Memory : Type 0 where
  pub keys : List ItemKey
  pub items : Items

abbrev keys_of : ℕ → List ItemKey → List ItemKey
keys_of ip [] = []
keys_of ip (k ∷ ks) = if k.ip_id == ip then k ∷ keys_of ip ks else keys_of ip ks

abbrev without_keys : List ItemKey → List ItemKey → List ItemKey
without_keys gone [] = []
without_keys gone (k ∷ ks) =
    if is_listed k gone then without_keys gone ks else k ∷ without_keys gone ks

abbrev with_key : ItemKey → List ItemKey → List ItemKey
with_key k ks = if is_listed k ks then ks else k ∷ ks

abbrev living_keys : Items → List ItemKey → List ItemKey
living_keys c [] = []
living_keys c (k ∷ ks) = elim (c.hashes k) [
  | none ↦ living_keys c ks
  | some f ↦ k ∷ living_keys c ks
]

abbrev pub memory_items : ItemServer
memory_items = record {
  Store = Memory;
  view = λ m. m.items;
  hgetall = λ k m. m.items.hashes k;
  hset = λ k u m. record { keys = with_key k m.keys; items = written k u m.items };
  expire = λ k ttl m. record { keys = m.keys; items = living k ttl m.items };
  del = λ ks m. record { keys = without_keys ks m.keys; items = deleted ks m.items };
  wait = λ elapsed m. record {
    keys = living_keys (aged elapsed m.items) m.keys;
    items = aged elapsed m.items;
  };
  scan = λ ip cursor m. (keys_of ip m.keys, 0);
  hgetall_law = λ k m. refl;
  hset_law = λ k u m. refl;
  expire_law = λ k ttl m. refl;
  wait_law = λ elapsed m. refl;
  del_law = λ ks m. refl;
}

abbrev pub no_items : Memory
no_items = record { keys = []; items = record { hashes = λ k. none; ttls = λ k. none } }
