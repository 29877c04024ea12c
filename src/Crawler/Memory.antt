-- ===== src/Crawler/Memory.antt =====
-- The keys of internal/crawler in memory, with their ends.
use animehot.Common.{
  ℕ, suc, ◌+◌, ◌≡◌, refl, Bool, true, false, Option, none, some, ltb, if◌then◌else◌,
}
use animehot.Crawler.Keys.{Key, KeyServer, same_key}

-- A value and the time until which it lives, if it has one.
abbrev pub Cells : Type 0
Cells = Key → Option (ℕ × Option ℕ)

abbrev alive : ℕ → Option (ℕ × Option ℕ) → Option ℕ
alive now none = none
alive now (some (v, none)) = some v
alive now (some (v, some until)) = if ltb now until then some v else none

abbrev with_cell : Key → Option (ℕ × Option ℕ) → Cells → Cells
with_cell k cell s l = if same_key k l then cell else s l

abbrev with_end : ℕ → Option (ℕ × Option ℕ) → Option (ℕ × Option ℕ)
with_end until none = none
with_end until (some (v, old)) = some (v, some until)

abbrev counted_cell : ℕ → Option (ℕ × Option ℕ) → ℕ × Option ℕ
counted_cell now none = (1, none)
counted_cell now (some (v, none)) = (suc v, none)
counted_cell now (some (v, some until)) = if ltb now until then (suc v, some until) else (1, none)

pub alive-with_cell :
    (k l : Key) (now : ℕ) (cell : Option (ℕ × Option ℕ)) (s : Cells)
    → alive now (with_cell k cell s l) ≡ (if same_key k l then alive now cell else alive now (s l))
alive-with_cell k l now cell s = chosen (same_key k l)
  where
    chosen :
        (b : Bool)
        → alive now (if b then cell else s l) ≡ (if b then alive now cell else alive now (s l))
    chosen true = refl
    chosen false = refl

abbrev pub memory_keys : KeyServer
memory_keys = record {
  Store = Cells;
  get = λ k now s. alive now (s k);
  set = λ k v at ttl s. with_cell k (some (v, some (at + ttl))) s;
  del = λ k s. with_cell k none s;
  incr = λ k now s. ((counted_cell now (s k)).0, with_cell k (some (counted_cell now (s k))) s);
  expire = λ k now ttl s. with_cell k (with_end (now + ttl) (s k)) s;
  set_law = λ k l v at ttl now s h. alive-with_cell k l now (some (v, some (at + ttl))) s;
  del_law = λ k l now s. alive-with_cell k l now none s;
}
