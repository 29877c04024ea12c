-- ===== src/Tracker/Scans.antt =====
-- `ClearAllItems` and `GetItemCount` of internal/analyzer/state_machine.go: loops over `SCAN` until
-- the cursor is 0 again. On fuel; `none` where the loop would go on.
use animehot.Common.{
  ℕ, zero, suc, ◌+◌, Option, none, some, List, [], ◌∷◌, ◌++◌, ◌==◌, if◌then◌else◌, length,
}
use animehot.Queue.Network.{M, return, ◌>>=◌, ◌>>◌, update, query}
use animehot.Tracker.Server.{ItemServer, ItemKey}

module _ (r : ItemServer) where
  open r use {Store}

  unfoldable pub scan_keys : ℕ → ℕ → ℕ → List ItemKey → M Store (Option (List ItemKey))
  scan_keys zero ip cursor keys = return none
  scan_keys (suc fuel) ip cursor keys = do
    page ← query (r.scan ip cursor)
    let again = scan_keys fuel ip page.1 (keys ++ page.0)
    if page.1 == 0 then return (some (keys ++ page.0)) else again

  unfoldable pub delete_found : Option (List ItemKey) → M Store (Option (Unit {0}))
  delete_found none = return none
  delete_found (some []) = return (some tt)
  delete_found (some (k ∷ ks)) = do update (r.del (k ∷ ks)); return (some tt)

  unfoldable pub clear_all_items : ℕ → ℕ → M Store (Option (Unit {0}))
  unfolding scan_keys delete_found
  clear_all_items fuel ip = do found ← scan_keys fuel ip 0 []; delete_found found

  unfoldable pub count_keys : ℕ → ℕ → ℕ → ℕ → M Store (Option ℕ)
  count_keys zero ip cursor count = return none
  count_keys (suc fuel) ip cursor count = do
    page ← query (r.scan ip cursor)
    let again = count_keys fuel ip page.1 (count + length page.0)
    if page.1 == 0 then return (some (count + length page.0)) else again

  unfoldable pub get_item_count : ℕ → ℕ → M Store (Option ℕ)
  unfolding count_keys
  get_item_count fuel ip = count_keys fuel ip 0 0
