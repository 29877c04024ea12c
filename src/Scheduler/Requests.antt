-- ===== src/Scheduler/Requests.antt =====
-- What other parts of the program ask of the scheduler in internal/scheduler/ip_scheduler.go, and the
-- refresh of its IPs. A nil pointer is `none`. `now` is the clock, in nanoseconds.
use animehot.Common.{
  ℕ, suc, ◌+◌, ◌-◌, ◌*◌, Bool, false, ◌||◌, Option, none, some, List, [], ◌∷◌, if◌then◌else◌, ◌==◌,
  ltb, leb, length,
}
use animehot.Queue.Messages.{Result, ok, err}
use animehot.Queue.Network.{M, return, ◌>>=◌, ◌>>◌, attempt, ignore, query}
use animehot.Queue.Pairs.{on_left}
use animehot.Schedule.Operations.{schedule, remove, get_all, get_schedule_time}
use animehot.Scheduler.Settings.{
  IpScheduler, IpMetadata, is_active, second, calculate_interval, active_ips,
}
use animehot.Scheduler.Pass.{Stores}

-- A duration that may be negative.
pub data Offset : Type 0 where
  ahead behind : ℕ → Offset

abbrev pub offset : ℕ → ℕ → Offset
offset time now = if leb now time then Offset.ahead (time - now) else Offset.behind (now - time)

pub record ScheduleInfo : Type 0 where
  pub ip_id : ℕ
  pub next_schedule : ℕ
  pub time_until : Offset
  pub is_overdue : Bool

pub record Stats : Type 0 where
  pub total_ips : ℕ
  pub overdue_ips : ℕ
  pub next_schedule_in : ℕ

abbrev pub no_stats : Stats
no_stats = record { total_ips = 0; overdue_ips = 0; next_schedule_in = 0 }

abbrev pub one_day : ℕ
one_day = 24 * 60 * 60 * second

unfoldable pub schedule_infos : ℕ → List (ℕ × ℕ) → List ScheduleInfo
schedule_infos now [] = []
schedule_infos now ((id, t) ∷ rest) =
    record { ip_id = id; next_schedule = t; time_until = offset t now; is_overdue = ltb t now }
    ∷ schedule_infos now rest

unfoldable pub count_overdue : ℕ → List (ℕ × ℕ) → ℕ
count_overdue now [] = 0
count_overdue now ((id, t) ∷ rest) =
    let n = count_overdue now rest in if ltb t now then suc n else n

-- The variable `minDuration` behind the loop.
unfoldable pub min_duration : ℕ → ℕ → List (ℕ × ℕ) → ℕ
min_duration now least [] = least
min_duration now least ((id, t) ∷ rest) =
    min_duration now (if ltb t now then least else if ltb (t - now) least then t - now else least)
      rest

unfoldable pub stats_of : ℕ → List (ℕ × ℕ) → Stats
unfolding count_overdue min_duration
stats_of now all = record {
  total_ips = length all;
  overdue_ips = count_overdue now all;
  next_schedule_in =
      if ltb (count_overdue now all) (length all) then min_duration now one_day all else 0;
}

-- The map `activeSet`.
unfoldable pub in_active_set : {W : Type 0} → (W → ℕ) → ℕ → List W → Bool
in_active_set id_of id [] = false
in_active_set id_of id (x ∷ xs) = (id == id_of x) || in_active_set id_of id xs

-- The reply of `GetScheduleTime` where the error is dropped.
abbrev pub found_time : Result (Option ℕ) → Option ℕ
found_time (err e) = none
found_time (ok t) = t

module _ (s : IpScheduler) where
  open s use {schedule_store, queue, weights, config, db, clock}

  unfoldable pub get_active_ips : M (Stores s) (List (IpMetadata weights))
  get_active_ips = query λ _. active_ips weights db

  unfoldable pub schedule_at : ℕ → ℕ → M (Stores s) (Unit {0})
  schedule_at id time = on_left (schedule schedule_store id time)

  unfoldable pub add_ip : ℕ → Option (IpMetadata weights) → M (Stores s) (Unit {0})
  add_ip now none = return tt
  add_ip now (some ip) = if is_active ip.status then ignore (schedule_at ip.id now) else return tt

  unfoldable pub remove_ip : ℕ → M (Stores s) (Unit {0})
  remove_ip id = ignore (on_left (remove schedule_store id))

  unfoldable pub reweigh : ℕ → ℕ → weights.Weight → Option ℕ → M (Stores s) (Unit {0})
  reweigh now id weight none = return tt
  reweigh now id weight (some t) =
      ignore (schedule_at id (now + calculate_interval weights config weight))

  unfoldable pub update_ip_weight : ℕ → ℕ → weights.Weight → M (Stores s) (Unit {0})
  unfolding reweigh
  update_ip_weight now id weight = do
    reply ← attempt (on_left (get_schedule_time schedule_store id))
    reweigh now id weight (found_time reply)

  unfoldable pub schedule_ip : ℕ → ℕ → M (Stores s) (Unit {0})
  schedule_ip id next_time = schedule_at id next_time

  unfoldable pub infos_reply : ℕ → Result (List (ℕ × ℕ)) → Option (List ScheduleInfo)
  infos_reply now (err e) = none
  infos_reply now (ok all) = some (schedule_infos now all)

  -- The map as a list; `nil` is `none`.
  unfoldable pub get_schedule_status : ℕ → M (Stores s) (Option (List ScheduleInfo))
  unfolding infos_reply
  get_schedule_status now = do
    reply ← attempt (on_left (get_all schedule_store))
    return (infos_reply now reply)

  unfoldable pub trigger_now : ℕ → ℕ → M (Stores s) (Unit {0})
  trigger_now now id = ignore (schedule_at id now)

  unfoldable pub get_next_schedule_time : ℕ → M (Stores s) (Option ℕ)
  get_next_schedule_time id = do
    reply ← attempt (on_left (get_schedule_time schedule_store id))
    return (found_time reply)

  unfoldable pub schedule_if_new : ℕ → Option ℕ → M (Stores s) (Unit {0})
  schedule_if_new id none = ignore (schedule_at id (clock id))
  schedule_if_new id (some t) = return tt

  -- The loop over the active IPs. An error of `GetScheduleTime` counts as "not scheduled".
  unfoldable pub schedule_new : List (IpMetadata weights) → M (Stores s) (Unit {0})
  unfolding schedule_if_new
  schedule_new [] = return tt
  schedule_new (ip ∷ ips) = do
    reply ← attempt (on_left (get_schedule_time schedule_store ip.id))
    schedule_if_new ip.id (found_time reply)
    schedule_new ips

  unfoldable pub remove_inactive :
      List (IpMetadata weights) → List (ℕ × ℕ) → M (Stores s) (Unit {0})
  remove_inactive active [] = return tt
  remove_inactive active ((id, t) ∷ all) = do
    if in_active_set (λ ip. ip.id) id active
        then return tt
        else ignore (on_left (remove schedule_store id))
    remove_inactive active all

  unfoldable pub refresh_active_ips : M (Stores s) (Unit {0})
  unfolding get_active_ips
  refresh_active_ips = do
    ips ← get_active_ips
    schedule_new ips
    all ← on_left (get_all schedule_store)
    remove_inactive ips all

  unfoldable pub stats_or_none : ℕ → Result (List (ℕ × ℕ)) → Stats
  unfolding stats_of
  stats_or_none now (err e) = no_stats
  stats_or_none now (ok all) = stats_of now all

  unfoldable pub get_stats : ℕ → M (Stores s) Stats
  unfolding stats_or_none
  get_stats now = do
    reply ← attempt (on_left (get_all schedule_store))
    return (stats_or_none now reply)
