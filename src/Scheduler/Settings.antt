-- ===== src/Scheduler/Settings.antt =====
-- The settings of the scheduler in internal/config/config.go, what it reads of an IP in
-- internal/model/ip.go, and the times. Times and durations are nanoseconds, from 1970.
use animehot.Common.{
  ℕ, ◌==◌, ltb, String, Bool, true, false, Option, none, some, List, [], ◌∷◌, if◌then◌else◌,
}
use animehot.Queue.Server.{Redis}
pub use animehot.Schedule.Operations.{second, unix}
use animehot.Schedule.Server.{SortedSet}

-- What the code uses of the float64 weights: `w > 0` and `time.Duration(float64(d) / w)`.
pub record Weights : Type 1 where
  pub Weight : Type 0
  pub one : Weight
  pub is_positive : Weight → Bool
  pub scaled : ℕ → Weight → ℕ

pub record SchedulerConfig : Type 0 where
  pub base_interval : ℕ
  pub min_interval : ℕ
  pub max_interval : ℕ
  pub schedule_slot : ℕ
  pub batch_size : ℕ
  pub backpressure_threshold : ℕ
  pub janitor_interval : ℕ
  pub janitor_timeout : ℕ
  pub pages_on_sale : ℕ
  pub pages_sold : ℕ

pub data IpStatus : Type 0 where
  active paused deleted : IpStatus

abbrev pub is_active : IpStatus → Bool
is_active IpStatus.active = true
is_active IpStatus.paused = false
is_active IpStatus.deleted = false

pub record IpMetadata (w : Weights) : Type 0 where
  pub id : ℕ
  pub name : String
  pub weight : w.Weight
  pub status : IpStatus
  pub last_crawled_at : Option ℕ

module _ (w : Weights) where
  abbrev pub within_limits : ℕ → ℕ → ℕ → ℕ
  within_limits least most n = if ltb n least then least else if ltb most n then most else n

  unfoldable pub calculate_interval : SchedulerConfig → w.Weight → ℕ
  calculate_interval c weight =
      within_limits c.min_interval c.max_interval
        (w.scaled c.base_interval (if w.is_positive weight then weight else w.one))

  -- The rows of the table `ip_metadata` that are not deleted: `First` by the primary key, and the
  -- rows that are active.
  unfoldable pub find_ip : ℕ → List (IpMetadata w) → Option (IpMetadata w)
  find_ip id [] = none
  find_ip id (ip ∷ ips) = if ip.id == id then some ip else find_ip id ips

  unfoldable pub active_ips : List (IpMetadata w) → List (IpMetadata w)
  active_ips [] = []
  active_ips (ip ∷ ips) =
      let rest = active_ips ips in if is_active ip.status then ip ∷ rest else rest

-- The scheduler. `db` is the table, `queue_ready` says that the queue's client has its Redis handle,
-- `uuid` gives the new task id when a task is made for an IP, and `clock` the time that is read while
-- an IP is handled.
pub record IpScheduler : Type 1 where
  pub schedule_store : SortedSet
  pub queue : Redis
  pub queue_ready : Bool
  pub weights : Weights
  pub config : SchedulerConfig
  pub db : List (IpMetadata weights)
  pub uuid : ℕ → String
  pub clock : ℕ → ℕ
