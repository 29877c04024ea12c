-- ===== src/Scheduler/Startup.antt =====
-- The start and the stop of the scheduler in internal/scheduler/ip_scheduler.go. The field `running`
-- stands beside the two Redis stores; the mutex, and the loops that `Start` leaves running, are not
-- here. `fuel` is that of `RecoverOrphanedTasks`.
use animehot.Common.{
  ℕ, suc, ◌+◌, ◌*◌, Bool, true, false, not, Option, none, some, List, [], ◌∷◌, if◌then◌else◌, ltb,
}
use animehot.Queue.Messages.{already_running}
use animehot.Queue.Network.{M, return, ◌>>=◌, ◌>>◌, guard, ignore}
use animehot.Queue.Pairs.{on_left, on_right}
use animehot.Queue.Recovery.{recover_orphaned_tasks}
use animehot.Schedule.Operations.{count, schedule_batch}
use animehot.Scheduler.Settings.{IpScheduler, IpMetadata, second, calculate_interval}
use animehot.Scheduler.Pass.{Stores, check_and_schedule}
use animehot.Scheduler.Requests.{get_active_ips}

module _ (s : IpScheduler) where
  open s use {schedule_store, queue, queue_ready, weights, config}

  -- Immediate crawls are 10 seconds apart, by the place `i` in the list.
  abbrev pub spread : ℕ → ℕ → ℕ
  spread now i = now + i * (10 * second)

  unfoldable pub initial_time : ℕ → ℕ → IpMetadata weights → Option ℕ → ℕ
  initial_time now i ip none = spread now i
  initial_time now i ip (some last) =
      let next_time = last + calculate_interval weights config ip.weight in
      if ltb next_time now then spread now i else next_time

  -- The map `schedules` as a list.
  unfoldable pub initial_times : ℕ → ℕ → List (IpMetadata weights) → List (ℕ × ℕ)
  unfolding initial_time
  initial_times now i [] = []
  initial_times now i (ip ∷ ips) =
      (ip.id, initial_time now i ip ip.last_crawled_at) ∷ initial_times now (suc i) ips

  unfoldable pub schedule_initial : ℕ → List (IpMetadata weights) → M (Stores s) (Unit {0})
  unfolding initial_times
  schedule_initial now ips = on_left (schedule_batch schedule_store (initial_times now 0 ips))

  unfoldable pub init_schedule_times : ℕ → M (Stores s) (Unit {0})
  unfolding schedule_initial
  init_schedule_times now = do
    n ← on_left (count schedule_store)
    if ltb 0 n then return tt else (get_active_ips s >>= λ ips. schedule_initial now ips)

  abbrev pub State : Type 0
  State = Bool × Stores s

  abbrev pub get_running : M State Bool
  get_running w = return w.store.0 w

  abbrev pub set_running : Bool → M State (Unit {0})
  set_running b w = return tt (record { store = (b, w.store.1); fates = w.fates })

  unfoldable pub start : ℕ → ℕ → ℕ → M State (Unit {0})
  start fuel due_at now = do
    running ← get_running
    guard (not running) already_running
    set_running true
    ignore (on_right (on_right (recover_orphaned_tasks queue fuel queue_ready)))
    on_right (init_schedule_times now)
    on_right (check_and_schedule s due_at now)

  unfoldable pub stop : M State (Unit {0})
  stop = do running ← get_running; if running then set_running false else return tt

  unfoldable pub is_running : M State Bool
  is_running = get_running
