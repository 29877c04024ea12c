-- ===== src/Scheduler/Examples.antt =====
-- The theorems on the scheduler, applied to one with two IPs over servers in memory, and runs of it.
use animehot.Common.{
  ℕ, ◌*◌, ◌/◌, ◌≡◌, refl, ◌≤◌, ◌<◌, ◌^◌, ◌⊎◌, true, false, none, some, List, [], ◌∷◌, ltb, arith,
  if◌then◌else◌, length,
}
use animehot.Queue.Messages.{ok}
use animehot.Queue.Server.{ip as key_of}
use animehot.Queue.Network.{World, Fate, calm}
use animehot.Queue.Views.{is_pending}
use animehot.Queue.Memory.{Memory, contents, memory_server}
use animehot.Queue.Dedup.Steps.{Deduped, held}
use animehot.Schedule.Memory.{Set, sorted_set}
use animehot.Schedule.Laws.{AreIds, planned}
use animehot.Scheduler.Settings.{
  Weights, SchedulerConfig, IpStatus, IpMetadata, IpScheduler, second, unix, active_ips, find_ip,
}
use animehot.Scheduler.Pass.{Stores, check_and_schedule}
use animehot.Scheduler.Calm.{settled_at}
use animehot.Scheduler.Due.{check_and_schedule_lem, check_and_schedule_clears}
use animehot.Scheduler.Queueing.{check_and_schedule-Deduped}
use animehot.Scheduler.Pushed.{check_and_schedule_pushes}
use animehot.Scheduler.Requests.{refresh_active_ips}
use animehot.Scheduler.Refresh.{refresh_active_ips_lem, listed, kept_or_now}
use animehot.Scheduler.Startup.{init_schedule_times, State}
use animehot.Scheduler.Boot.{init_schedule_times_lem}
use animehot.Scheduler.Loops.{Round, schedule_round}
use animehot.Scheduler.Waits.{IsTimely, passes_at, schedule_round_lem}
use animehot.Scheduler.Archiving.{JstTime, Job, archiver_loop, never_run}
use animehot.Scheduler.Jobs.{successes}
use animehot.Scheduler.Once.{archiver_loop_once}

abbrev whole_weights : Weights
whole_weights = record { Weight = ℕ; one = 1; is_positive = λ w. ltb 0 w; scaled = λ d w. d / w }

abbrev hourly : SchedulerConfig
hourly = record {
  base_interval = 3600 * second;
  min_interval = 900 * second;
  max_interval = 14400 * second;
  schedule_slot = 0;
  batch_size = 1;
  backpressure_threshold = 0;
  janitor_interval = 0;
  janitor_timeout = 0;
  pages_on_sale = 3;
  pages_sold = 3;
}

-- The IP 7 is active, the IP 8 is paused.
abbrev rows : List (IpMetadata whole_weights)
rows =
    record {
      id = 7;
      name = "frieren";
      weight = 2;
      status = IpStatus.active;
      last_crawled_at = none;
    }
    ∷ record {
      id = 8;
      name = "naruto";
      weight = 1;
      status = IpStatus.paused;
      last_crawled_at = none;
    }
    ∷ []

abbrev shop : IpScheduler
shop = record {
  schedule_store = sorted_set;
  queue = memory_server;
  queue_ready = true;
  weights = whole_weights;
  config = hourly;
  db = rows;
  uuid = λ id. "a1";
  clock = λ id. 300 * second;
}

-- The IP 7 is planned for 100, the IP 8 for 250.
abbrev plan : Set
plan = record {
  all = record { member = 7; score = 100 } ∷ record { member = 8; score = 250 } ∷ [];
  rising = ((omega arith, tt), (tt, tt));
  unique = (refl, (refl, tt));
}

plan-AreIds : AreIds sorted_set plan.all
plan-AreIds = ((7, omega arith, refl), ((8, omega arith, refl), tt))

abbrev no_plan : Set
no_plan = record { all = []; rising = tt; unique = tt }

abbrev no_tasks : Memory
no_tasks = record { lists = λ k. []; sets = λ k x. false; cards = λ k. 0; entries = λ k. [] }

check_and_schedule_example :
    (a' : Set) × (b' : Memory) × (check_and_schedule shop 300 (300 * second) (calm (plan, no_tasks))
      ≡ (ok tt, calm (a', b')))
    × ((id : ℕ)
        → id < 2 ^ 64
        → ((t : ℕ) × (planned sorted_set id plan ≡ some t)
            × (t ≤ 300)
            × (planned sorted_set id a' ≡ settled_at shop (300 * second) id))
          ⊎ (((t : ℕ) → planned sorted_set id plan ≡ some t → 300 < t)
              × (planned sorted_set id a' ≡ planned sorted_set id plan)))
check_and_schedule_example =
    check_and_schedule_lem shop 300 (300 * second) plan no_tasks plan-AreIds

check_and_schedule_clears_example :
    (a' : Set) × (b' : Memory) × (check_and_schedule shop 300 (300 * second) (calm (plan, no_tasks))
      ≡ (ok tt, calm (a', b')))
    × ((id t : ℕ) → id < 2 ^ 64 → planned sorted_set id a' ≡ some t → 300 < t)
check_and_schedule_clears_example =
    check_and_schedule_clears shop 300 (300 * second) plan no_tasks plan-AreIds (omega arith)
      (omega arith) (omega arith)

check_and_schedule_pushes_example :
    let after = (check_and_schedule shop 300 (300 * second) (calm (plan, no_tasks))).1.store.1 in
    (is_pending memory_server (key_of 7) after ≡ true)
    × ((is_pending memory_server (key_of 7) no_tasks ≡ true)
        ⊎ (1 ≤ held memory_server 7 (contents after)))
unfolding find_ip
check_and_schedule_pushes_example =
    check_and_schedule_pushes shop 300 (300 * second) 7 100 plan no_tasks plan-AreIds (omega arith)
      refl (omega arith) refl

no_tasks-Deduped : Deduped memory_server (contents no_tasks)
no_tasks-Deduped n = omega arith

abbrev lossy : World (Stores shop)
lossy = record {
  store = (plan, no_tasks);
  fates = Fate.delivered ∷ Fate.delivered ∷ Fate.lost_reply ∷ Fate.delivered ∷ [];
}

check_and_schedule-Deduped_example :
    Deduped memory_server (contents (check_and_schedule shop 300 (300 * second) lossy).1.store.1)
check_and_schedule-Deduped_example =
    check_and_schedule-Deduped shop 300 (300 * second) lossy no_tasks-Deduped

refresh_active_ips_example :
    (a' : Set) × (refresh_active_ips shop (calm (plan, no_tasks)) ≡ (ok tt, calm (a', no_tasks)))
    × ((id : ℕ)
        → id < 2 ^ 64
        → planned sorted_set id a' ≡ (
            if listed shop id (active_ips whole_weights rows)
            then some (kept_or_now shop id (planned sorted_set id plan))
            else none))
unfolding active_ips
refresh_active_ips_example = refresh_active_ips_lem shop plan no_tasks (omega arith, tt) plan-AreIds

init_schedule_times_example :
    (a' : Set) × (init_schedule_times shop (300 * second) (calm (no_plan, no_tasks))
      ≡ (ok tt, calm (a', no_tasks)))
    × (0 < length no_plan.all → a' ≡ no_plan)
    × (no_plan.all ≡ []
        → (id : ℕ) → id < 2 ^ 64
        → ((listed shop id (active_ips whole_weights rows) ≡ true)
            × ((t : ℕ) × (planned sorted_set id a' ≡ some t) × (unix (300 * second) ≤ t)))
          ⊎ ((listed shop id (active_ips whole_weights rows) ≡ false)
              × (planned sorted_set id a' ≡ none)))
unfolding active_ips
init_schedule_times_example =
    init_schedule_times_lem shop (300 * second) no_plan no_tasks (omega arith, tt)

-- The first call of the initialisation is lost.
abbrev broken_start : World (State shop)
broken_start = record {
  store = (false, (no_plan, no_tasks));
  fates = Fate.delivered ∷ Fate.lost_request ∷ [];
}

schedule_round_example :
    (round : Round) × (a' : sorted_set.Store) × (b' : Memory) × (schedule_round shop
        (90 * second)
        (calm (plan, no_tasks))
      ≡ (ok round, calm (a', b')))
    × IsTimely shop (90 * second) plan round
    × ((id t : ℕ)
        → id < 2 ^ 64
        → planned sorted_set id a' ≡ some t
        → unix (passes_at shop (90 * second) round) < t)
schedule_round_example =
    schedule_round_lem shop (90 * second) plan no_tasks plan-AreIds (omega arith) (omega arith)

-- Five past midnight, on two days.
abbrev five_past : ℕ → JstTime
five_past day = record { day = day; is_monday = false; day_of_month = 2; hour = 0; minute = 5 }

archiver_loop_example :
    successes Job.daily 3
      (archiver_loop (λ job t. true) (five_past 3 ∷ five_past 3 ∷ five_past 4 ∷ []) never_run).0
    ≤ 1
archiver_loop_example =
    archiver_loop_once (λ job t. true) Job.daily 3 (five_past 3 ∷ five_past 3 ∷ five_past 4 ∷ [])
      (omega arith, (omega arith, (omega arith, tt)))
