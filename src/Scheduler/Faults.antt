-- ===== src/Scheduler/Faults.antt =====
-- What a lost call makes the scheduler of internal/scheduler/ip_scheduler.go do.
use animehot.Common.{
  ℕ, suc, ◌+◌, ◌≡◌, refl, ap, ◌∙◌, ◌<◌, ◌^◌, true, none, List, [], ◌∷◌, ==_refl, leb, if◌then◌else◌,
  arith,
}
use animehot.Queue.Messages.{ok}
use animehot.Queue.Network.{Fate, calm, call}
use animehot.Queue.Pairs.{on_left, on_right}
use animehot.Queue.Upkeep.{get_queue_stats, or_zero}
use animehot.Schedule.Operations.{remove}
use animehot.Schedule.Laws.{planned}
use animehot.Schedule.Planned.{planned-removed}
use animehot.Scheduler.Settings.{IpScheduler}
use animehot.Scheduler.Pass.{visit, visit_found, get_ip_by_id, wait_for_queue_drain, is_drained}

module _ (s : IpScheduler) where
  open s use {schedule_store, queue, queue_ready, weights, db}

  -- If the database does not answer when a due IP is looked up, the IP is taken out of the schedule as
  -- if it did not exist, whatever the table holds.
  pub visit_lost_lookup :
      (now id : ℕ) (a : schedule_store.Store) (b : queue.Store) (fates : List Fate)
      → id < 2 ^ 64
      → let after =
          visit s now id
            (record { store = (a, b); fates = Fate.lost_request ∷ Fate.delivered ∷ fates }) in
        (after.0 ≡ ok tt)
        × (planned schedule_store id after.1.store.0 ≡ none)
        × (after.1.store.1 ≡ b)
  unfolding visit visit_found get_ip_by_id on_left remove call
  visit_lost_lookup now id a b fates l = (
    refl,
    planned-removed schedule_store id id a l l
        ∙ ap (λ c. if c then none else planned schedule_store id a) (==_refl id),
    refl,
  )

  -- If the two lengths that the wait looks at cannot be read, it takes the queue for empty and ends at
  -- its first tick, whatever the queue holds.
  pub wait_for_queue_drain_blind :
      (threshold ticks : ℕ) (a : schedule_store.Store) (b : queue.Store)
      → queue_ready ≡ true
      → wait_for_queue_drain s threshold
          (suc ticks)
          (record { store = (a, b); fates = Fate.lost_request ∷ Fate.lost_request ∷ [] })
        ≡ (ok tt, calm (a, b))
  unfolding wait_for_queue_drain get_queue_stats on_right is_drained or_zero call
  wait_for_queue_drain_blind threshold ticks a b e = rw (e, least threshold) refl
    where
      least : (n : ℕ) → leb (0 + 0) n ≡ true
      least n = ground arith
