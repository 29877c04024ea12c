-- ===== src/Crawler/Sleeps.antt =====
-- How often the throttler of internal/crawler/adaptive.go makes the crawler pause, and for how long.
use animehot.Common.{
  ℕ, suc, ◌+◌, ◌≡◌, refl, sym, subst, ◌≤◌, ◌<◌, ◌⊎◌, inl, inr, Bool, true, false, not, ◌&&◌, Option,
  none, some, List, [], ◌∷◌, ◌++◌, length, bit, Bool-cases, arith,
}
use animehot.Queue.Messages.{Result, ok, err, increment}
use animehot.Queue.Network.{World}
use animehot.Queue.Pairs.{on_right}
use animehot.Crawler.Keys.{KeyServer}
use animehot.Crawler.Throttle.{
  Throttler, State, min_sleep_duration, longest_sleep, reaches_threshold, sleep_of, enter_cooldown,
  joint_count, count_and_settle, settle_block, forget_in_redis, count_in_redis, any_blocks,
  record_block, record_success, exit_cooldown,
}

-- What the crawls do to the throttler, in the order in which its lock lets them.
pub data Event : Type 0 where
  blocked : Bool → ℕ → ℕ → Event
  succeeded : Bool → Event
  left_cooldown : Event

module _ (r : KeyServer) where
  -- The pauses that a sequence of events starts, and the state behind it.
  abbrev pub outcome_of : Result (Option ℕ) → List ℕ
  outcome_of (ok (some pause)) = pause ∷ []
  outcome_of (ok none) = []
  outcome_of (err e) = []

  -- The pause that an event starts.
  unfoldable pub pauses_at : Event → World (State r) → List ℕ
  pauses_at (blocked redis_ready now random) w =
      outcome_of (record_block r redis_ready now random w).0
  pauses_at (succeeded redis_ready) w = []
  pauses_at left_cooldown w = []

  unfoldable pub after_event : Event → World (State r) → World (State r)
  after_event (blocked redis_ready now random) w = (record_block r redis_ready now random w).1
  after_event (succeeded redis_ready) w = (record_success r redis_ready w).1
  after_event left_cooldown w = (exit_cooldown r w).1

  unfoldable pub pauses : List Event → World (State r) → List ℕ
  unfolding pauses_at after_event
  pauses [] w = []
  pauses (e ∷ es) w = pauses_at e w ++ pauses es (after_event e w)

  -- The events that end a cooldown.
  abbrev pub endings : List Event → ℕ
  endings [] = 0
  endings (blocked a b c ∷ es) = endings es
  endings (succeeded a ∷ es) = suc (endings es)
  endings (left_cooldown ∷ es) = suc (endings es)

  abbrev cooling : World (State r) → Bool
  cooling w = w.store.0.in_cooldown

  -- What a block does: a pause only outside the cooldown, which it starts.
  abbrev Blocked : ℕ → Bool → Result (Option ℕ) × World (State r) → Type 0
  Blocked random cool o =
      ((outcome_of o.0 ≡ []) × (cooling o.1 ≡ cool))
      ⊎ ((outcome_of o.0 ≡ sleep_of random ∷ []) × (cooling o.1 ≡ true) × (cool ≡ false))

  settle_block-Blocked :
      (random count : ℕ) (at : Throttler) (w : World (State r))
      → Blocked random at.in_cooldown (settle_block r random count at w)
  unfolding enter_cooldown
  settle_block-Blocked random count at w =
      elim (Bool-cases (reaches_threshold count && not at.in_cooldown)) [
        | inl e ↦ rw e (inr (refl, refl, outside (reaches_threshold count) at.in_cooldown e))
        | inr e ↦ rw e (inl (refl, refl))
      ]
    where
      outside : (x y : Bool) → (x && not y) ≡ true → y ≡ false
      outside x y e = ground arith

  record_block-Blocked :
      (redis_ready : Bool) (now random : ℕ) (w : World (State r))
      → Blocked random (cooling w) (record_block r redis_ready now random w)
  unfolding record_block count_and_settle on_right
  record_block-Blocked redis_ready now random w = from redis_ready
    where
      counted_blocks : Throttler
      counted_blocks = record w.store.0 {
        consecutive_blocks_count = increment w.store.0.consecutive_blocks_count;
      }

      after : World (State r)
      after = record { store = (counted_blocks, w.store.1); fates = w.fates }

      from : (b : Bool) → Blocked random (cooling w) (record_block r b now random w)
      from true =
          settle_block-Blocked random
            (joint_count counted_blocks.consecutive_blocks_count (count_in_redis r now after).0)
            counted_blocks (count_in_redis r now after).1
      from false =
          settle_block-Blocked random counted_blocks.consecutive_blocks_count counted_blocks after

  forget_leaves : (b : Bool) (w : World (State r)) → cooling (forget_in_redis r b w).1 ≡ cooling w
  unfolding on_right
  forget_leaves true w = refl
  forget_leaves false w = refl

  success_ends :
      (redis_ready : Bool) (w : World (State r))
      → cooling (record_success r redis_ready w).1 ≡ false
  unfolding record_success
  success_ends redis_ready w =
      forget_leaves (redis_ready && any_blocks w.store.0.consecutive_blocks_count) (record {
        store = (record { consecutive_blocks_count = 0; in_cooldown = false }, w.store.1);
        fates = w.fates;
      })

  -- A list of pauses, each of 30 seconds at least and less than 60.
  abbrev pub AreModerate : List ℕ → Type 0
  AreModerate [] = Unit {0}
  AreModerate (d ∷ ds) = ((min_sleep_duration ≤ d) × (d < longest_sleep)) × AreModerate ds

  sleep_of-moderate :
      (random : ℕ) → (min_sleep_duration ≤ sleep_of random) × (sleep_of random < longest_sleep)
  sleep_of-moderate random = omega arith

  -- Whatever the network does: in any sequence of blocks, successes and ends of cooldowns, the crawler
  -- starts at most one pause more than cooldowns are ended, and none more if the sequence begins in a
  -- cooldown; each pause takes from 30 to 60 seconds.
  pub pauses_bounded :
      (es : List Event) (w : World (State r))
      → (length (pauses es w) ≤ endings es + bit (not (cooling w))) × AreModerate (pauses es w)
  unfolding pauses pauses_at after_event exit_cooldown
  pauses_bounded [] w = (omega arith, tt)
  pauses_bounded (blocked a b c ∷ es) w =
      let (rest, moderate) = pauses_bounded es (record_block r a b c w).1 in
      elim (record_block-Blocked a b c w) [
        | inl (e, f) ↦ (
          subst
              (λ l.
                length (l ++ pauses es (record_block r a b c w).1)
                ≤ endings es + bit (not (cooling w)))
              (sym e)
              (subst (λ x. length (pauses es (record_block r a b c w).1) ≤ endings es + bit (not x))
                f rest),
          subst (λ l. AreModerate (l ++ pauses es (record_block r a b c w).1)) (sym e) moderate,
        )
        | inr (e, f, g) ↦ (
          subst
              (λ l.
                length (l ++ pauses es (record_block r a b c w).1)
                ≤ endings es + bit (not (cooling w)))
              (sym e) (ground (arith, rest, f, g)),
          subst (λ l. AreModerate (l ++ pauses es (record_block r a b c w).1)) (sym e)
              (sleep_of-moderate c, moderate),
        )
      ]
  pauses_bounded (succeeded a ∷ es) w =
      let (rest, moderate) = pauses_bounded es (record_success r a w).1 in
      (ended (cooling (record_success r a w).1) _ _ _ (success_ends a w) rest, moderate)
    where
      ended : (c d : Bool) (m n : ℕ) → c ≡ false → m ≤ n + bit (not c) → m ≤ suc n + bit (not d)
      ended c d m n e l = ground (arith, e, l)
  pauses_bounded (left_cooldown ∷ es) w =
      let (rest, moderate) = pauses_bounded es (exit_cooldown r w).1 in
      (ended (not (cooling w)) _ _ rest, moderate)
    where
      ended : (d : Bool) (m n : ℕ) → m ≤ n + bit true → m ≤ suc n + bit d
      ended d m n l = ground (arith, l)
