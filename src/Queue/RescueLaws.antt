-- ===== src/Queue/RescueLaws.antt =====
-- The janitor's pass over the tasks in internal/pkg/redisqueue/client.go, on a network that does
-- not fail: it loses no task, and its two counts are those of what it moved.
use animehot.Common.{
  ℕ, ◌+◌, ◌≡◌, refl, ap, ◌∙◌, ◌⊎◌, inl, inr, String, str_eq, Bool, true, false, not, none, some,
  List, [], ◌∷◌, ◌&&◌, if◌then◌else◌, length, total, occurs, remove_first, remove_first-cases,
  arith, Bool-cases, Option-cases, ltb,
}
use animehot.Queue.Messages.{CrawlRequest, Result, ok, exceeds_retries}
use animehot.Queue.Server.{
  Redis, Contents, tasks, processing, dead, pushed, with_field, task_started, Member, ip, Stamp,
  HashKey, field_of,
}
use animehot.Queue.Network.{World, calm, call}
use animehot.Queue.Janitor.{
  RescueResult, no_rescue, overdue, counted, tally, rescue_script, rescue_overdue, rescue_task,
  rescue_tasks, clear_started, rescue_listed, rescue_started, rescue_stuck_tasks,
}
use animehot.Queue.Views.{
  cleared, taken_from, rescue_script-gone, rescue_script-retry, rescue_script-dead,
}
use animehot.Queue.Dedup.Calls.{retried}

module _ (r : Redis) where
  open r use {Raw, Store, view}

  -- What a part of the pass has moved between two stores, and has counted.
  abbrev pub Conserved : RescueResult → Store → RescueResult → Store → Type 0
  Conserved acc s acc' s' =
      (length ((view s').lists tasks) + acc.rescued ≡ length ((view s).lists tasks) + acc'.rescued)
      × (length ((view s').lists dead) + acc.dead_letter
          ≡ length ((view s).lists dead) + acc'.dead_letter)
      × (length ((view s).lists processing) + acc.rescued + acc.dead_letter
          ≡ length ((view s').lists processing) + acc'.rescued + acc'.dead_letter)

  -- The pass succeeds and conserves.
  abbrev Passes : RescueResult → Store → Result RescueResult × World Store → Type 0
  Passes acc s after =
      (acc' : RescueResult) × (s' : Store) × (after ≡ (ok acc', calm s')) × Conserved acc s acc' s'

  total-one : (xs : List Raw) → total (λ _. 1) xs ≡ length xs
  total-one [] = refl
  total-one (x ∷ xs) = omega (arith, total-one xs)

  lose_one :
      (raw : Raw) (xs : List Raw)
      → ((occurs r.raw_discrete raw xs ≡ 0)
          × (length (remove_first r.raw_discrete raw xs) ≡ length xs))
        ⊎ ((occurs r.raw_discrete raw xs ≡ 1)
            × (length xs ≡ length (remove_first r.raw_discrete raw xs) + 1))
  lose_one raw xs = ground (
    arith,
    remove_first-cases r.raw_discrete (λ _. 1) raw xs,
    total-one xs,
    total-one (remove_first r.raw_discrete raw xs),
  )

  script_reply :
      (raw : Raw) (task_id : String) (new : Raw) (is_dead : Bool) (key : Member) (s : Store)
      → (rescue_script r raw task_id new is_dead key s).0
        ≡ (if ltb 0 (occurs r.raw_discrete raw ((view s).lists processing)) then 1 else 0)
  unfolding rescue_script
  script_reply raw task_id new is_dead key s = rw (r.lrem_count processing raw s) (ground arith)

  script-Conserved :
      (raw : Raw) (task_id : String) (new : Raw) (is_dead : Bool) (key : Member) (s : Store)
      (acc : RescueResult)
      → Conserved acc s
          (tally (ok (rescue_script r raw task_id new is_dead key s).0) is_dead acc)
          (rescue_script r raw task_id new is_dead key s).1
  unfolding tally
  script-Conserved raw task_id new is_dead key s acc =
      elim (lose_one raw ((view s).lists processing)) [
        | inl (gone, same) ↦
            rw
              (
                script_reply raw task_id new is_dead key s,
                gone,
                rescue_script-gone r raw task_id new is_dead key s gone,
              )
              (omega (arith, same))
        | inr (there, less) ↦ by_verdict is_dead there less
      ]
    where
      by_verdict :
          (b : Bool)
          → occurs r.raw_discrete raw ((view s).lists processing) ≡ 1
          → length ((view s).lists processing)
            ≡ length (remove_first r.raw_discrete raw ((view s).lists processing)) + 1
          → Conserved acc s
              (tally (ok (rescue_script r raw task_id new b key s).0) b acc)
              (rescue_script r raw task_id new b key s).1
      by_verdict true there less =
          rw
            (
              script_reply raw task_id new true key s,
              there,
              rescue_script-dead r raw task_id new key s there,
            )
            (omega (arith, less))
      by_verdict false there less =
          rw
            (
              script_reply raw task_id new false key s,
              there,
              rescue_script-retry r raw task_id new key s there,
            )
            (omega (arith, less))

  rescue_overdue-Passes :
      (raw : Raw) (t : CrawlRequest) (acc : RescueResult) (s : Store)
      → Passes acc s (rescue_overdue r raw t acc (calm s))
  unfolding rescue_overdue call
  rescue_overdue-Passes raw t acc s = elim (Option-cases (r.marshal_request (retried t))) [
    | inl e ↦ (acc, s, rw (e, rescue_overdue) refl, omega arith)
    | inr (new, e) ↦ (
      _,
      _,
      rw (e, rescue_overdue) refl,
      script-Conserved raw t.task_id new (exceeds_retries (retried t).retry_count) (ip t.ip_id) s
          acc,
    )
  ]

  rescue_task-Passes :
      (started : List (String × Stamp)) (now threshold : ℕ) (raw : Raw) (acc : RescueResult)
      (s : Store)
      → Passes acc s (rescue_task r started now threshold raw acc (calm s))
  unfolding rescue_task
  rescue_task-Passes started now threshold raw acc s =
      elim (Option-cases (r.unmarshal_request raw)) [
        | inl e ↦ (acc, s, rw (e, rescue_task) refl, omega arith)
        | inr (t, e) ↦
            elim (Bool-cases (
              not (str_eq t.task_id "")
              && overdue (field_of t.task_id started) t.created_at now threshold)) [
                | inl late ↦
                    let (acc', s', run, kept) = rescue_overdue-Passes raw t acc s in
                    (acc', s', rw (e, rescue_task, late) run, kept)
                | inr early ↦ (acc, s, rw (e, rescue_task, early) refl, omega arith)
              ]
      ]

  rescue_tasks-Passes :
      (started : List (String × Stamp)) (now threshold : ℕ) (raws : List Raw) (acc : RescueResult)
      (s : Store)
      → Passes acc s (rescue_tasks r started now threshold raws acc (calm s))
  unfolding rescue_tasks
  rescue_tasks-Passes started now threshold [] acc s = (acc, s, refl, omega arith)
  rescue_tasks-Passes started now threshold (raw ∷ rest) acc s =
      let (acc₁, s₁, run₁, kept₁) = rescue_task-Passes started now threshold raw acc s in
      let (acc₂, s₂, run₂, kept₂) = rescue_tasks-Passes started now threshold rest acc₁ s₁ in
      (acc₂, s₂, rw run₁ run₂, omega (arith, kept₁, kept₂))

  clear_started-calm :
      (k : HashKey) (started : List (String × Stamp)) (s : Store)
      → (s' : Store) × (clear_started r k started (calm s) ≡ (ok tt, calm s'))
        × ((view s').lists ≡ (view s).lists)
  unfolding clear_started call
  clear_started-calm k [] s = (s, refl, refl)
  clear_started-calm k ((task_id, stamp) ∷ rest) s =
      let (s', run, same) = clear_started-calm k rest (r.hdel k task_id s) in
      (s', run, same ∙ ap (λ c. c.lists) (r.hdel_law k task_id s))

  rescue_listed-Passes :
      (started : List (String × Stamp)) (now threshold : ℕ) (raws : List Raw) (s : Store)
      → Passes no_rescue s (rescue_listed r started now threshold raws (calm s))
  unfolding rescue_listed
  rescue_listed-Passes started now threshold [] s =
      let (s', run, same) = clear_started-calm task_started started s in
      (no_rescue, s', rw run refl, rw same (omega arith))
  rescue_listed-Passes started now threshold (raw ∷ rest) s =
      rescue_tasks-Passes started now threshold (raw ∷ rest) no_rescue s

  rescue_started-Passes :
      (now threshold : ℕ) (started : List (String × Stamp)) (s : Store)
      → Passes no_rescue s (rescue_started r now threshold started (calm s))
  unfolding rescue_started call
  rescue_started-Passes now threshold [] s = (no_rescue, s, refl, omega arith)
  rescue_started-Passes now threshold (entry ∷ rest) s =
      rescue_listed-Passes (entry ∷ rest) now threshold (r.lrange processing s) s

  -- On a network that does not fail, with a client that is initialized, the janitor's pass over the tasks
  -- ends without an error. The queue grows by the number it reports as rescued,
  -- the dead letters by the number it reports as dead, and processing shrinks by both.
  pub rescue_stuck_tasks_conserves :
      (s : Store) (now threshold : ℕ)
      → (moved : RescueResult) × (s' : Store) × (rescue_stuck_tasks r true now threshold (calm s)
          ≡ (ok moved, calm s'))
        × Conserved no_rescue s moved s'
  unfolding rescue_stuck_tasks call
  rescue_stuck_tasks_conserves s now threshold =
      rescue_started-Passes now threshold (r.hgetall task_started s) s

  -- The contents after a rescue of one task.
  abbrev pub rescued_contents : Bool → Raw → Raw → CrawlRequest → Contents Raw → Contents Raw
  rescued_contents is_dead raw new t c =
      if is_dead
      then cleared r t.task_id (ip t.ip_id) (pushed dead new (taken_from r processing raw c))
      else with_field task_started t.task_id none (pushed tasks new (taken_from r processing raw c))

  script-rescued :
      (raw new : Raw) (t : CrawlRequest) (is_dead : Bool) (s : Store)
      → occurs r.raw_discrete raw ((view s).lists processing) ≡ 1
      → view (rescue_script r raw t.task_id new is_dead (ip t.ip_id) s).1
        ≡ rescued_contents is_dead raw new t (view s)
  script-rescued raw new t true s there =
      rescue_script-dead r raw t.task_id new (ip t.ip_id) s there
  script-rescued raw new t false s there =
      rescue_script-retry r raw t.task_id new (ip t.ip_id) s there

  rescue_overdue_outcome :
      (raw new : Raw) (t : CrawlRequest) (acc : RescueResult) (s : Store)
      → r.marshal_request (retried t) ≡ some new
      → occurs r.raw_discrete raw ((view s).lists processing) ≡ 1
      → let is_dead = exceeds_retries (retried t).retry_count in
        let after = rescue_overdue r raw t acc (calm s) in
        (after.0 ≡ ok (counted is_dead acc))
        × (view after.1.store ≡ rescued_contents is_dead raw new t (view s))
  unfolding rescue_overdue call tally
  rescue_overdue_outcome raw new t acc s e there =
      let is_dead = exceeds_retries (retried t).retry_count in
      rw (e, rescue_overdue)
        (
          rw (script_reply raw t.task_id new is_dead (ip t.ip_id) s, there) refl,
          script-rescued raw new t is_dead s there,
        )

  -- What the pass does with one task that is in processing and can be encoded again. One that has not
  -- run out of time is left alone, on any network. Any other is taken out; within the retry limit it
  -- goes back to the head of the queue with one retry more and stays pending, beyond the limit it
  -- goes to the dead letters and is no longer pending.
  pub rescue_task_outcome :
      (started : List (String × Stamp)) (now threshold : ℕ) (raw new : Raw) (t : CrawlRequest)
      (acc : RescueResult) (s : Store)
      → r.unmarshal_request raw ≡ some t
      → str_eq t.task_id "" ≡ false
      → r.marshal_request (retried t) ≡ some new
      → occurs r.raw_discrete raw ((view s).lists processing) ≡ 1
      → let late = overdue (field_of t.task_id started) t.created_at now threshold in
        let is_dead = exceeds_retries (retried t).retry_count in
        let after = rescue_task r started now threshold raw acc (calm s) in
        (after.0 ≡ ok (if late then counted is_dead acc else acc))
        × (view after.1.store
            ≡ (if late then rescued_contents is_dead raw new t (view s) else view s))
        × (late ≡ false
            → (w : World Store) → rescue_task r started now threshold raw acc w ≡ (ok acc, w))
  unfolding rescue_task
  rescue_task_outcome started now threshold raw new t acc s d i e there =
      elim (Bool-cases (overdue (field_of t.task_id started) t.created_at now threshold)) [
        | inl late ↦
            let (result, after) = rescue_overdue_outcome raw new t acc s e there in
            rw (d, rescue_task, i, late) (result, after, λ no_wait. cc)
        | inr early ↦ rw (d, rescue_task, i, early) (refl, refl, λ _ w. refl)
      ]
