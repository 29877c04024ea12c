-- ===== src/Scheduler/Refresh.antt =====
-- `RefreshActiveIPs` of internal/scheduler/ip_scheduler.go on a network that does not fail.
use animehot.Common.{
  ℕ, ◌≡◌, refl, sym, subst, ap, ◌∙◌, ◌<◌, ◌^◌, ◌||◌, inl, inr, Bool, true, false, Option, none,
  some, List, [], ◌∷◌, ◌==◌, ==_iff, if◌then◌else◌, Bool-cases,
}
use animehot.Queue.Messages.{ok}
use animehot.Queue.Network.{calm, call, continue_with, ◌>>=◌, return, ignore}
use animehot.Queue.Pairs.{on_left}
use animehot.Schedule.Operations.{time_of, schedule, remove, get_all, get_schedule_time, all_times}
use animehot.Schedule.Laws.{AreIds, planned}
use animehot.Schedule.Planned.{scheduled, removed, planned-scheduled, planned-removed}
use animehot.Schedule.Ids.{
  AreBelow, scheduled-AreIds, time_in, time_in-all_times, all_times-AreBelow,
}
use animehot.Scheduler.Settings.{IpScheduler, IpMetadata, unix, active_ips}
use animehot.Scheduler.Requests.{
  get_active_ips, schedule_at, schedule_if_new, schedule_new, in_active_set, remove_inactive,
  refresh_active_ips,
}

module _ (s : IpScheduler) where
  open s use {schedule_store, queue, weights, db, clock}

  -- The ids of a table are numbers of 64 bits.
  abbrev pub HasIds : List (IpMetadata weights) → Type 0
  HasIds [] = Unit {0}
  HasIds (ip ∷ ips) = (ip.id < 2 ^ 64) × HasIds ips

  -- The time that is kept, or the time at which the IP is handled.
  abbrev pub kept_or_now : ℕ → Option ℕ → ℕ
  kept_or_now id none = unix (clock id)
  kept_or_now id (some t) = t

  abbrev pub listed : ℕ → List (IpMetadata weights) → Bool
  listed id ips = in_active_set (λ ip. ip.id) id ips

  abbrev add_new : ℕ → Option ℕ → schedule_store.Store → schedule_store.Store
  add_new id none a = scheduled schedule_store id (unix (clock id)) a
  add_new id (some t) a = a

  schedule_if_new-calm :
      (id : ℕ) (old : Option ℕ) (a : schedule_store.Store) (b : queue.Store)
      → schedule_if_new s id (time_of old) (calm (a, b)) ≡ (ok tt, calm (add_new id old a, b))
  unfolding schedule_if_new schedule_at on_left schedule call
  schedule_if_new-calm id none a b = refl
  schedule_if_new-calm id (some t) a b = refl

  chosen : (i j : ℕ) (x y : Option ℕ) → (i == j) ≡ true → (if i == j then x else y) ≡ x
  chosen i j x y h = ap (λ b. if b then x else y) h

  passed : (i j : ℕ) (x y : Option ℕ) → (i == j) ≡ false → (if i == j then x else y) ≡ y
  passed i j x y h = ap (λ b. if b then x else y) h

  add_new-AreIds :
      (id : ℕ) (old : Option ℕ) (a : schedule_store.Store)
      → id < 2 ^ 64
      → AreIds schedule_store (schedule_store.entries a)
      → AreIds schedule_store (schedule_store.entries (add_new id old a))
  add_new-AreIds id none a l k = scheduled-AreIds schedule_store id (unix (clock id)) a l k
  add_new-AreIds id (some t) a l k = k

  planned-add_new :
      (id other : ℕ) (old : Option ℕ) (a : schedule_store.Store)
      → id < 2 ^ 64
      → other < 2 ^ 64
      → planned schedule_store id a ≡ old
      → planned schedule_store other (add_new id old a) ≡ (
          if other == id
          then some (kept_or_now other (planned schedule_store other a))
          else planned schedule_store other a)
  planned-add_new id other none a l m e = elim (Bool-cases (other == id)) [
    | inl h ↦
        let same : other ≡ id = (==_iff other id).0 h in
        planned-scheduled schedule_store id (unix (clock id)) other a l m
        ∙ chosen other id (some (unix (clock id))) _ h
        ∙ ap (λ o. some (kept_or_now id o)) (sym e)
        ∙ ap (λ i. some (kept_or_now i (planned schedule_store i a))) (sym same)
        ∙ sym (chosen other id _ (planned schedule_store other a) h)
    | inr h ↦
        planned-scheduled schedule_store id (unix (clock id)) other a l m
        ∙ passed other id (some (unix (clock id))) _ h
        ∙ sym (passed other id _ (planned schedule_store other a) h)
  ]
  planned-add_new id other (some t) a l m e = elim (Bool-cases (other == id)) [
    | inl h ↦
        subst (λ i. planned schedule_store i a ≡ some (kept_or_now i (planned schedule_store i a)))
          (sym ((==_iff other id).0 h)) (e ∙ ap (λ o. some (kept_or_now id o)) (sym e))
        ∙ sym (chosen other id _ (planned schedule_store other a) h)
    | inr h ↦ sym (passed other id _ (planned schedule_store other a) h)
  ]

  abbrev kept_if : Bool → ℕ → Option ℕ → Option ℕ
  kept_if b id p = if b then some (kept_or_now id p) else p

  kept_twice :
      (x y : Bool) (id : ℕ) (p : Option ℕ) → kept_if y id (kept_if x id p) ≡ kept_if (x || y) id p
  kept_twice true true id p = refl
  kept_twice true false id p = refl
  kept_twice false true id p = refl
  kept_twice false false id p = refl

  -- What the loop over the active IPs leaves.
  pub schedule_new-calm :
      (ips : List (IpMetadata weights)) (a : schedule_store.Store) (b : queue.Store)
      → HasIds ips
      → AreIds schedule_store (schedule_store.entries a)
      → (a' : schedule_store.Store) × (schedule_new s ips (calm (a, b)) ≡ (ok tt, calm (a', b)))
        × AreIds schedule_store (schedule_store.entries a')
        × ((id : ℕ)
            → id < 2 ^ 64
            → planned schedule_store id a' ≡ (
                if listed id ips
                then some (kept_or_now id (planned schedule_store id a))
                else planned schedule_store id a))
  unfolding schedule_new get_schedule_time on_left call in_active_set
  schedule_new-calm [] a b i k = (a, refl, k, λ id l. refl)
  schedule_new-calm (ip ∷ ips) a b (i, is) k =
      let old : Option ℕ = schedule_store.zscore (schedule_store.format_uint ip.id) a in
      let e : planned schedule_store ip.id a ≡ old =
        sym (schedule_store.zscore_law (schedule_store.format_uint ip.id) a) in
      let (a', run, k', f) =
        schedule_new-calm ips (add_new ip.id old a) b is (add_new-AreIds ip.id old a i k) in
      (
        a',
        ap (λ o. continue_with o (λ _. schedule_new s ips)) (schedule_if_new-calm ip.id old a b)
            ∙ run,
        k',
        λ id l.
            f id l
            ∙ ap (kept_if (listed id ips) id) (planned-add_new ip.id id old a i l e)
            ∙ kept_twice (id == ip.id) (listed id ips) id (planned schedule_store id a),
      )

  abbrev cleared_by : Option ℕ → Option ℕ → Option ℕ
  cleared_by none p = p
  cleared_by (some t) p = none

  removal_step :
      (same li lid : Bool) (rest p : Option ℕ) (t : ℕ)
      → (same ≡ true → lid ≡ li)
      → let p' = if li then p else if same then none else p in
        (if lid then p' else cleared_by rest p')
        ≡ (if lid then p else cleared_by (if same then some t else rest) p)
  removal_step true true true rest p t h = refl
  removal_step true true false rest p t h = cc (h refl)
  removal_step true false true rest p t h = cc (h refl)
  removal_step true false false none p t h = refl
  removal_step true false false (some u) p t h = refl
  removal_step false true lid rest p t h = refl
  removal_step false false lid rest p t h = refl

  abbrev removed_unless : Bool → ℕ → schedule_store.Store → schedule_store.Store
  removed_unless b i a = if b then a else removed schedule_store i a

  planned-removed_unless :
      (b : Bool) (i id : ℕ) (a : schedule_store.Store)
      → i < 2 ^ 64
      → id < 2 ^ 64
      → planned schedule_store id (removed_unless b i a) ≡ (
          if b
          then planned schedule_store id a
          else if id == i
          then none
          else planned schedule_store id a)
  planned-removed_unless true i id a l m = refl
  planned-removed_unless false i id a l m = planned-removed schedule_store i id a l m

  unless-calm :
      (b : Bool) (i : ℕ) (a : schedule_store.Store) (q : queue.Store)
      → (if b then return tt else ignore (on_left (remove schedule_store i))) (calm (a, q))
        ≡ (ok tt, calm (removed_unless b i a, q))
  unfolding on_left remove call
  unless-calm true i a q = refl
  unless-calm false i a q = refl

  -- What the loop over all scheduled IPs leaves.
  remove_inactive-calm :
      (active : List (IpMetadata weights)) (all : List (ℕ × ℕ)) (a : schedule_store.Store)
      (b : queue.Store)
      → AreBelow schedule_store all
      → (a' : schedule_store.Store) × (remove_inactive s active all (calm (a, b))
          ≡ (ok tt, calm (a', b)))
        × ((id : ℕ)
            → id < 2 ^ 64
            → planned schedule_store id a' ≡ (
                if listed id active
                then planned schedule_store id a
                else cleared_by (time_in schedule_store id all) (planned schedule_store id a)))
  unfolding remove_inactive
  remove_inactive-calm active [] a b i = (a, refl, λ id l. either (listed id active) _)
    where
      either : (c : Bool) (p : Option ℕ) → p ≡ (if c then p else p)
      either true p = refl
      either false p = refl
  remove_inactive-calm active ((i, t) ∷ all) a b (l, ls) =
      let (a', run, f) =
        remove_inactive-calm active all (removed_unless (listed i active) i a) b ls in
      (
        a',
        ap (λ o. continue_with o (λ _. remove_inactive s active all))
              (unless-calm (listed i active) i a b)
            ∙ run,
        λ id m.
            f id m
            ∙ ap (λ p. if listed id active then p else cleared_by (time_in schedule_store id all) p)
                (planned-removed_unless (listed i active) i id a l m)
            ∙ removal_step (id == i) (listed i active) (listed id active)
                (time_in schedule_store id all) (planned schedule_store id a) t
                (λ h. ap (λ n. listed n active) ((==_iff id i).0 h)),
      )

  -- On a network that does not fail, with a schedule and a table whose ids are numbers of 64 bits:
  -- after `RefreshActiveIPs` the schedule holds the active IPs and no other. Those that were scheduled
  -- keep their times, and the others have the time at which they were handled. The queue is unchanged.
  pub refresh_active_ips_lem :
      (a : schedule_store.Store) (b : queue.Store)
      → HasIds (active_ips weights db)
      → AreIds schedule_store (schedule_store.entries a)
      → (a' : schedule_store.Store) × (refresh_active_ips s (calm (a, b)) ≡ (ok tt, calm (a', b)))
        × ((id : ℕ)
            → id < 2 ^ 64
            → planned schedule_store id a' ≡ (
                if listed id (active_ips weights db)
                then some (kept_or_now id (planned schedule_store id a))
                else none))
  unfolding refresh_active_ips get_active_ips get_all on_left call
  refresh_active_ips_lem a b i k =
      let active = active_ips weights db in
      let (a₁, run₁, k₁, f₁) = schedule_new-calm active a b i k in
      let es = schedule_store.entries a₁ in
      let (a₂, run₂, f₂) =
        remove_inactive-calm active (all_times schedule_store es) a₁ b
          (all_times-AreBelow schedule_store es k₁) in
      (
        a₂,
        ap
              (λ o.
                continue_with o
                  (λ _. on_left (get_all schedule_store) >>= remove_inactive s active))
              run₁
            ∙ run₂,
        λ id l.
            f₂ id l
            ∙ ap
                (λ o.
                  if listed id active
                  then planned schedule_store id a₁
                  else cleared_by o (planned schedule_store id a₁))
                (time_in-all_times schedule_store es id l k₁)
            ∙ settled (listed id active) id (planned schedule_store id a)
                (planned schedule_store id a₁) (f₁ id l),
      )
    where
      settled :
          (b : Bool) (id : ℕ) (p q : Option ℕ)
          → q ≡ (if b then some (kept_or_now id p) else p)
          → (if b then q else cleared_by (time_of q) q)
            ≡ (if b then some (kept_or_now id p) else none)
      settled true id p q e = e
      settled false id p none e = refl
      settled false id p (some t) e = refl
