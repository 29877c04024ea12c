-- ===== src/Queue/Pairs.antt =====
-- Operations on two servers behind one network: each call meets the next fate, whichever server it
-- goes to. And operations that leave a calm network calm.
use animehot.Common.{◌≡◌, refl, sym, subst, ap, []}
use animehot.Queue.Messages.{Result, ok, err}
use animehot.Queue.Network.{World, calm, M, attempt, call, ◌>>=◌, continue_with, Keeps}

module _ {S T : Type 0} where
  abbrev rejoin_left : {A : Type 0} → T → Result A × World S → Result A × World (S × T)
  rejoin_left t (res, w) = (res, record { store = (w.store, t); fates = w.fates })

  abbrev rejoin_right : {A : Type 0} → S → Result A × World T → Result A × World (S × T)
  rejoin_right s (res, w) = (res, record { store = (s, w.store); fates = w.fates })

  -- An operation on the first server, and on the second.
  unfoldable pub on_left : {A : Type 0} → M S A → M (S × T) A
  on_left m w = rejoin_left w.store.1 (m (record { store = w.store.0; fates = w.fates }))

  unfoldable pub on_right : {A : Type 0} → M T A → M (S × T) A
  on_right m w = rejoin_right w.store.0 (m (record { store = w.store.1; fates = w.fates }))

  -- Each leaves the other server alone.
  pub on_left-Keeps {ℓ} :
      {A : Type 0} (P : T → Type ℓ) (m : M S A) → Keeps (λ (s : S × T). P s.1) (on_left m)
  unfolding on_left
  on_left-Keeps P m w p = p

  pub on_right-Keeps {ℓ} :
      {A : Type 0} (P : T → Type ℓ) (m : M T A)
      → Keeps P m
      → Keeps (λ (s : S × T). P s.1) (on_right m)
  unfolding on_right
  on_right-Keeps P m h w p = h (record { store = w.store.1; fates = w.fates }) p

  -- On a calm network.
  pub on_left-calm :
      {A : Type 0} (m : M S A) (s s' : S) (t : T) (a : Result A)
      → m (calm s) ≡ (a, calm s')
      → on_left m (calm (s, t)) ≡ (a, calm (s', t))
  unfolding on_left
  on_left-calm m s s' t a e = ap (rejoin_left t) e

  pub on_right-calm :
      {A : Type 0} (m : M T A) (s : S) (t t' : T) (a : Result A)
      → m (calm t) ≡ (a, calm t')
      → on_right m (calm (s, t)) ≡ (a, calm (s, t'))
  unfolding on_right
  on_right-calm m s t t' a e = ap (rejoin_right s) e

module _ {S : Type 0} where
  -- The operation meets no fate and leaves none behind.
  abbrev pub StaysCalm : {A : Type 0} → M S A → Type 0
  StaysCalm m = (s : S) → (m (calm s)).1.fates ≡ []

  pub call-StaysCalm : {A : Type 0} (f : S → A × S) → StaysCalm (call f)
  unfolding call
  call-StaysCalm f s = refl

  continue-StaysCalm :
      {A B : Type 0} (o : Result A × World S) (f : A → M S B)
      → ((a : A) → StaysCalm (f a))
      → o.1.fates ≡ []
      → (continue_with o f).1.fates ≡ []
  continue-StaysCalm (ok a, w) f h e =
      subst (λ fs. (f a (record { store = w.store; fates = fs })).1.fates ≡ []) (sym e)
        (h a w.store)
  continue-StaysCalm (err e', w) f h e = e

  pub >>=-StaysCalm :
      {A B : Type 0} (m : M S A) (f : A → M S B)
      → StaysCalm m
      → ((a : A) → StaysCalm (f a))
      → StaysCalm (m >>= f)
  >>=-StaysCalm m f h k s = continue-StaysCalm (m (calm s)) f k (h s)

  pub attempt-StaysCalm : {A : Type 0} (m : M S A) → StaysCalm m → StaysCalm (attempt m)
  attempt-StaysCalm m h s = h s

  -- The outcome of an operation that stays calm.
  pub calm_outcome :
      {A : Type 0} (m : M S A) (s : S)
      → StaysCalm m
      → m (calm s) ≡ ((m (calm s)).0, calm (m (calm s)).1.store)
  calm_outcome m s h =
      ap (λ fs. ((m (calm s)).0, record { store = (m (calm s)).1.store; fates = fs })) (h s)
