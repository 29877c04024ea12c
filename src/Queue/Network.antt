-- ===== src/Queue/Network.antt =====
-- Calls of the Redis server over a network that may fail, and the monad of the client's operations.
-- Each call meets one fate of a given sequence, which stands for every way the network can behave.
-- A Lua script is one call: the server runs it as a whole.
use animehot.Common.{◌≡◌, refl, if◌then◌else◌, Bool, true, false, Option, none, some, List, [], ◌∷◌}
use animehot.Queue.Messages.{Error, redis_error, Result, ok, err}

-- A call works, or is lost before the server runs it, or is run and its reply is lost.
pub data Fate : Type 0 where
  delivered lost_request lost_reply : Fate

pub record World (S : Type 0) : Type 0 where
  pub store : S
  pub fates : List Fate

-- A server behind a network that does not fail.
abbrev pub calm : {S : Type 0} → S → World S
calm s = record { store = s; fates = [] }

abbrev pub M : Type 0 → Type 0 → Type 0
M S A = World S → Result A × World S

module _ {S : Type 0} where
  abbrev pub return : {A : Type 0} → A → M S A
  return a w = (ok a, w)

  abbrev pub fail : {A : Type 0} → Error → M S A
  fail e w = (err e, w)

  abbrev pub continue_with : {A B : Type 0} → Result A × World S → (A → M S B) → Result B × World S
  continue_with (ok a, w) f = f a w
  continue_with (err e, w) f = (err e, w)

  infixl 5 ◌>>=◌ ◌>>◌
  abbrev pub ◌>>=◌ : {A B : Type 0} → M S A → (A → M S B) → M S B
  ◌>>=◌ m f w = continue_with (m w) f

  abbrev pub ◌>>◌ : {B : Type 0} → M S (Unit {0}) → M S B → M S B
  m >> k = m >>= λ _. k

  -- `if !cond { return err }`
  abbrev pub guard : Bool → Error → M S (Unit {0})
  guard true e = return tt
  guard false e = fail e

  -- `if x == nil { return err }`
  abbrev pub required : {A : Type 0} → Option A → Error → M S A
  required none e = fail e
  required (some a) e = return a

  abbrev pub outcome : {A : Type 0} → Result A × World S → Result (Result A) × World S
  outcome (res, w) = (ok res, w)

  -- A call whose error the caller looks at itself.
  abbrev pub attempt : {A : Type 0} → M S A → M S (Result A)
  attempt m w = outcome (m w)

  -- A call whose error the caller ignores.
  abbrev pub ignore : {A : Type 0} → M S A → M S (Unit {0})
  ignore m = attempt m >>= λ _. return tt

  abbrev pub transmit : {A : Type 0} → (S → A × S) → S → List Fate → Result A × World S
  transmit f s [] = (ok (f s).0, record { store = (f s).1; fates = [] })
  transmit f s (Fate.delivered ∷ fs) = (ok (f s).0, record { store = (f s).1; fates = fs })
  transmit f s (Fate.lost_request ∷ fs) = (err redis_error, record { store = s; fates = fs })
  transmit f s (Fate.lost_reply ∷ fs) = (err redis_error, record { store = (f s).1; fates = fs })

  unfoldable pub call : {A : Type 0} → (S → A × S) → M S A
  call f w = transmit f w.store w.fates

  -- A command that changes the store and whose reply is not used.
  abbrev pub update : (S → S) → M S (Unit {0})
  update f = call λ s. (tt, f s)

  -- A command that only reads.
  abbrev pub query : {A : Type 0} → (S → A) → M S A
  query f = call λ s. (f s, s)

  -- Whatever the network does, the operation preserves a property of the store.
  abbrev pub Keeps {ℓ} : {A : Type 0} → (S → Type ℓ) → M S A → Type ℓ
  Keeps P m = (w : World S) → P w.store → P (m w).1.store

transmit-Keeps {ℓ} :
    {S A : Type 0} (P : S → Type ℓ) (f : S → A × S) (s : S) (fs : List Fate)
    → P s
    → P (f s).1
    → P (transmit f s fs).1.store
transmit-Keeps P f s [] before after = after
transmit-Keeps P f s (Fate.delivered ∷ fs) before after = after
transmit-Keeps P f s (Fate.lost_request ∷ fs) before after = before
transmit-Keeps P f s (Fate.lost_reply ∷ fs) before after = after

module _ {S : Type 0} where
  pub call-Keeps {ℓ} :
      {A : Type 0} (P : S → Type ℓ) (f : S → A × S) → ((s : S) → P s → P (f s).1) → Keeps P (call f)
  unfolding call
  call-Keeps P f h w p = transmit-Keeps P f w.store w.fates p (h w.store p)

  continue_with-Keeps {ℓ} :
      {A B : Type 0} (P : S → Type ℓ) (o : Result A × World S) (f : A → M S B)
      → ((a : A) → Keeps P (f a))
      → P o.1.store
      → P (continue_with o f).1.store
  continue_with-Keeps P (ok a, w) f h p = h a w p
  continue_with-Keeps P (err e, w) f h p = p

  pub >>=-Keeps {ℓ} :
      {A B : Type 0} (P : S → Type ℓ) (m : M S A) (f : A → M S B)
      → Keeps P m
      → ((a : A) → Keeps P (f a))
      → Keeps P (m >>= f)
  >>=-Keeps P m f h k w p = continue_with-Keeps P (m w) f k (h w p)

  pub guard-Keeps {ℓ} : (P : S → Type ℓ) (b : Bool) (e : Error) → Keeps {A = Unit {0}} P (guard b e)
  guard-Keeps P true e w p = p
  guard-Keeps P false e w p = p

  pub required-Keeps {ℓ} :
      {A : Type 0} (P : S → Type ℓ) (o : Option A) (e : Error) → Keeps P (required o e)
  required-Keeps P none e w p = p
  required-Keeps P (some a) e w p = p

  pub attempt-Keeps {ℓ} :
      {A : Type 0} (P : S → Type ℓ) (m : M S A) → Keeps P m → Keeps P (attempt m)
  attempt-Keeps P m h w p = h w p

  pub query-Keeps {ℓ} : {A : Type 0} (P : S → Type ℓ) (f : S → A) → Keeps P (query f)
  query-Keeps P f = call-Keeps P (λ s. (f s, s)) (λ s p. p)

  -- The same rules for a chain whose later part needs what the earlier part has found out.
  pub required->>=-Keeps {ℓ} :
      {A B : Type 0} (P : S → Type ℓ) (o : Option A) (e : Error) (f : A → M S B)
      → ((a : A) → o ≡ some a → Keeps P (f a))
      → Keeps P (required o e >>= f)
  required->>=-Keeps P none e f h w p = p
  required->>=-Keeps P (some a) e f h w p = h a refl w p

  pub guard->>-Keeps {ℓ} :
      {B : Type 0} (P : S → Type ℓ) (b : Bool) (e : Error) (m : M S B)
      → Keeps P m
      → Keeps P (guard b e >> m)
  guard->>-Keeps P true e m h w p = h w p
  guard->>-Keeps P false e m h w p = p

  pub attempt->>=-Keeps {ℓ} :
      {A B : Type 0} (P : S → Type ℓ) (m : M S A) (f : Result A → M S B)
      → Keeps P m
      → ((a : Result A) → Keeps P (f a))
      → Keeps P (attempt m >>= f)
  attempt->>=-Keeps P m f h k w p = k (m w).0 (m w).1 (h w p)

  pub if-Keeps {ℓ} :
      {A : Type 0} (P : S → Type ℓ) (b : Bool) (m n : M S A)
      → Keeps P m
      → Keeps P n
      → Keeps P (if b then m else n)
  if-Keeps P true m n h k = h
  if-Keeps P false m n h k = k

  pub ignore-Keeps {ℓ} : {A : Type 0} (P : S → Type ℓ) (m : M S A) → Keeps P m → Keeps P (ignore m)
  ignore-Keeps P m h = attempt->>=-Keeps P m (λ _. return tt) h (λ _ w p. p)

  -- At one world, for a call that keeps the property only there.
  abbrev pub KeepsAt {ℓ} : {A : Type 0} → (S → Type ℓ) → World S → M S A → Type ℓ
  KeepsAt P w m = P w.store → P (m w).1.store

  pub guard->>-KeepsAt {ℓ} :
      {B : Type 0} (P : S → Type ℓ) (w : World S) (b : Bool) (e : Error) (m : M S B)
      → KeepsAt P w m
      → KeepsAt P w (guard b e >> m)
  guard->>-KeepsAt P w true e m h p = h p
  guard->>-KeepsAt P w false e m h p = p

  pub call->>=-KeepsAt {ℓ} :
      {A B : Type 0} (P : S → Type ℓ) (w : World S) (f : S → A × S) (g : A → M S B)
      → (P w.store → P (f w.store).1)
      → ((a : A) → Keeps P (g a))
      → KeepsAt P w (call f >>= g)
  unfolding call
  call->>=-KeepsAt P w f g h k p =
      continue_with-Keeps P (call f w) g k (transmit-Keeps P f w.store w.fates p (h p))

  pub call-KeepsAt {ℓ} :
      {A : Type 0} (P : S → Type ℓ) (w : World S) (f : S → A × S)
      → (P w.store → P (f w.store).1)
      → KeepsAt P w (call f)
  unfolding call
  call-KeepsAt P w f h p = transmit-Keeps P f w.store w.fates p (h p)

  pub required->>=-KeepsAt {ℓ} :
      {A B : Type 0} (P : S → Type ℓ) (w : World S) (o : Option A) (e : Error) (f : A → M S B)
      → ((a : A) → o ≡ some a → KeepsAt P w (f a))
      → KeepsAt P w (required o e >>= f)
  required->>=-KeepsAt P w none e f h p = p
  required->>=-KeepsAt P w (some a) e f h p = h a refl p
