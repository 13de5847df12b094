-- ===== src/Effect.antt =====
-- What a call of the program does: it ends with a value or throws, and it changes a state, which
-- stays changed when it throws. The state of a method is its object and the history of the calls
-- made so far to code outside the program (node/src/*.ts; a rejected promise is a throw).
pub mod Made
pub mod Keeps
pub mod Whole
use fabric_gateway.Base.{◌≡◌, refl, ◌⊎◌, inl, inr}

-- How a call ends.
pub data Result {ℓ κ} (E : Type ℓ) (A : Type κ) : Type (ℓ ⊔ κ) where
  ok : A → Result E A
  err : E → Result E A

-- `abbrev`, so that a chain computes wherever it stands.
abbrev pub then_result {ℓ κ μ} :
    {E : Type ℓ} {A : Type κ} {B : Type μ} → Result E A → (A → Result E B) → Result E B
then_result (ok a) f = f a
then_result (err e) f = err e

abbrev pub map_err {ℓ κ μ} :
    {E : Type ℓ} {F : Type κ} {A : Type μ} → (E → F) → Result E A → Result F A
map_err f (ok a) = ok a
map_err f (err e) = err (f e)

-- A step on a state of type `S`.
abbrev pub Step : Type 0 → Type 0 → Type 0 → Type 0
Step E S A = S → Result E A × S

module _ {E S : Type 0} where
  abbrev pub pure : {A : Type 0} → A → Step E S A
  pure a s = (ok a, s)

  abbrev pub throw : {A : Type 0} → E → Step E S A
  throw e s = (err e, s)

  -- A computation that leaves the state alone.
  abbrev pub of_result : {A : Type 0} → Result E A → Step E S A
  of_result r s = (r, s)

  -- What follows a step that has ended.
  abbrev pub continue_with : {A B : Type 0} → (A → Step E S B) → Result E A × S → Result E B × S
  continue_with f (ok a, s) = f a s
  continue_with f (err e, s) = (err e, s)

  infixl 5 ◌>>=◌ ◌>>◌
  abbrev pub ◌>>=◌ : {A B : Type 0} → Step E S A → (A → Step E S B) → Step E S B
  ◌>>=◌ m f s = continue_with f (m s)

  abbrev pub ◌>>◌ : {A B : Type 0} → Step E S A → Step E S B → Step E S B
  m >> k = m >>= λ _. k

  pub continue_with_assoc :
      {A B C : Type 0} (f : A → Step E S B) (g : B → Step E S C) (r : Result E A × S)
      → continue_with g (continue_with f r) ≡ continue_with (λ a. f a >>= g) r
  continue_with_assoc f g (ok a, s) = refl
  continue_with_assoc f g (err e, s) = refl

  abbrev pub gets : {A : Type 0} → (S → A) → Step E S A
  gets f s = (ok (f s), s)

  abbrev pub modify : (S → S) → Step E S (Unit {0})
  modify f s = (ok tt, f s)

-- A method of an object `T`, run as a step that also sees the history `H`.
abbrev pub on_history : {E T H A : Type 0} → Step E H A → Step E (T × H) A
on_history m (t, h) = let (r, h') = m h in (r, (t, h'))

-- A method call on a fresh object, which nothing else refers to.
abbrev pub call_on : {E T H A : Type 0} → T → Step E (T × H) A → Step E H A
call_on t m h = let (r, (_, h')) = m (t, h) in (r, h')

pub Result-cases :
    {E A : Type 0} (r : Result E A) → ((a : A) × (r ≡ ok a)) ⊎ ((e : E) × (r ≡ err e))
Result-cases (ok a) = inl (a, refl)
Result-cases (err e) = inr (e, refl)
