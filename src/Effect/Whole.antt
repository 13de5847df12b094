-- ===== src/Effect/Whole.antt =====
-- Properties of the whole state of a step, where the state is more than an object and a history.
use fabric_gateway.Base.{◌≡◌, refl, sym, ap, subst, List, [], ◌∷◌}
use fabric_gateway.Effect.{Result, ok, err, Step, continue_with, pure, ◌>>=◌, ◌>>◌}

-- `for (const a of list) { … }`
abbrev pub for_each : {E S A : Type 0} → (A → Step E S (Unit {0})) → List A → Step E S (Unit {0})
for_each f [] = pure tt
for_each f (a ∷ items) = f a >> for_each f items

-- A step whose value is not used.
abbrev pub without_value : {E S A : Type 0} → Result E A × S → Result E (Unit {0}) × S
without_value (ok a, s) = (ok tt, s)
without_value (err e, s) = (err e, s)

unfoldable pub discard : {E S A : Type 0} → Step E S A → Step E S (Unit {0})
discard m s = without_value (m s)

state-without_value : {E S A : Type 0} (x : Result E A × S) → (without_value x).1 ≡ x.1
state-without_value (ok a, s) = refl
state-without_value (err e, s) = refl

module _ {E S : Type 0} (P : S → Type 0) where
  -- However the step ends.
  pub record Preserves {A : Type 0} (m : Step E S A) : Type 0 where
    pub at : (s : S) → P s → P (m s).1

  -- Where the step returns.
  pub record Ensures {A : Type 0} (m : Step E S A) : Type 0 where
    pub at : (s : S) (a : A) (s' : S) → m s ≡ (ok a, s') → P s'

module _ {E S : Type 0} {P : S → Type 0} where
  preserved_after :
      {A B : Type 0} (f : A → Step E S B) (x : Result E A × S)
      → P x.1
      → ((a : A) → Preserves P (f a))
      → P (continue_with f x).1
  preserved_after f (ok a, s) p k = (k a).at s p
  preserved_after f (err e, s) p k = p

  pub Preserves->>= :
      {A B : Type 0} {m : Step E S A} {f : A → Step E S B}
      → Preserves P m
      → ((a : A) → Preserves P (f a))
      → Preserves P (m >>= f)
  Preserves->>= {m} {f} km kf = record { at = λ s p. preserved_after f (m s) (km.at s p) kf }

  pub Preserves-of_result : {A : Type 0} (r : S → Result E A) → Preserves P (λ s. (r s, s))
  Preserves-of_result r = record { at = λ s p. p }

  pub Preserves-for_each :
      {A : Type 0} (f : A → Step E S (Unit {0})) (items : List A)
      → ((a : A) → Preserves P (f a))
      → Preserves P (for_each f items)
  Preserves-for_each f [] k = record { at = λ s p. p }
  Preserves-for_each f (a ∷ items) k = Preserves->>= (k a) (λ _. Preserves-for_each f items k)

  pub Preserves-discard : {A : Type 0} {m : Step E S A} → Preserves P m → Preserves P (discard m)
  unfolding discard
  Preserves-discard {m} k = record {
    at = λ s p. subst P (sym (state-without_value (m s))) (k.at s p);
  }

  pub Ensures-end : {A : Type 0} {m : Step E S A} → ((s : S) → P (m s).1) → Ensures P m
  Ensures-end {m} k = record { at = λ s a s' e. subst P (ap (λ y. y.1) e) (k s) }

  ensured_after :
      {A B : Type 0} (f : A → Step E S B) (x : Result E A × S)
      → ((a : A) → Ensures P (f a))
      → (b : B) (s' : S) → continue_with f x ≡ (ok b, s')
      → P s'
  ensured_after f (ok a, s) k b s' e = (k a).at s b s' e
  ensured_after f (err x, s) k b s' e = cc

  pub Ensures->>= :
      {A B : Type 0} (m : Step E S A) {f : A → Step E S B}
      → ((a : A) → Ensures P (f a))
      → Ensures P (m >>= f)
  Ensures->>= m {f} k = record { at = λ s b s' e. ensured_after f (m s) k b s' e }

-- From a state with one property, a step that returns leads to one with another.
pub record Leads {E S A : Type 0} (P Q : S → Type 0) (m : Step E S A) : Type 0 where
  pub at : (s : S) → P s → (a : A) (s' : S) → m s ≡ (ok a, s') → Q s'

led_after :
    {E S A B : Type 0} {Q R : S → Type 0} (f : A → Step E S B) (x : Result E A × S)
    → ((a : A) (s : S) → x ≡ (ok a, s) → Q s)
    → ((a : A) → Leads Q R (f a))
    → (b : B) (s' : S) → continue_with f x ≡ (ok b, s')
    → R s'
led_after f (ok a, s) h k b s' e = (k a).at s (h a s refl) b s' e
led_after f (err x, s) h k b s' e = cc

led_without_value :
    {E S A : Type 0} {Q : S → Type 0} (x : Result E A × S)
    → ((a : A) (s : S) → x ≡ (ok a, s) → Q s)
    → (s' : S) → without_value x ≡ (ok tt, s')
    → Q s'
led_without_value {Q} (ok a, s) h s' e = subst Q (ap (λ y. y.1) e) (h a s refl)
led_without_value (err x, s) h s' e = cc

module _ {E S : Type 0} {P Q : S → Type 0} where
  pub Leads->>= :
      {R : S → Type 0} {A B : Type 0} {m : Step E S A} {f : A → Step E S B}
      → Leads P Q m
      → ((a : A) → Leads Q R (f a))
      → Leads P R (m >>= f)
  Leads->>= {m} {f} h k = record { at = λ s p. led_after f (m s) (h.at s p) k }

  pub Leads-discard : {A : Type 0} {m : Step E S A} → Leads P Q m → Leads P Q (discard m)
  unfolding discard
  Leads-discard {m} h = record { at = λ s p a s' e. led_without_value (m s) (h.at s p) s' e }

  pub Leads-end : {A : Type 0} {m : Step E S A} → ((s : S) → P s → Q (m s).1) → Leads P Q m
  Leads-end {m} k = record { at = λ s p a s' e. subst Q (ap (λ y. y.1) e) (k s p) }

pub Leads-keep : {E S A : Type 0} {P : S → Type 0} {m : Step E S A} → Preserves P m → Leads P P m
Leads-keep {P} {m} k = record { at = λ s p a s' e. subst P (ap (λ y. y.1) e) (k.at s p) }
