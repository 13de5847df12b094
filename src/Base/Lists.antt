-- ===== src/Base/Lists.antt =====
-- Lists measured and cut by native numbers, and byte strings.
use Prim.Native.Nat.{ℕ, zero, suc, ◌+◌}
use mathlib.Core.Path.{◌≡◌, refl, sym, ap, ◌∙◌}
use mathlib.Core.List.{List, [], ◌∷◌, ◌++◌}
use native.Mathlib.Omega.{arith}

-- The contents of a `Uint8Array` or a `Buffer`.
abbrev pub Bytes : Type 0
Bytes = List ℕ

module _ {ℓ} {A : Type ℓ} where
  abbrev pub length : List A → ℕ
  length [] = 0
  length (x ∷ xs) = suc (length xs)

  abbrev pub take : ℕ → List A → List A
  take zero xs = []
  take (suc n) [] = []
  take (suc n) (x ∷ xs) = x ∷ take n xs

  abbrev pub drop : ℕ → List A → List A
  drop zero xs = xs
  drop (suc n) [] = []
  drop (suc n) (x ∷ xs) = drop n xs

  pub length-append : (xs ys : List A) → length (xs ++ ys) ≡ length xs + length ys
  length-append [] ys = omega arith
  length-append (x ∷ xs) ys = omega (arith, length-append xs ys)

  pub take-append : (xs ys : List A) → take (length xs) (xs ++ ys) ≡ xs
  take-append [] ys = refl
  take-append (x ∷ xs) ys = rw (take-append xs ys)

  pub drop-append : (xs ys : List A) → drop (length xs) (xs ++ ys) ≡ ys
  drop-append [] ys = refl
  drop-append (x ∷ xs) ys = drop-append xs ys

  pub append_cancel_right : (xs ys zs : List A) → xs ++ zs ≡ ys ++ zs → xs ≡ ys
  append_cancel_right xs ys zs e =
      let same : length xs ≡ length ys =
        omega (arith, length-append xs zs, length-append ys zs, ap length e) in
      sym (take-append xs zs)
      ∙ (ap (take (length xs)) e ∙ (ap (λ k. take k (ys ++ zs)) same ∙ take-append ys zs))

-- Every member satisfies a predicate.
abbrev pub All {ℓ κ} : {A : Type ℓ} → (A → Type κ) → List A → Type κ
All P [] = Unit
All P (x ∷ xs) = P x × All P xs

module _ {ℓ κ} {A : Type ℓ} where
  pub All-pick :
      (P : A → Type κ) (before : List A) (p : A) (after : List A)
      → All P (before ++ p ∷ after)
      → P p
  All-pick P [] p after (h, hs) = h
  All-pick P (x ∷ before) p after (h, hs) = All-pick P before p after hs

  pub All-replace :
      (P Q : A → Type κ) (before : List A) (p q : A) (after : List A)
      → ((a : A) → P a → Q a)
      → Q q
      → All P (before ++ p ∷ after)
      → All Q (before ++ q ∷ after)
  All-replace P Q [] p q after f k (h, hs) = (k, All-weaken after hs)
    where
      All-weaken : (xs : List A) → All P xs → All Q xs
      All-weaken [] hs = tt
      All-weaken (x ∷ xs) (h, hs) = (f x h, All-weaken xs hs)
  All-replace P Q (x ∷ before) p q after f k (h, hs) =
      (f x h, All-replace P Q before p q after f k hs)

abbrev pub repeat {ℓ} : {A : Type ℓ} → ℕ → A → List A
repeat zero a = []
repeat (suc n) a = a ∷ repeat n a
