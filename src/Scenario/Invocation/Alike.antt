-- ===== src/Scenario/Invocation/Alike.antt =====
-- Comparing runs of the client's methods whose objects differ in their signer.
use fabric_gateway.Base.{◌≡◌, refl, ap, subst, some, ◌∷◌, Bytes, inl, inr}
use fabric_gateway.Effect.{
  Result, ok, err, Result-cases, continue_with, continue_with_assoc, call_on, ◌>>=◌,
}
use fabric_gateway.Errors.{Thrown, Event, History, M, Method}
use fabric_gateway.Signing.{Signer}
use fabric_gateway.Signing.Signable.{Signable, get_digest}
use fabric_gateway.Transaction.{TransactionImpl}
use fabric_gateway.Commit.{CommitImpl}
use fabric_gateway.Scenario.Invocation.{sign_offline}
use fabric_gateway.Scenario.Invocation.Offline.{with_signer, rebuilt}

-- Two ends of a step: values that are related, or the same error; and the same history.
pub data Like {A B : Type 0} (R : A → B → Type 0)
    : Result Thrown A × History → Result Thrown B × History → Type 0 where
  like_ok : (a : A) (b : B) (h : History) → R a b → Like R (ok a, h) (ok b, h)
  like_err : (x : Thrown) (h : History) → Like R (err x, h) (err x, h)

pub Like-continue :
    {A B C D : Type 0} {R : A → B → Type 0} {Q : C → D → Type 0} {f : A → M C} {g : B → M D}
    {x : Result Thrown A × History} {y : Result Thrown B × History}
    → Like R x y
    → ((a : A) (b : B) (h : History) → R a b → Like Q (f a h) (g b h))
    → Like Q (continue_with f x) (continue_with g y)
Like-continue (like_ok a b h r) k = k a b h r
Like-continue (like_err x h) k = like_err x h

-- Two steps of a chain, against one step.
pub Like-chain :
    {T A B C D : Type 0} {R : A → B → Type 0} {Q : C → D → Type 0} (k : T → M A) (f : A → M C)
    (g : B → M D) (x : Result Thrown T × History) (y : Result Thrown B × History)
    → Like R (continue_with k x) y
    → ((a : A) (b : B) (h : History) → R a b → Like Q (f a h) (g b h))
    → Like Q (continue_with (λ t. k t >>= f) x) (continue_with g y)
Like-chain {Q} k f g x y l n =
    subst (λ z. Like Q z (continue_with g y)) (continue_with_assoc k f x) (Like-continue l n)

pub Like-≡ : {A : Type 0} (x y : Result Thrown A × History) → Like (λ (a b : A). a ≡ b) x y → x ≡ y
Like-≡ x y (like_ok a b h r) = ap (λ c. (ok c, h)) r
Like-≡ x y (like_err e h) = refl

-- The same transaction and commit, with another signer.
abbrev pub transaction_under : Signer → TransactionImpl → TransactionImpl
transaction_under s t = record t { signing_identity = with_signer s t.signing_identity }

abbrev pub commit_under : Signer → CommitImpl → CommitImpl
commit_under s c = record c { signing_identity = with_signer s c.signing_identity }

pub Like-refl : {A : Type 0} (x : Result Thrown A × History) → Like (λ (a b : A). a ≡ b) x x
Like-refl (ok a, h) = like_ok a a h refl
Like-refl (err x, h) = like_err x h

-- An object that is signed off line and then called, against a run that asks the signer.
pub Like-offline :
    (s : Signer) {T A B : Type 0} {R : A → B → Type 0} (o : Signable T) (get_bytes : T → Bytes)
    (new_instance : Bytes → Bytes → Result Thrown T) (m : Method T A) (x : T) (h : History)
    (y : Result Thrown B × History)
    → ((b : Bytes) → new_instance (get_bytes x) b ≡ ok (o.set_signature b x))
    → ((b : Bytes)
        → s h (get_digest o x) ≡ ok b
        → Like R (call_on (o.set_signature b x) m (Event.sign (get_digest o x) ∷ h)) y)
    → ((e : Thrown) → s h (get_digest o x) ≡ err e → y ≡ (err e, Event.sign (get_digest o x) ∷ h))
    → Like R
        (continue_with (λ t. call_on t m) (sign_offline o get_bytes new_instance (some s) x h))
        y
unfolding sign_offline
Like-offline s {R} o get_bytes new_instance m x h y rebuilt signed rejected =
    elim (Result-cases (s h (get_digest o x))) [
      | inl (b, e) ↦ rw e (rw (rebuilt b) (signed b e))
      | inr (z, e) ↦ rw e (rw (rejected z e) (like_err z _))
    ]
