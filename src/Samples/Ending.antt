-- ===== src/Samples/Ending.antt =====
-- Rules for the sessions of a security module that a sample application leaves open
-- (hsm-samples/node/src/hsm-sample.ts).
use fabric_gateway.Base.{◌≡◌, refl, ◌∙◌, String, List, ◌∷◌, false, Bool-cases, inl, inr}
use fabric_gateway.Effect.{Result, ok, err, continue_with, ◌>>=◌}
use fabric_gateway.Effect.Whole.{Preserves}
use fabric_gateway.Errors.{Thrown, History, M}
use fabric_gateway.Platform.{Platform}
use fabric_gateway.Identity.Pkcs11.{Handle}
use fabric_gateway.Identity.Hsm.{HsmSigner}
use fabric_gateway.Identity.Hsm.Sessions.{open_after}
use fabric_gateway.Samples.Runtime.{
  Machine, Setting, Stop, is_pending, Sample, call, finish, keep_result, log, attempt,
  iso_timestamp,
}

-- The sessions that have been opened and have not been asked to close.
abbrev pub open_in : Machine × History → List Handle
open_in s = open_after s.0.hsm_calls

-- How a sample ends, unless it waits for good.
abbrev pub IsSettled : {A : Type 0} → Result Stop A → Type 0
IsSettled (ok a) = Unit
IsSettled (err e) = is_pending e ≡ false

-- The sessions that are open are these.
abbrev pub HasOpen : List Handle → Machine × History → Type 0
HasOpen sessions s = open_in s ≡ sessions

module _ (sessions : List Handle) where
  pub call-HasOpen : {A : Type 0} (m : M A) → Preserves (HasOpen sessions) (call m)
  unfolding call
  call-HasOpen m = record { at = λ s p. p }

  pub log-HasOpen : (line : List String) → Preserves (HasOpen sessions) (log line)
  unfolding log
  log-HasOpen line = record { at = λ s p. p }

  pub iso_timestamp-HasOpen :
      (node : Platform) (setting : Setting)
      → Preserves (HasOpen sessions) (iso_timestamp node setting)
  unfolding iso_timestamp
  iso_timestamp-HasOpen node setting = record { at = λ s p. p }

  pub attempt-HasOpen :
      {A : Type 0} (r : Result Thrown A) → Preserves (HasOpen sessions) (attempt r)
  unfolding attempt
  attempt-HasOpen r = record { at = λ s p. p }

-- Where it settles, it leaves these sessions open.
abbrev pub Ends : {A : Type 0} → List Handle → Result Stop A × (Machine × History) → Type 0
Ends sessions y = IsSettled y.0 → open_in y.1 ≡ sessions

-- The sessions that are open once a signer has been made, or has not.
abbrev pub with_session : Result Stop HsmSigner → List Handle → List Handle
with_session (ok hsm) others = hsm.session ∷ others
with_session (err e) others = others

module _ (sessions : List Handle) where
  pub record EndsWith {A : Type 0} (m : Sample A) : Type 0 where
    pub at : (s : Machine × History) → open_in s ≡ sessions → Ends sessions (m s)

  Ends-after :
      {A B : Type 0} (f : A → Sample B) (x : Result Stop A × (Machine × History))
      → open_in x.1 ≡ sessions
      → ((a : A) → EndsWith (f a))
      → Ends sessions (continue_with f x)
  Ends-after f (ok a, s) e k = (k a).at s e
  Ends-after f (err x, s) e k = λ settled. e

  pub EndsWith->>= :
      {A B : Type 0} {m : Sample A} {f : A → Sample B}
      → Preserves (HasOpen sessions) m
      → ((a : A) → EndsWith (f a))
      → EndsWith (m >>= f)
  EndsWith->>= {m} {f} h k = record { at = λ s e. Ends-after f (m s) (h.at s e) k }

  pub signer_after :
      (f : HsmSigner → Sample (Unit {0})) (y : Result Stop HsmSigner × (Machine × History))
      → open_in y.1 ≡ with_session y.0 sessions
      → ((hsm : HsmSigner) (s : Machine × History)
          → open_in s ≡ hsm.session ∷ sessions
          → Ends sessions (f hsm s))
      → Ends sessions (continue_with f y)
  signer_after f (ok hsm, s) e k = k hsm s e
  signer_after f (err x, s) e k = λ settled. e

  keep_result-open :
      (r : Result Stop (Unit {0})) (y : Result Stop (Unit {0}) × (Machine × History))
      → open_in (keep_result r y).1 ≡ open_in y.1
  keep_result-open r (ok _, s) = refl
  keep_result-open r (err e, s) = refl

  pub finish-open :
      (cleanup : Sample (Unit {0})) (x : Result Stop (Unit {0}) × (Machine × History))
      → open_in (cleanup x.1).1 ≡ sessions
      → Ends sessions (finish cleanup x)
  finish-open cleanup (ok _, s) e = λ settled. keep_result-open (ok tt) (cleanup s) ∙ e
  finish-open cleanup (err z, s) e = elim (Bool-cases (is_pending z)) [
    | inl p ↦ simp p (λ settled. cc)
    | inr p ↦ simp p (λ settled. keep_result-open (err z) (cleanup s) ∙ e)
  ]
