-- ===== src/Samples/Made.antt =====
-- Rules for the calls of the gateway service that a sample application makes.
pub mod Some
use fabric_gateway.Base.{
  ◌≡◌, refl, sym, ap, ◌∙◌, String, List, [], ◌∷◌, ◌++◌, append_assoc, append-nil, Bool-cases, inl,
  inr,
}
use fabric_gateway.Effect.{Result, ok, err, continue_with, ◌>>=◌, ◌>>◌}
use fabric_gateway.Effect.Whole.{discard, without_value}
use fabric_gateway.Effect.Made.{calls, method_calls, Made, Makes, Makes-of_result}
use fabric_gateway.Errors.{Thrown, History, M}
use fabric_gateway.Platform.{Platform}
use fabric_gateway.Samples.Runtime.{
  Machine, Setting, Stop, thrown, waiting, is_pending, Sample, of_call, call, attempt, log,
  iso_timestamp, try_finally, try_catch, finish, keep_result, recover,
}

Made-of_call :
    {A : Type 0} (ms : List String) (t : Machine) (h : History) (x : Result Thrown A × History)
    → Made calls ms h x
    → Made method_calls ms (t, h) (of_call t x)
Made-of_call ms t h (ok a, h') m = m
Made-of_call ms t h (err e, h') m = m

pub call-Makes :
    {A : Type 0} (ms : List String) {m : M A} → Makes calls ms m → Makes method_calls ms (call m)
unfolding call
call-Makes ms {m} k = record { at = λ s. Made-of_call ms s.0 s.1 (m s.1) (k.at s.1) }

pub log-Makes : (line : List String) → Makes method_calls [] (log line)
unfolding log
log-Makes line = record { at = λ s. sym (append-nil (calls s.1)) }

pub iso_timestamp-Makes :
    (node : Platform) (setting : Setting) → Makes method_calls [] (iso_timestamp node setting)
unfolding iso_timestamp
iso_timestamp-Makes node setting = record { at = λ s. sym (append-nil (calls s.1)) }

pub attempt-Makes : {A : Type 0} (r : Result Thrown A) → Makes method_calls [] (attempt r)
unfolding attempt
attempt-Makes (ok a) = record { at = λ s. sym (append-nil (calls s.1)) }
attempt-Makes (err e) = Makes-of_result (err (thrown e))

-- A step that makes no call.
pub record IsQuiet {A : Type 0} (m : Sample A) : Type 0 where
  pub at : (s : Machine × History) → method_calls (m s).1 ≡ method_calls s

pub log-IsQuiet : (line : List String) → IsQuiet (log line)
unfolding log
log-IsQuiet line = record { at = λ s. refl }

pub attempt-IsQuiet : {A : Type 0} (r : Result Thrown A) → IsQuiet (attempt r)
unfolding attempt
attempt-IsQuiet r = record { at = λ s. refl }

quiet_after :
    {A B : Type 0} (f : A → Sample B) (x : Result Stop A × (Machine × History))
    → ((a : A) → IsQuiet (f a))
    → method_calls (continue_with f x).1 ≡ method_calls x.1
quiet_after f (ok a, s) k = (k a).at s
quiet_after f (err e, s) k = refl

pub IsQuiet->>= :
    {A B : Type 0} {m : Sample A} {f : A → Sample B}
    → IsQuiet m
    → ((a : A) → IsQuiet (f a))
    → IsQuiet (m >>= f)
IsQuiet->>= {m} {f} h k = record { at = λ s. quiet_after f (m s) k ∙ h.at s }

without-Made :
    {A : Type 0} (ms : List String) (s : Machine × History)
    (x : Result Stop A × (Machine × History))
    → Made method_calls ms s x
    → Made method_calls ms s (without_value x)
without-Made ms s (ok a, t) m = m
without-Made ms s (err e, t) m = m

pub Makes-discard :
    {A : Type 0} (ms : List String) {m : Sample A}
    → Makes method_calls ms m
    → Makes method_calls ms (discard m)
unfolding discard
Makes-discard ms {m} k = record { at = λ s. without-Made ms s (m s) (k.at s) }
