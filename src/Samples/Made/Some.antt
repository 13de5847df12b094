-- ===== src/Samples/Made/Some.antt =====
-- Rules for a sample application that goes on after an error: it has made the calls of one list and the
-- first few of another.
use fabric_gateway.Base.{
  ◌≡◌, refl, sym, ◌∙◌, String, List, [], ◌∷◌, ◌++◌, append_assoc, append-nil, Bool-cases, inl, inr,
}
use fabric_gateway.Effect.{Result, ok, err, continue_with, ◌>>=◌}
use fabric_gateway.Effect.Made.{method_calls, Made, Makes}
use fabric_gateway.Errors.{Thrown, History}
use fabric_gateway.Samples.Runtime.{
  Machine, Stop, thrown, waiting, is_pending, Sample, try_finally, try_catch, finish, keep_result,
  recover,
}
use fabric_gateway.Samples.Made.{IsQuiet}

-- A step that makes all calls of one list and, after them, the first few of another. Where it does not
-- return, it has made the first few of both.
abbrev pub MadeSome :
    {A : Type 0}
    → List String
    → List String
    → Machine × History
    → Result Stop A × (Machine × History)
    → Type 0
MadeSome ms ns s (ok a, s') =
    (made : List String) × (rest : List String) × (ns ≡ made ++ rest)
    × (method_calls s' ≡ method_calls s ++ (ms ++ made))
MadeSome ms ns s (err e, s') =
    (made : List String) × (rest : List String) × (ms ++ ns ≡ made ++ rest)
    × (method_calls s' ≡ method_calls s ++ made)

pub record MakesSome {A : Type 0} (ms ns : List String) (m : Sample A) : Type 0 where
  pub at : (s : Machine × History) → MadeSome ms ns s (m s)

widened :
    {B : Type 0} (ms ns ps : List String) (s t : Machine × History)
    (y : Result Stop B × (Machine × History))
    → method_calls t ≡ method_calls s ++ ms
    → MadeSome ns ps t y
    → MadeSome (ms ++ ns) ps s y
widened ms ns ps s t (ok b, u) e (made, rest, split, d) =
    (made, rest, split, simp (d, e, append_assoc))
widened ms ns ps s t (err z, u) e (made, rest, split, d) =
    (ms ++ made, rest, simp (append_assoc, split), simp (d, e, append_assoc))

made_before :
    {A B : Type 0} (ms ns ps : List String) (f : A → Sample B) (s : Machine × History)
    (x : Result Stop A × (Machine × History))
    → Made method_calls ms s x
    → ((a : A) → MakesSome ns ps (f a))
    → MadeSome (ms ++ ns) ps s (continue_with f x)
made_before ms ns ps f s (ok a, t) e k = widened ms ns ps s t (f a t) e ((k a).at t)
made_before ms ns ps f s (err z, t) (made, rest, split, d) k =
    (made, rest ++ (ns ++ ps), simp (split, append_assoc), d)

-- All calls of a list, and then some.
pub MakesSome->>= :
    {A B : Type 0} (ms ns ps : List String) {m : Sample A} {f : A → Sample B}
    → Makes method_calls ms m
    → ((a : A) → MakesSome ns ps (f a))
    → MakesSome (ms ++ ns) ps (m >>= f)
MakesSome->>= ms ns ps {m} {f} h k = record { at = λ s. made_before ms ns ps f s (m s) (h.at s) k }

-- Where a step that has made its calls throws after all.
stopped :
    (ms ns made rest : List String) (s s' : Machine × History)
    → ns ≡ made ++ rest
    → method_calls s' ≡ method_calls s ++ (ms ++ made)
    → (all : List String) × (others : List String) × (ms ++ ns ≡ all ++ others)
      × (method_calls s' ≡ method_calls s ++ all)
stopped ms ns made rest s s' split d = (ms ++ made, rest, simp (split, append_assoc), d)

some_finished :
    {A : Type 0} (ms ns : List String) (s s' : Machine × History) (a : A)
    (y : Result Stop (Unit {0}) × (Machine × History))
    → method_calls y.1 ≡ method_calls s'
    → MadeSome ms ns s (ok a, s')
    → MadeSome ms ns s (keep_result (ok a) y)
some_finished ms ns s s' a (ok _, t) e (made, rest, split, d) = (made, rest, split, e ∙ d)
some_finished ms ns s s' a (err z, t) e (made, rest, split, d) =
    stopped ms ns made rest s t split (e ∙ d)

some_failed :
    (A : Type 0) (ms ns : List String) (s s' : Machine × History) (z : Stop)
    (y : Result Stop (Unit {0}) × (Machine × History))
    → method_calls y.1 ≡ method_calls s'
    → MadeSome {A = A} ms ns s (err z, s')
    → MadeSome {A = A} ms ns s (keep_result (err z) y)
some_failed A ms ns s s' z (ok _, t) e (made, rest, split, d) = (made, rest, split, e ∙ d)
some_failed A ms ns s s' z (err _, t) e (made, rest, split, d) = (made, rest, split, e ∙ d)

finished :
    {A : Type 0} (ms ns : List String) (s : Machine × History) (cleanup : Sample (Unit {0}))
    (x : Result Stop A × (Machine × History))
    → IsQuiet cleanup
    → MadeSome ms ns s x
    → MadeSome ms ns s (finish cleanup x)
finished ms ns s cleanup (ok a, s') q m = some_finished ms ns s s' a (cleanup s') (q.at s') m
finished {A} ms ns s cleanup (err z, s') q m = elim (Bool-cases (is_pending z)) [
  | inl p ↦ simp p m
  | inr p ↦ simp p (some_failed A ms ns s s' z (cleanup s') (q.at s') m)
]

pub MakesSome-try_finally :
    {A : Type 0} (ms ns : List String) (m : Sample A) (cleanup : Sample (Unit {0}))
    → MakesSome ms ns m
    → IsQuiet cleanup
    → MakesSome ms ns (try_finally m cleanup)
unfolding try_finally
MakesSome-try_finally ms ns m cleanup h q = record {
  at = λ s. finished ms ns s cleanup (m s) q (h.at s);
}

-- A list of calls and nothing more.
some_of_all :
    {A : Type 0} (ms : List String) (s : Machine × History)
    (x : Result Stop A × (Machine × History))
    → Made method_calls ms s x
    → MadeSome ms [] s x
some_of_all ms s (ok a, t) e = ([], [], refl, simp (e, append-nil))
some_of_all ms s (err z, t) (made, rest, split, d) = (made, rest, append-nil ms ∙ split, d)

all_of_some :
    {A : Type 0} (ms : List String) (s : Machine × History)
    (x : Result Stop A × (Machine × History))
    → MadeSome ms [] s x
    → Made method_calls ms s x
all_of_some ms s (ok a, t) ([], rest, split, d) = simp append-nil at d
all_of_some ms s (ok a, t) (c ∷ made, rest, split, d) = cc
all_of_some ms s (err z, t) (made, rest, split, d) = (made, rest, sym (append-nil ms) ∙ split, d)

pub Makes-try_finally :
    {A : Type 0} (ms : List String) (m : Sample A) (cleanup : Sample (Unit {0}))
    → Makes method_calls ms m
    → IsQuiet cleanup
    → Makes method_calls ms (try_finally m cleanup)
unfolding try_finally
Makes-try_finally ms m cleanup h q = record {
  at = λ s.
      all_of_some ms s (finish cleanup (m s))
        (finished ms [] s cleanup (m s) q (some_of_all ms s (m s) (h.at s)));
}

quietly :
    {A B : Type 0} (ms ns : List String) (s t : Machine × History) (a : A)
    (y : Result Stop B × (Machine × History))
    → method_calls y.1 ≡ method_calls t
    → MadeSome ms ns s (ok a, t)
    → MadeSome ms ns s y
quietly ms ns s t a (ok b, u) e (made, rest, split, d) = (made, rest, split, e ∙ d)
quietly ms ns s t a (err z, u) e (made, rest, split, d) = stopped ms ns made rest s u split (e ∙ d)

then_quiet :
    {A B : Type 0} (ms ns : List String) (f : A → Sample B) (s : Machine × History)
    (x : Result Stop A × (Machine × History))
    → MadeSome ms ns s x
    → ((a : A) → IsQuiet (f a))
    → MadeSome ms ns s (continue_with f x)
then_quiet ms ns f s (err z, t) m k = m
then_quiet ms ns f s (ok a, t) m k = quietly ms ns s t a (f a t) ((k a).at t) m

pub MakesSome-then :
    {A B : Type 0} (ms ns : List String) {m : Sample A} {f : A → Sample B}
    → MakesSome ms ns m
    → ((a : A) → IsQuiet (f a))
    → MakesSome ms ns (m >>= f)
MakesSome-then ms ns {m} {f} h k = record { at = λ s. then_quiet ms ns f s (m s) (h.at s) k }

handled :
    (ns made rest : List String) (s t : Machine × History)
    (y : Result Stop (Unit {0}) × (Machine × History))
    → ns ≡ made ++ rest
    → method_calls t ≡ method_calls s ++ made
    → method_calls y.1 ≡ method_calls t
    → MadeSome [] ns s y
handled ns made rest s t (ok _, u) split d e = (made, rest, split, e ∙ d)
handled ns made rest s t (err z, u) split d e = (made, rest, split, e ∙ d)

recovered :
    (ns : List String) (handler : Thrown → Sample (Unit {0})) (s : Machine × History)
    (x : Result Stop (Unit {0}) × (Machine × History))
    → ((e : Thrown) → IsQuiet (handler e))
    → Made method_calls ns s x
    → MadeSome [] ns s (recover handler x)
recovered ns handler s (ok _, t) q e = (ns, [], sym (append-nil ns), e)
recovered ns handler s (err waiting, t) q (made, rest, split, d) = (made, rest, split, d)
recovered ns handler s (err (thrown e), t) q (made, rest, split, d) =
    elim (Bool-cases (is_pending (thrown e))) [
      | inl p ↦ simp p (made, rest, split, d)
      | inr p ↦ simp p (handled ns made rest s t (handler e t) split d ((q e).at t))
    ]

-- A step whose errors are handled without calls.
pub MakesSome-try_catch :
    (ns : List String) (m : Sample (Unit {0})) (handler : Thrown → Sample (Unit {0}))
    → Makes method_calls ns m
    → ((e : Thrown) → IsQuiet (handler e))
    → MakesSome [] ns (try_catch m handler)
unfolding try_catch
MakesSome-try_catch ns m handler h q = record { at = λ s. recovered ns handler s (m s) q (h.at s) }
