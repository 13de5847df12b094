-- ===== src/Effect/Made.antt =====
-- Which calls of a service a step makes. A step that returns has made all calls of a list, in order;
-- one that throws has made those up to some point.
use fabric_gateway.Base.{◌≡◌, refl, sym, String, List, [], ◌∷◌, ◌++◌, append_assoc, append-nil}
use fabric_gateway.Effect.{Result, ok, err, Step, continue_with, ◌>>=◌, on_history, call_on}
use fabric_gateway.Errors.{random_bytes, now, sign, unary_call, stream_call, cancel, History}

-- The methods of the unary calls in a history, the earliest first.
abbrev pub calls : History → List String
calls [] = []
calls (unary_call method request options ∷ h) = calls h ++ method ∷ []
calls (random_bytes n ∷ h) = calls h
calls (now ∷ h) = calls h
calls (sign digest ∷ h) = calls h
calls (stream_call method request options ∷ h) = calls h
calls (cancel ∷ h) = calls h

module _ {S : Type 0} (made_in : S → List String) where
  abbrev pub Made : {E A : Type 0} → List String → S → Result E A × S → Type 0
  Made methods s (ok a, s') = made_in s' ≡ made_in s ++ methods
  Made methods s (err e, s') =
      (made : List String) × (rest : List String) × (methods ≡ made ++ rest)
      × (made_in s' ≡ made_in s ++ made)

  Made-after :
      {E B : Type 0} (ms ns : List String) (s s' : S) (r : Result E B × S)
      → made_in s' ≡ made_in s ++ ms
      → Made ns s' r
      → Made (ms ++ ns) s r
  Made-after ms ns s s' (ok b, t) h k = simp (k, h, append_assoc)
  Made-after ms ns s s' (err e, t) h (made, rest, split, k) =
      (ms ++ made, rest, simp (split, append_assoc), simp (k, h, append_assoc))

  Made-then :
      {E A B : Type 0} (ms ns : List String) (f : A → Step E S B) (s : S) (r : Result E A × S)
      → Made ms s r
      → ((a : A) (s' : S) → Made ns s' (f a s'))
      → Made (ms ++ ns) s (continue_with f r)
  Made-then ms ns f s (ok a, s') h k = Made-after ms ns s s' (f a s') h (k a s')
  Made-then ms ns f s (err e, s') (made, rest, split, h) k =
      (made, rest ++ ns, simp (split, append_assoc), h)

  Made-returned :
      {E A B : Type 0} (ms ns : List String) (f : A → Step E S B) (s : S) (r : Result E A × S)
      → Made ms s r
      → ((a : A) (s' : S) → r ≡ (ok a, s') → Made ns s' (f a s'))
      → Made (ms ++ ns) s (continue_with f r)
  Made-returned ms ns f s (ok a, s') h k = Made-after ms ns s s' (f a s') h (k a s' refl)
  Made-returned ms ns f s (err e, s') (made, rest, split, h) k =
      (made, rest ++ ns, simp (split, append_assoc), h)

  -- The calls of a chain of two steps.
  pub Made->>= :
      {E A B : Type 0} (ms ns : List String) (m : Step E S A) (f : A → Step E S B) (s : S)
      → Made ms s (m s)
      → ((a : A) (s' : S) → Made ns s' (f a s'))
      → Made (ms ++ ns) s ((m >>= f) s)
  Made->>= ms ns m f s h k = Made-then ms ns f s (m s) h k

  pub Made-quiet :
      {E A : Type 0} (s s' : S) (r : Result E A) → made_in s' ≡ made_in s → Made [] s (r, s')
  Made-quiet s s' (ok a) h = rw h (sym (append-nil _))
  Made-quiet s s' (err e) h = ([], [], refl, rw h (sym (append-nil _)))

  pub Made-none : {E A : Type 0} (s : S) (r : Result E A) → Made [] s (r, s)
  Made-none s r = Made-quiet s s r refl

-- The calls in the history that a method sees.
abbrev pub method_calls : {T : Type 0} → T × History → List String
method_calls s = calls s.1

module _ {T E A : Type 0} where
  lift-Made :
      (ms : List String) (t : T) (h : History) (x : Result E A × History)
      → Made calls ms h x
      → Made method_calls ms (t, h) (x.0, (t, x.1))
  lift-Made ms t h (ok a, h') m = m
  lift-Made ms t h (err e, h') m = m

  pub Made-on_history :
      (ms : List String) (m : Step E History A) (t : T) (h : History)
      → Made calls ms h (m h)
      → Made method_calls ms (t, h) (on_history m (t, h))
  Made-on_history ms m t h k = lift-Made ms t h (m h) k

  lower-Made :
      (ms : List String) (t : T) (h : History) (x : Result E A × (T × History))
      → Made method_calls ms (t, h) x
      → Made calls ms h (x.0, x.1.1)
  lower-Made ms t h (ok a, s) m = m
  lower-Made ms t h (err e, s) m = m

  pub Made-call_on :
      (ms : List String) (m : Step E (T × History) A) (t : T) (h : History)
      → Made method_calls ms (t, h) (m (t, h))
      → Made calls ms h (call_on t m h)
  Made-call_on ms m t h k = lower-Made ms t h (m (t, h)) k

-- A step that makes the calls of a list, wherever it starts.
pub record Makes {S E A : Type 0} (made_in : S → List String) (methods : List String)
    (m : Step E S A) : Type 0 where
  pub at : (s : S) → Made made_in methods s (m s)

module _ {S E : Type 0} {made_in : S → List String} where
  pub Makes->>= :
      {A B : Type 0} (ms ns : List String) {m : Step E S A} {f : A → Step E S B}
      → Makes made_in ms m
      → ((a : A) → Makes made_in ns (f a))
      → Makes made_in (ms ++ ns) (m >>= f)
  Makes->>= ms ns {m} {f} h k = record {
    at = λ s. Made->>= made_in ms ns m f s (h.at s) (λ a s'. (k a).at s');
  }

  -- The same, where the second step counts on what the first one returned.
  pub Makes->>=_returned :
      {A B : Type 0} (ms ns : List String) {m : Step E S A} {f : A → Step E S B}
      → Makes made_in ms m
      → ((s : S) (a : A) (s' : S) → m s ≡ (ok a, s') → Makes made_in ns (f a))
      → Makes made_in (ms ++ ns) (m >>= f)
  Makes->>=_returned ms ns {m} {f} h k = record {
    at = λ s. Made-returned made_in ms ns f s (m s) (h.at s) (λ a s' e. (k s a s' e).at s');
  }

  pub Makes-gets : {A : Type 0} (g : S → A) → Makes {E = E} made_in [] (λ s. (ok (g s), s))
  Makes-gets {A} g = record { at = λ s. let r : Result E A = ok (g s) in Made-none made_in s r }

  pub Makes-of_result : {A : Type 0} (r : Result E A) → Makes made_in [] (λ s. (r, s))
  Makes-of_result r = record { at = λ s. Made-none made_in s r }

pub Makes-on_history :
    {T E A : Type 0} {ms : List String} {m : Step E History A}
    → Makes calls ms m
    → Makes {S = T × History} method_calls ms (on_history m)
Makes-on_history {ms} {m} h = record { at = λ s. Made-on_history ms m s.0 s.1 (h.at s.1) }

pub Makes-call_on :
    {T E A : Type 0} (t : T) {ms : List String} {m : Step E (T × History) A}
    → Makes method_calls ms m
    → Makes calls ms (call_on t m)
Makes-call_on t {ms} {m} h = record { at = λ s. Made-call_on ms m t s (h.at (t, s)) }
