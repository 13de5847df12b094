-- ===== src/Scenario/World/Released.antt =====
-- What closing the world of a scenario closes (scenario/node/src/customworld.ts).
use text.Mathlib.Text.{◌==◌}
use fabric_gateway.Base.{
  ℕ, ◌≡◌, refl, ap, sym, ◌∙◌, subst, String, none, some, List, [], ◌∷◌, inl, inr, Bool-cases,
  if◌then◌else◌, ==_iff,
}
use fabric_gateway.Base.{◌==◌ as is_same}
use fabric_gateway.Js.Object.{Object, get}
use fabric_gateway.Effect.{Result, ok, err, continue_with}
use fabric_gateway.Effect.Whole.{for_each}
use fabric_gateway.Errors.{Thrown, History}
use fabric_gateway.Scenario.Context.{GatewayContext, Closing}
use fabric_gateway.Scenario.Context
use fabric_gateway.Scenario.Context.Consistent.{ContextState}
use fabric_gateway.Scenario.Context.Released.{
  IsIn, HasClosed, Grown, HasClosed-Grown, close-HasClosed,
}
use fabric_gateway.Scenario.World.{CustomWorld, run_context, put_back, values, close}

-- A world whose contexts are those of another, and which has closed what that has and more.
pub record Later (w w' : CustomWorld) : Type 0 where
  pub contexts : (m : ℕ) → w'.contexts m ≡ w.contexts m
  pub grown : Grown w.closed w'.closed

Later-trans : (u v w : CustomWorld) → Later u v → Later v w → Later u w
Later-trans u v w p q = record {
  contexts = λ m. q.contexts m ∙ p.contexts m;
  grown = λ a r. q.grown a (p.grown a r);
}

put_back-Later :
    (n : ℕ) (w : CustomWorld) (x : Result Thrown (Unit {0}) × ContextState) (w' : CustomWorld)
    (h' : History)
    → put_back n w x ≡ (ok tt, (w', h'))
    → ((s' : ContextState)
        → x ≡ (ok tt, s')
        → (s'.0.0 ≡ w.contexts n) × Grown w.closed s'.0.1 × HasClosed (w.contexts n) s'.0.1)
    → Later w w' × HasClosed (w.contexts n) w'.closed
put_back-Later n w (err e, s) w' h' r k = cc
put_back-Later n w (ok tt, ((c, closed), h)) w' h' r k =
    let (same, grown, has) = k ((c, closed), h) refl in
    let contexts : (m : ℕ) → w'.contexts m ≡ (if is_same m n then c else w.contexts m) = λ m.
      ap (λ (y : Result Thrown (Unit {0}) × (CustomWorld × History)). y.1.0.contexts m) (sym r) in
    let closed_same : w'.closed ≡ closed =
      ap (λ (y : Result Thrown (Unit {0}) × (CustomWorld × History)). y.1.0.closed) (sym r) in
    (
      record {
        contexts = λ m. elim (Bool-cases (is_same m n)) [
          | inl e ↦ contexts m ∙ simp e (same ∙ ap w.contexts (sym ((==_iff m n).0 e)))
          | inr e ↦ contexts m ∙ simp e
        ];
        grown = subst (Grown w.closed) (sym closed_same) grown;
      },
      subst (HasClosed (w.contexts n)) (sym closed_same) has,
    )

run_context-Later :
    (n : ℕ) (w w' : CustomWorld) (h h' : History)
    → run_context Context.close n (w, h) ≡ (ok tt, (w', h'))
    → Later w w' × HasClosed (w.contexts n) w'.closed
run_context-Later n w w' h h' r =
    put_back-Later n w (Context.close ((w.contexts n, w.closed), h)) w' h' r
      (λ s'. close-HasClosed (w.contexts n) w.closed h s')

-- The contexts with these numbers have closed what they hold.
abbrev pub HaveClosed : CustomWorld → List ℕ → List Closing → Type 0
HaveClosed w ns closed = (n : ℕ) → IsIn n ns → HasClosed (w.contexts n) closed

rest-Later :
    (n : ℕ) (ns : List ℕ) (w w' : CustomWorld)
    (x : Result Thrown (Unit {0}) × (CustomWorld × History)) (h' : History)
    → continue_with (λ _. for_each (run_context Context.close) ns) x ≡ (ok tt, (w', h'))
    → ((v : CustomWorld) (h : History)
        → x ≡ (ok tt, (v, h))
        → Later w v × HasClosed (w.contexts n) v.closed)
    → ((v : CustomWorld) (h : History)
        → for_each (run_context Context.close) ns (v, h) ≡ (ok tt, (w', h'))
        → Later v w' × HaveClosed v ns w'.closed)
    → Later w w' × HaveClosed w (n ∷ ns) w'.closed
rest-Later n ns w w' (err e, s) h' r k l = cc
rest-Later n ns w w' (ok tt, (v, h)) h' r k l =
    let (first, has) = k v h refl in
    let (later, have) = l v h r in
    (
      Later-trans w v w' first later,
      λ m. λ p. elim p [
        | inl e ↦
            subst (λ j. HasClosed (w.contexts j) w'.closed) (sym e)
              (HasClosed-Grown (w.contexts n) v.closed w'.closed later.grown has)
        | inr q ↦ subst (λ c. HasClosed c w'.closed) (first.contexts m) (have m q)
      ],
    )

for_each-Later :
    (ns : List ℕ) (w w' : CustomWorld) (h h' : History)
    → for_each (run_context Context.close) ns (w, h) ≡ (ok tt, (w', h'))
    → Later w w' × HaveClosed w ns w'.closed
for_each-Later [] w w' h h' r =
    let same : w ≡ w' = cc in
    subst (λ v. Later w v × HaveClosed w [] v.closed) same
      (record { contexts = λ m. refl; grown = λ a p. p }, λ n p. elim p [ ])
for_each-Later (n ∷ ns) w w' h h' r =
    rest-Later n ns w w' (run_context Context.close n (w, h)) h' r
      (λ v g. run_context-Later n w v h g) (λ v g. for_each-Later ns v w' g h')

ended :
    (w w' : CustomWorld) (x : Result Thrown (Unit {0}) × (CustomWorld × History)) (h' : History)
    → continue_with {B = Unit {0}}
        (λ (_ : Unit {0}) s. (ok tt, (record (s.0) { gateways = []; current_gateway = none }, s.1)))
        x
      ≡ (ok tt, (w', h'))
    → (v : CustomWorld) × (h : History) × (x ≡ (ok tt, (v, h))) × (w'.closed ≡ v.closed)
ended w w' (ok tt, (v, h)) h' r = (
  v,
  h,
  refl,
  ap (λ (y : Result Thrown (Unit {0}) × (CustomWorld × History)). y.1.0.closed) (sym r),
)
ended w w' (err e, s) h' r = cc

-- Where closing the world returns, each context that has a name has closed what it holds.
pub close-HaveClosed :
    (w w' : CustomWorld) (h h' : History)
    → close (w, h) ≡ (ok tt, (w', h'))
    → HaveClosed w (values w.gateways) w'.closed
unfolding close
close-HaveClosed w w' h h' r =
    let (v, g, e, same) =
      ended w w' (for_each (run_context Context.close) (values w.gateways) (w, h)) h' r in
    subst (HaveClosed w (values w.gateways)) (sym same)
      (for_each-Later (values w.gateways) w v h g e).1

-- The context of a name is among them.
pub values-get : (name : String) (n : ℕ) (o : Object ℕ) → get name o ≡ some n → IsIn n (values o)
unfolding get
values-get name n [] e = cc
values-get name n ((k, m) ∷ o) e = elim (Bool-cases (k == name)) [
  | inl p ↦ inl (cc (rw p at e))
  | inr p ↦ inr (values-get name n o (rw p at e))
]
