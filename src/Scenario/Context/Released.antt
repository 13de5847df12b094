-- ===== src/Scenario/Context/Released.antt =====
-- What closing a gateway context closes (scenario/node/src/gatewaycontext.ts).
use fabric_gateway.Base.{ℕ, ◌≡◌, refl, Option, none, some, List, [], ◌∷◌, inl, inr, ◌⊎◌}
use fabric_gateway.Effect.{Result, ok, err, continue_with, ◌>>◌}
use fabric_gateway.Effect.Whole.{for_each}
use fabric_gateway.Errors.{Thrown, History}
use fabric_gateway.Js.Object.{Object}
use fabric_gateway.Scenario.Context.{
  Connection, Closing, client_closed, signer_closed, GatewayContext, EventListener, close_entry,
  close_as, close,
}
use fabric_gateway.Scenario.Context.Consistent.{ContextState}

abbrev pub IsIn : {A : Type 0} → A → List A → Type 0
IsIn a [] = ⊥
IsIn a (b ∷ items) = (a ≡ b) ⊎ IsIn a items

abbrev pub IsClosed : {A : Type 0} → (A → Closing) → Option A → List Closing → Type 0
IsClosed closing none closed = Unit
IsClosed closing (some a) closed = IsIn (closing a) closed

-- The gRPC client and the signer of a context are closed, where it has them.
abbrev pub HasClosed : GatewayContext → List Closing → Type 0
HasClosed c closed =
    IsClosed client_closed c.client closed × IsClosed signer_closed c.signer_close closed

-- What was closed before is closed.
abbrev pub Grown : List Closing → List Closing → Type 0
Grown before closed = (a : Closing) → IsIn a before → IsIn a closed

IsClosed-Grown :
    {A : Type 0} (closing : A → Closing) (o : Option A) (before closed : List Closing)
    → Grown before closed
    → IsClosed closing o before
    → IsClosed closing o closed
IsClosed-Grown closing none before closed g p = tt
IsClosed-Grown closing (some a) before closed g p = g (closing a) p

pub HasClosed-Grown :
    (c : GatewayContext) (before closed : List Closing)
    → Grown before closed
    → HasClosed c before
    → HasClosed c closed
HasClosed-Grown c before closed g (p, q) = (
  IsClosed-Grown client_closed c.client before closed g p,
  IsClosed-Grown signer_closed c.signer_close before closed g q,
)

entry-after :
    (ls : Object EventListener) (x : Result Thrown (Unit {0}) × ContextState)
    (s : GatewayContext × List Closing)
    → x.1.0 ≡ s
    → ((y : ContextState) → y.0 ≡ s → (for_each close_entry ls y).1.0 ≡ s)
    → (continue_with (λ _. for_each close_entry ls) x).1.0 ≡ s
entry-after ls (ok _, y) s e k = k y e
entry-after ls (err x, y) s e k = e

-- Closing the listeners closes neither clients nor signers.
listeners-keep :
    (ls : Object EventListener) (y : ContextState) (s : GatewayContext × List Closing)
    → y.0 ≡ s
    → (for_each close_entry ls y).1.0 ≡ s
listeners-keep [] y s e = e
listeners-keep ((name, l) ∷ ls) y s e =
    entry-after ls (close_entry (name, l) y) s e (λ z. listeners-keep ls z s)

IsClosed-after :
    (client : Option Connection) (signer_close : Option ℕ) (c : GatewayContext)
    (closed : List Closing) (x : Result Thrown (Unit {0}) × ContextState) (s' : ContextState)
    → x.1.0 ≡ (c, closed)
    → continue_with (λ _. close_as client_closed client >> close_as signer_closed signer_close) x
      ≡ (ok tt, s')
    → (s'.0.0 ≡ c)
      × Grown closed s'.0.1
      × IsClosed client_closed client s'.0.1
      × IsClosed signer_closed signer_close s'.0.1
IsClosed-after client signer_close c closed (err x, s) s' e r = cc
IsClosed-after none none c closed (ok _, s) s' e r =
    let same : s'.0 ≡ (c, closed) = cc in rw same (refl, λ a p. p, tt, tt)
IsClosed-after (some k) none c closed (ok _, s) s' e r =
    let same : s'.0 ≡ (c, client_closed k ∷ closed) = cc in
    rw same (refl, λ a p. inr p, inl refl, tt)
IsClosed-after none (some n) c closed (ok _, s) s' e r =
    let same : s'.0 ≡ (c, signer_closed n ∷ closed) = cc in
    rw same (refl, λ a p. inr p, tt, inl refl)
IsClosed-after (some k) (some n) c closed (ok _, s) s' e r =
    let same : s'.0 ≡ (c, signer_closed n ∷ client_closed k ∷ closed) = cc in
    rw same (refl, λ a p. inr (inr p), inr (inl refl), inl refl)

-- Where closing a context returns, its client and its signer are closed, and it refers to what it did.
pub close-HasClosed :
    (c : GatewayContext) (closed : List Closing) (h : History) (s' : ContextState)
    → close ((c, closed), h) ≡ (ok tt, s')
    → (s'.0.0 ≡ c) × Grown closed s'.0.1 × HasClosed c s'.0.1
unfolding close
close-HasClosed c closed h s' r =
    let (same, grown, client, signer) =
      IsClosed-after c.client c.signer_close c closed
        (for_each close_entry c.chaincode_event_listeners ((c, closed), h)) s'
        (listeners-keep c.chaincode_event_listeners ((c, closed), h) (c, closed) refl) r in
    (same, grown, (client, signer))
