-- ===== src/Scenario/Context/Steps.antt =====
-- What a scenario asks of a gateway context (scenario/node/src/gatewaycontext.ts), in any order; a
-- step that throws leaves the context to the steps after it.
use fabric_gateway.Base.{
  ℕ, ◌≡◌, refl, ap, sym, ◌∙◌, String, Option, none, some, List, [], ◌∷◌, Option-cases, inl, inr,
  arith,
}
use fabric_gateway.Effect.{Result, ok, err, continue_with, pure, ◌>>=◌, of_result, map_err}
use fabric_gateway.Errors.{JsError, Thrown, History}
use fabric_gateway.Platform.{Platform}
use fabric_gateway.Protos.{Protos}
use fabric_gateway.Signing.{Identity, Signer, SigningIdentity}
use fabric_gateway.Client.{GatewayGrpcClient}
use fabric_gateway.Network.{NetworkImpl}
use fabric_gateway.Contract.{ContractImpl}
use fabric_gateway.Events.Request.{ChaincodeEventsOptions}
use fabric_gateway.Scenario.Utils.{assert_defined}
use fabric_gateway.Scenario.Invocation.{
  TransactionInvocation, new_transaction_invocation, get_invoke,
}
use fabric_gateway.Scenario.Context.{
  Connection, ContextMethod, new_gateway_context, connect_to, use_network, use_contract,
  new_transaction, close_chaincode_events, close, get_gateway, current_contract, required,
}
use fabric_gateway.Scenario.Context.Listening.{listen_for_chaincode_events, next_chaincode_event}
use fabric_gateway.Scenario.Context.Consistent.{
  ContextState, own_identity, IsOwnGateway, IsOwnNetwork, IsOfNetwork, Consistent,
  use_network-Consistent, use_contract-Consistent, close_chaincode_events-Consistent,
  close-Consistent, next_chaincode_event-Consistent, connect_to-Consistent, listen-Consistent,
}

pub data ContextStep : Type 0 where
  connecting : Connection → ContextStep
  using_network using_contract : String → ContextStep
  listening : String → String → Option ChaincodeEventsOptions → ContextStep
  reading : ℕ → String → ContextStep
  closing_events : String → ContextStep
  closing : ContextStep

module _ (pb : Protos) (node : Platform) (clients : Connection → GatewayGrpcClient) where
  abbrev pub take_step : ContextStep → ContextState → ContextState
  take_step (connecting k) s = (connect_to pb node clients k s).1
  take_step (using_network name) s = (use_network name s).1
  take_step (using_contract name) s = (use_contract name s).1
  take_step (listening name chaincode options) s =
      (listen_for_chaincode_events pb node clients name chaincode options s).1
  take_step (reading fuel name) s = (next_chaincode_event fuel name s).1
  take_step (closing_events name) s = (close_chaincode_events name s).1
  take_step closing s = (close s).1

  abbrev pub take_steps : List ContextStep → ContextState → ContextState
  take_steps [] s = s
  take_steps (x ∷ xs) s = take_steps xs (take_step x s)

  -- A context that was made with an identity and its signer, after the steps.
  abbrev pub reached :
      Identity → Option Signer → Option ℕ → List ContextStep → History → ContextState
  reached identity signer signer_close steps h =
      take_steps steps ((new_gateway_context identity signer signer_close, []), h)

  module _ (identity : Identity) (signer : Option Signer) where
    abbrev Fits : ContextState → Type 0
    Fits s = Consistent pb node identity signer s

    take_step-Fits : (x : ContextStep) (s : ContextState) → Fits s → Fits (take_step x s)
    take_step-Fits (connecting k) s p =
        (connect_to-Consistent pb node identity signer clients k).at s p
    take_step-Fits (using_network name) s p =
        (use_network-Consistent pb node identity signer name).at s p
    take_step-Fits (using_contract name) s p =
        (use_contract-Consistent pb node identity signer name).at s p
    take_step-Fits (listening name chaincode options) s p =
        (listen-Consistent pb node identity signer clients name chaincode options).at s p
    take_step-Fits (reading fuel name) s p =
        (next_chaincode_event-Consistent pb node identity signer fuel name).at s p
    take_step-Fits (closing_events name) s p =
        (close_chaincode_events-Consistent pb node identity signer name).at s p
    take_step-Fits closing s p = (close-Consistent pb node identity signer).at s p

    take_steps-Fits : (xs : List ContextStep) (s : ContextState) → Fits s → Fits (take_steps xs s)
    take_steps-Fits [] s p = p
    take_steps-Fits (x ∷ xs) s p = take_steps-Fits xs (take_step x s) (take_step-Fits x s p)

    reached-Fits :
        (signer_close : Option ℕ) (steps : List ContextStep) (h : History)
        → Fits (reached identity signer signer_close steps h)
    unfolding new_gateway_context
    reached-Fits signer_close steps h =
        take_steps-Fits steps ((new_gateway_context identity signer signer_close, []), h)
          (record {
            identity_kept = refl;
            signer_kept = refl;
            gateway_own = tt;
            network_own = tt;
            contract_own = tt;
          })

-- The parts of a new invocation.
new_transaction_invocation-parts :
    (action name : String) (g : SigningIdentity) (c : ContractImpl) (i : TransactionInvocation)
    → new_transaction_invocation action g c name ≡ ok i
    → (i.gateway ≡ g) × (i.contract ≡ c)
unfolding new_transaction_invocation get_invoke
new_transaction_invocation-parts action name g c i r = ground arith

invocation_of :
    (action name : String) (gateway : Option (SigningIdentity × Connection))
    (contract : Option (ContractImpl × Connection))
    → ContextMethod (TransactionInvocation × Connection)
unfolding assert_defined
invocation_of action name gateway contract = do
  g ← of_result (required gateway "gateway")
  c ← of_result (required contract "contract")
  i ← of_result (map_err Thrown.error (new_transaction_invocation action g.0 c.0 name))
  pure (i, c.1)

new_transaction-invocation_of :
    (action name : String) (s : ContextState)
    → new_transaction action name s ≡ invocation_of action name s.0.0.gateway s.0.0.contract s
unfolding new_transaction get_gateway current_contract invocation_of
new_transaction-invocation_of action name s = elim (Option-cases s.0.0.gateway) [
  | inl e ↦ simp e
  | inr (g, e) ↦
      simp e (elim (Option-cases s.0.0.contract) [ inl f ↦ simp f | inr (c, f) ↦ simp f ])
]

made_of :
    (r : Result JsError TransactionInvocation) (k k' : Connection) (s s' : ContextState)
    (i : TransactionInvocation)
    → continue_with {B = TransactionInvocation × Connection}
        (λ (j : TransactionInvocation). pure (j, k'))
        (map_err Thrown.error r, s)
      ≡ (ok (i, k), s')
    → (r ≡ ok i) × (k ≡ k')
made_of (ok j) k k' s s' i e = (cc, cc)
made_of (err x) k k' s s' i e = (cc, cc)

-- A transaction is of the channel of a network, and goes with its client.
abbrev pub IsOfChannel :
    Option (NetworkImpl × Connection) → TransactionInvocation → Connection → Type 0
IsOfChannel none i k = ⊥
IsOfChannel (some (n, k')) i k = (i.contract.channel_name ≡ n.channel_name) × (k ≡ k')

invocation_of-own :
    (own : SigningIdentity) (action name : String) (gateway : Option (SigningIdentity × Connection))
    (network : Option (NetworkImpl × Connection)) (contract : Option (ContractImpl × Connection))
    (s s' : ContextState) (i : TransactionInvocation) (k : Connection)
    → IsOwnGateway own gateway
    → IsOwnNetwork own network
    → IsOfNetwork network contract
    → invocation_of action name gateway contract s ≡ (ok (i, k), s')
    → (i.gateway ≡ own) × (i.contract.signing_identity ≡ own) × IsOfChannel network i k
unfolding invocation_of assert_defined
invocation_of-own own action name none network contract s s' i k a b c r = cc
invocation_of-own own action name (some g) network none s s' i k a b c r = cc
invocation_of-own own action name (some g) none (some d) s s' i k a b c r = elim c [ ]
invocation_of-own own action name (some (g, kg)) (some (n, kn)) (some (d, kd)) s s' i k a b
      (c, c', c'') r =
    let (made, same_client) = made_of (new_transaction_invocation action g d name) k kd s s' i r in
    let (of_g, of_d) = new_transaction_invocation-parts action name g d i made in
    (
      of_g ∙ a,
      ap (λ x. x.signing_identity) of_d ∙ (c ∙ b),
      (ap (λ x. x.channel_name) of_d ∙ c', same_client ∙ c''),
    )

-- Whatever a scenario asks of a context, in any order and with any failures, a transaction that the
-- context makes has a gateway and a contract that sign with the identity and the signer that the
-- context was made with. The contract is of the channel, and goes with the client, of the network that
-- the context uses now.
pub new_transaction-own :
    (pb : Protos) (node : Platform) (clients : Connection → GatewayGrpcClient) (identity : Identity)
    (signer : Option Signer) (signer_close : Option ℕ) (steps : List ContextStep) (h : History)
    (action name : String) (i : TransactionInvocation) (k : Connection) (s : ContextState)
    → new_transaction action name (reached pb node clients identity signer signer_close steps h)
      ≡ (ok (i, k), s)
    → (i.gateway ≡ own_identity pb node identity signer)
      × (i.contract.signing_identity ≡ own_identity pb node identity signer)
      × IsOfChannel (reached pb node clients identity signer signer_close steps h).0.0.network i k
new_transaction-own pb node clients identity signer signer_close steps h action name i k s r =
    let start = reached pb node clients identity signer signer_close steps h in
    let p = reached-Fits pb node clients identity signer signer_close steps h in
    invocation_of-own (own_identity pb node identity signer) action name start.0.0.gateway
      start.0.0.network start.0.0.contract start s i k p.gateway_own p.network_own p.contract_own
      (sym (new_transaction-invocation_of action name start) ∙ r)
