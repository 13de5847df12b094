-- ===== src/Scenario/Context/Consistent.antt =====
-- The gateway, the network and the contract that a gateway context holds, between the methods of
-- scenario/node/src/gatewaycontext.ts.
use fabric_gateway.Base.{
  ℕ, ◌≡◌, refl, subst, String, Option, none, some, List, Option-cases, inl, inr,
}
use fabric_gateway.Effect.{ok, pure}
use fabric_gateway.Effect.Whole.{Preserves, Preserves->>=, Preserves-of_result, Preserves-for_each}
use fabric_gateway.Errors.{Thrown, History}
use fabric_gateway.Platform.{Platform}
use fabric_gateway.Protos.{Protos}
use fabric_gateway.Signing.{Identity, Signer, SigningIdentity, new_signing_identity}
use fabric_gateway.Client.{GatewayGrpcClient, Read}
use fabric_gateway.Events.{ChaincodeEvent, Generator}
use fabric_gateway.Events
use fabric_gateway.Js.Object.{get}
use fabric_gateway.Network.{NetworkImpl, get_contract}
use fabric_gateway.Contract.{ContractImpl}
use fabric_gateway.Events.Request.{ChaincodeEventsOptions}
use fabric_gateway.Gateway.{connect, internal_connect}
use fabric_gateway.Scenario.Utils.{assert_defined}
use fabric_gateway.Scenario.Context.{
  Connection, Closing, GatewayContext, connected, connect_to, use_network, use_contract,
  close_listener, close_entry, close_as, EventListener, new_event_listener,
  get_chaincode_event_listener, close_chaincode_events, close, get_gateway, current_network,
}
use fabric_gateway.Scenario.Context.Listening.{
  listen_for_chaincode_events, next_chaincode_event, advance, event_of, set_listener, open_events,
}

abbrev pub ContextState : Type 0
ContextState = (GatewayContext × List Closing) × History

abbrev pub IsOwnGateway : SigningIdentity → Option (SigningIdentity × Connection) → Type 0
IsOwnGateway own none = Unit
IsOwnGateway own (some (g, k)) = g ≡ own

abbrev pub IsOwnNetwork : SigningIdentity → Option (NetworkImpl × Connection) → Type 0
IsOwnNetwork own none = Unit
IsOwnNetwork own (some (n, k)) = n.signing_identity ≡ own

abbrev pub IsOfNetwork :
    Option (NetworkImpl × Connection) → Option (ContractImpl × Connection) → Type 0
IsOfNetwork network none = Unit
IsOfNetwork none (some c) = ⊥
IsOfNetwork (some (n, k)) (some (c, k')) =
    (c.signing_identity ≡ n.signing_identity) × (c.channel_name ≡ n.channel_name) × (k' ≡ k)

module _ (pb : Protos) (node : Platform) (identity : Identity) (signer : Option Signer) where
  -- The signing identity of an identity with its signer.
  abbrev pub own_identity : SigningIdentity
  own_identity =
      new_signing_identity pb node (record { identity = identity; signer = signer; hash = none })

  -- The gateway, the network and the contract of a context fit.
  pub record IsConsistent (c : GatewayContext) : Type 0 where
    pub identity_kept : c.identity ≡ identity
    pub signer_kept : c.signer ≡ signer
    pub gateway_own : IsOwnGateway own_identity c.gateway
    pub network_own : IsOwnNetwork own_identity c.network
    pub contract_own : IsOfNetwork c.network c.contract

  abbrev pub Consistent : ContextState → Type 0
  Consistent s = IsConsistent s.0.0

  pub use_network-Consistent : (name : String) → Preserves Consistent (use_network name)
  unfolding use_network get_gateway assert_defined
  use_network-Consistent name = record {
    at = λ s p. elim (Option-cases s.0.0.gateway) [
      | inl e ↦ simp e p
      | inr (g, e) ↦ simp e (record {
        identity_kept = p.identity_kept;
        signer_kept = p.signer_kept;
        gateway_own = subst (IsOwnGateway own_identity) e p.gateway_own;
        network_own = subst (IsOwnGateway own_identity) e p.gateway_own;
        contract_own = tt;
      })
    ];
  }

  pub use_contract-Consistent : (name : String) → Preserves Consistent (use_contract name)
  unfolding use_contract current_network assert_defined get_contract
  use_contract-Consistent name = record {
    at = λ s p. elim (Option-cases s.0.0.network) [
      | inl e ↦ simp e p
      | inr (n, e) ↦ simp e (record {
        identity_kept = p.identity_kept;
        signer_kept = p.signer_kept;
        gateway_own = p.gateway_own;
        network_own = subst (IsOwnNetwork own_identity) e p.network_own;
        contract_own = (refl, refl, refl);
      })
    ];
  }

  -- What changes neither the gateway nor the network nor the contract keeps them consistent.
  close_listener-Consistent : (l : Option EventListener) → Preserves Consistent (close_listener l)
  close_listener-Consistent none = record { at = λ s p. p }
  close_listener-Consistent (some l) = record { at = λ s p. p }

  close_as-Consistent :
      {A : Type 0} (close_it : A → Closing) (a : Option A)
      → Preserves Consistent (close_as close_it a)
  close_as-Consistent close_it none = record { at = λ s p. p }
  close_as-Consistent close_it (some a) = record { at = λ s p. p }

  pub close_chaincode_events-Consistent :
      (name : String) → Preserves Consistent (close_chaincode_events name)
  unfolding close_chaincode_events
  close_chaincode_events-Consistent name = record {
    at = λ s p. (close_listener-Consistent (get name s.0.0.chaincode_event_listeners)).at s p;
  }

  pub close-Consistent : Preserves Consistent close
  unfolding close
  close-Consistent = Preserves->>= (Preserves-of_result (λ (s : ContextState). ok s.0.0)) λ c.
      Preserves->>=
        (Preserves-for_each close_entry c.chaincode_event_listeners (λ l. record { at = λ s p. p }))
        λ _.
          Preserves->>= (close_as-Consistent Closing.client_closed c.client)
            λ _. close_as-Consistent Closing.signer_closed c.signer_close

  set_listener-Consistent :
      (name : String) (l : EventListener) → Preserves Consistent (set_listener name l)
  unfolding set_listener
  set_listener-Consistent name l = record {
    at = λ s p. record {
      identity_kept = p.identity_kept;
      signer_kept = p.signer_kept;
      gateway_own = p.gateway_own;
      network_own = p.network_own;
      contract_own = p.contract_own;
    };
  }

  advance-Consistent :
      (name : String) (l : EventListener) (r : Option (Read Thrown ChaincodeEvent × Generator))
      → Preserves Consistent (advance name l r)
  advance-Consistent name l none = record { at = λ s p. p }
  advance-Consistent name l (some (read, g)) = Preserves->>= (set_listener-Consistent name _) λ _.
      Preserves->>= {f = λ e. pure (some e)} (Preserves-of_result (λ _. event_of read))
        λ e. record { at = λ s p. p }

  current_network-Consistent : Preserves Consistent current_network
  unfolding current_network
  current_network-Consistent = record { at = λ s p. p }

  get_listener-Consistent :
      (name : String) → Preserves Consistent (get_chaincode_event_listener name)
  unfolding get_chaincode_event_listener
  get_listener-Consistent name = record { at = λ s p. p }

  pub next_chaincode_event-Consistent :
      (fuel : ℕ) (name : String) → Preserves Consistent (next_chaincode_event fuel name)
  unfolding next_chaincode_event
  next_chaincode_event-Consistent fuel name =
      Preserves->>= (get_listener-Consistent name)
        λ l. advance-Consistent name l (Events.next fuel l.events.responses l.events.generator)

  module _ (clients : Connection → GatewayGrpcClient) where
    connected-own_identity :
        (k : Connection) (c : GatewayContext)
        → c.identity ≡ identity
        → c.signer ≡ signer
        → connected pb node clients k c ≡ ok own_identity
    unfolding connect internal_connect
    connected-own_identity k c e f = simp (e, f)

    pub connect_to-Consistent :
        (k : Connection) → Preserves Consistent (connect_to pb node clients k)
    unfolding connect_to
    connect_to-Consistent k = record {
      at = λ s p.
          simp
            (connected-own_identity k (record (s.0.0) { client = some k }) p.identity_kept
              p.signer_kept)
            (record {
              identity_kept = p.identity_kept;
              signer_kept = p.signer_kept;
              gateway_own = refl;
              network_own = p.network_own;
              contract_own = p.contract_own;
            });
    }

    open_events-Consistent :
        (n : NetworkImpl × Connection) (chaincode : String)
        (options : Option ChaincodeEventsOptions)
        → Preserves Consistent (open_events pb node clients n chaincode options)
    unfolding open_events
    open_events-Consistent (n, k) chaincode options = record { at = λ s p. p }

    pub listen-Consistent :
        (name chaincode : String) (options : Option ChaincodeEventsOptions)
        → Preserves Consistent (listen_for_chaincode_events pb node clients name chaincode options)
    unfolding listen_for_chaincode_events
    listen-Consistent name chaincode options =
        Preserves->>= (close_chaincode_events-Consistent name) λ _.
          Preserves->>= current_network-Consistent λ n.
            Preserves->>= (open_events-Consistent n chaincode options)
              λ events. set_listener-Consistent name (new_event_listener events)
