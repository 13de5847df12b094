-- ===== src/Scenario/World/Contexts.antt =====
-- The methods of scenario/node/src/customworld.ts that make no gateway context: they leave the map of
-- gateways, and how many contexts there are, as they were.
use fabric_gateway.Base.{ℕ, ◌≡◌, String, some, List}
use fabric_gateway.Js.{Value}
use fabric_gateway.Js.Object.{Object, get}
use fabric_gateway.Effect.{Result, modify}
use fabric_gateway.Effect.Whole.{Preserves, Preserves->>=, Preserves-of_result, Preserves-discard}
use fabric_gateway.Errors.{JsError, Thrown, History}
use fabric_gateway.Platform.{Platform}
use fabric_gateway.Protos.{Protos}
use fabric_gateway.Client.{GatewayGrpcClient}
use fabric_gateway.ProposalBuilder.{ProposalOptions}
use fabric_gateway.Scenario.Utils.{Inspection}
use fabric_gateway.Scenario.Fabric.{Host}
use fabric_gateway.Scenario.Fixtures.{Files, peer_connection_info}
use fabric_gateway.Scenario.Invocation.{TransactionInvocation}
use fabric_gateway.Scenario.Context.{Connection, ContextMethod, connect_to, new_transaction}
use fabric_gateway.Scenario.World.{
  CustomWorld, set_world, set_transaction, get_current_gateway, get_transaction, on_current,
  run_context, use_gateway, prepare_transaction, change_options, set_arguments, set_transient_data,
  set_endorsing_orgs, get_result, last_error,
}
use fabric_gateway.Scenario.World.Calls.{
  connect, set_offline_signer, run_transaction, peer_or, new_client, invoke_transaction,
  invoke_successful_transaction, assert_transaction_fails,
}

module _ (gateways : Object ℕ) (made : ℕ) where
  abbrev pub Same : CustomWorld × History → Type 0
  Same s = (s.0.gateways ≡ gateways) × (s.0.contexts_made ≡ made)

  pub get_transaction-Same : Preserves Same get_transaction
  unfolding get_transaction
  get_transaction-Same = record { at = λ s p. p }

  get_current_gateway-Same : Preserves Same get_current_gateway
  unfolding get_current_gateway
  get_current_gateway-Same = record { at = λ s p. p }

  run_context-Same : {A : Type 0} (m : ContextMethod A) (n : ℕ) → Preserves Same (run_context m n)
  run_context-Same m n = record { at = λ s p. p }

  pub on_current-Same : {A : Type 0} (m : ContextMethod A) → Preserves Same (on_current m)
  unfolding on_current
  on_current-Same m = Preserves->>= get_current_gateway-Same (run_context-Same m)

  pub use_gateway-Same : (name : String) → Preserves Same (use_gateway name)
  unfolding use_gateway
  use_gateway-Same name = record { at = λ s p. p }

  pub prepare_transaction-Same :
      (action name : String) → Preserves Same (prepare_transaction action name)
  unfolding prepare_transaction
  prepare_transaction-Same action name =
      Preserves->>= {f = λ i. modify (set_world (set_transaction i))}
        (on_current-Same (new_transaction action name)) λ i. record { at = λ s p. p }

  change_options-Same : (f : ProposalOptions → ProposalOptions) → Preserves Same (change_options f)
  change_options-Same f = Preserves->>= get_transaction-Same λ i. record { at = λ s p. p }

  pub set_arguments-Same :
      (parse : String → Result JsError (List Value)) (json : String)
      → Preserves Same (set_arguments parse json)
  unfolding set_arguments
  set_arguments-Same parse json =
      Preserves->>= (Preserves-of_result (λ _. _))
        λ args. change_options-Same (λ o. record o { arguments = some args })

  pub set_transient_data-Same : (rows : Object Value) → Preserves Same (set_transient_data rows)
  unfolding set_transient_data
  set_transient_data-Same rows = change_options-Same (λ o. record o { transient_data = some rows })

  pub set_endorsing_orgs-Same :
      (parse : String → Result JsError (List String)) (json : String)
      → Preserves Same (set_endorsing_orgs parse json)
  unfolding set_endorsing_orgs
  set_endorsing_orgs-Same parse json =
      Preserves->>= (Preserves-of_result (λ _. _))
        λ orgs. change_options-Same (λ o. record o { endorsing_organizations = some orgs })

  pub get_result-Same : (util : Inspection) → Preserves Same (get_result util)
  unfolding get_result
  get_result-Same util = Preserves->>= get_transaction-Same λ i. record { at = λ s p. p }

  pub last_error-Same : (util : Inspection) → Preserves Same (last_error util)
  unfolding last_error
  last_error-Same util = Preserves->>= get_transaction-Same λ i. record { at = λ s p. p }

  pub set_offline_signer-Same :
      (host : Host) (files : Files) (user msp_id : String)
      → Preserves Same (set_offline_signer host files user msp_id)
  unfolding set_offline_signer
  set_offline_signer-Same host files user msp_id =
      Preserves->>= (Preserves-of_result (λ _. _))
        λ signer. Preserves->>= get_transaction-Same λ i. record { at = λ s p. p }

  module _ (pb : Protos) (node : Platform) (clients : Connection → GatewayGrpcClient) where
    pub connect-Same :
        (host : Host) (files : Files) (undefined : Thrown) (address : String)
        → Preserves Same (connect host files pb node clients undefined address)
    unfolding connect
    connect-Same host files undefined address =
        Preserves->>=
          (Preserves-of_result
            (λ _. peer_or host files undefined (get address (peer_connection_info host))))
          λ peer.
            Preserves->>= (Preserves-of_result (λ _. files.read_file peer.tls_root_cert_path))
              λ cert.
                Preserves->>= {m = new_client host files peer cert} (record { at = λ s p. p })
                  λ client. on_current-Same (connect_to pb node clients client)

    run_transaction-Same :
        (util : Inspection) (i : TransactionInvocation × Connection)
        → Preserves Same (run_transaction pb node clients util i)
    run_transaction-Same util i = record { at = λ s p. p }

    invoke_transaction-Same :
        (util : Inspection) → Preserves Same (invoke_transaction pb node clients util)
    unfolding invoke_transaction
    invoke_transaction-Same util = Preserves->>= get_transaction-Same λ i.
        Preserves->>= (run_transaction-Same util i)
          λ _. Preserves->>= get_transaction-Same λ j. record { at = λ s p. p }

    pub invoke_successful_transaction-Same :
        (util : Inspection) → Preserves Same (invoke_successful_transaction pb node clients util)
    unfolding invoke_successful_transaction
    invoke_successful_transaction-Same util =
        Preserves->>= (invoke_transaction-Same util) λ _. Preserves-discard (get_result-Same util)

    pub assert_transaction_fails-Same :
        (util : Inspection) → Preserves Same (assert_transaction_fails pb node clients util)
    unfolding assert_transaction_fails
    assert_transaction_fails-Same util =
        Preserves->>= (invoke_transaction-Same util) λ _. Preserves-discard (last_error-Same util)
