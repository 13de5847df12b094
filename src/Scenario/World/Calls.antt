-- ===== src/Scenario/World/Calls.antt =====
-- The methods of scenario/node/src/customworld.ts that make gateways, connect them and call the
-- client library.
use fabric_gateway.Base.{ℕ, ◌+◌, String, Option, none, some, Bytes}
use fabric_gateway.Js.Number.{pos}
use fabric_gateway.Js.Object.{get}
use fabric_gateway.Effect.{Result, ok, err, of_result, modify, ◌>>=◌, ◌>>◌}
use fabric_gateway.Effect.Whole.{discard}
use fabric_gateway.Errors.{Thrown, History}
use fabric_gateway.Platform.{Platform}
use fabric_gateway.Protos.{Protos}
use fabric_gateway.Client.{GatewayGrpcClient}
use fabric_gateway.Scenario.Utils.{Inspection}
use fabric_gateway.Scenario.Fabric.{Host}
use fabric_gateway.Scenario.Fixtures.{
  Files, ConnectionInfo, peer_connection_info, new_identity, new_signer,
}
use fabric_gateway.Scenario.HsmUsers.{
  HsmState, HsmStep, Tokens, new_hsm_identity, new_hsm_signer, signer_of,
}
use fabric_gateway.Scenario.Invocation.{
  TransactionInvocation, set_offline_signer as set_signer, get_block_number,
}
use fabric_gateway.Scenario.Invocation
use fabric_gateway.Scenario.Context.{Connection, new_gateway_context, connect_to, client_of}
use fabric_gateway.Scenario.Context.Listening.{listen_for_chaincode_events as listen}
use fabric_gateway.Scenario.World.{
  CustomWorld, WorldMethod, set_world, get_transaction, add_context, on_current, get_result,
  last_error, set_transaction,
}

module _ (host : Host) (files : Files) where
  unfoldable pub create_gateway : String → String → String → WorldMethod (Unit {0})
  unfolding add_context new_identity new_signer
  create_gateway name user msp_id = do
    identity ← of_result (new_identity host files user msp_id)
    signer ← of_result (new_signer host files user msp_id)
    add_context name (new_gateway_context identity (some signer) none)

  unfoldable pub create_gateway_without_signer : String → String → String → WorldMethod (Unit {0})
  unfolding add_context new_identity
  create_gateway_without_signer name user msp_id = do
    identity ← of_result (new_identity host files user msp_id)
    add_context name (new_gateway_context identity none none)

  abbrev put_hsm :
      {A : Type 0} → CustomWorld → Result Thrown A × HsmState → Result Thrown A × CustomWorld
  put_hsm w (r, hsm) = (r, record w { hsm = hsm })

  -- What changes the module's variable and asks the PKCS#11 library.
  abbrev pub on_hsm : {A : Type 0} → HsmStep A → WorldMethod A
  on_hsm m (w, h) = let (r, w') = put_hsm w (m w.hsm) in (r, (w', h))

  unfoldable pub create_gateway_with_hsm_user :
      Platform → Tokens → String → String → String → WorldMethod (Unit {0})
  unfolding add_context new_hsm_identity new_hsm_signer
  create_gateway_with_hsm_user node tokens name user msp_id = do
    identity ← of_result (new_hsm_identity host files user msp_id)
    hsm ← on_hsm (new_hsm_signer host files node tokens user)
    add_context name (new_gateway_context identity (some (signer_of tokens hsm)) (some hsm.session))

  unfoldable pub set_offline_signer : String → String → WorldMethod (Unit {0})
  unfolding get_transaction new_signer
  set_offline_signer user msp_id = do
    signer ← of_result (new_signer host files user msp_id)
    i ← get_transaction
    modify (set_world (set_transaction (set_signer signer i.0, i.1)))

  -- The error of reading a property of nothing.
  abbrev pub peer_or : Thrown → Option ConnectionInfo → Result Thrown ConnectionInfo
  peer_or undefined none = err undefined
  peer_or undefined (some peer) = ok peer

  -- `new grpc.Client(…)`
  abbrev pub new_client : ConnectionInfo → Bytes → WorldMethod Connection
  new_client peer tls_root_cert (w, h) = (
    ok (record {
      url = peer.url;
      server_name_override = peer.server_name_override;
      tls_root_cert = tls_root_cert;
      number = w.clients_made;
    }),
    (record w { clients_made = w.clients_made + 1 }, h),
  )

  module _ (pb : Protos) (node : Platform) (clients : Connection → GatewayGrpcClient) where
    unfoldable pub connect : Thrown → String → WorldMethod (Unit {0})
    unfolding on_current
    connect undefined address = do
      peer ← of_result (peer_or undefined (get address (peer_connection_info host)))
      tls_root_cert ← of_result (files.read_file peer.tls_root_cert_path)
      client ← new_client peer tls_root_cert
      on_current (connect_to pb node clients client)

module _ (pb : Protos) (node : Platform) (clients : Connection → GatewayGrpcClient) where
  unfoldable pub listen_for_chaincode_events : String → String → WorldMethod (Unit {0})
  unfolding on_current
  listen_for_chaincode_events listener_name chaincode_name =
      on_current (listen pb node clients listener_name chaincode_name none)

  unfoldable pub replay_chaincode_events : String → String → ℕ → WorldMethod (Unit {0})
  unfolding on_current
  replay_chaincode_events listener_name chaincode_name start_block = on_current (
      listen pb node clients listener_name chaincode_name
        (some (record { start_block = some (pos start_block) })))

  -- What the invocation leaves, put back.
  abbrev pub put_invoked :
      Connection
      → CustomWorld
      → Result Thrown (Unit {0}) × (TransactionInvocation × History)
      → Result Thrown (Unit {0}) × (CustomWorld × History)
  put_invoked k w (r, (i, h)) = (r, (record w { transaction = some (i, k) }, h))

  abbrev pub run_transaction :
      Inspection → TransactionInvocation × Connection → WorldMethod (Unit {0})
  run_transaction util (i, k) (w, h) =
      put_invoked k w
        (Invocation.invoke_transaction pb node (client_of pb node clients k) util (i, h))

  -- The block number of the invocation, which is still the one that the world refers to.
  abbrev pub keep_block : WorldMethod (Unit {0})
  keep_block = do
    i ← get_transaction
    modify (set_world (λ w. record w { last_committed_block_number = get_block_number i.0 }))

  unfoldable pub invoke_transaction : Inspection → WorldMethod (Unit {0})
  unfolding get_transaction get_block_number Invocation.invoke_transaction
  invoke_transaction util = do i ← get_transaction; run_transaction util i; keep_block

  unfoldable pub invoke_successful_transaction : Inspection → WorldMethod (Unit {0})
  unfolding invoke_transaction
  invoke_successful_transaction util = do invoke_transaction util; discard (get_result util)

  unfoldable pub assert_transaction_fails : Inspection → WorldMethod (Unit {0})
  unfolding invoke_transaction
  assert_transaction_fails util = do invoke_transaction util; discard (last_error util)
