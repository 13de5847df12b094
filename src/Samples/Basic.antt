-- ===== src/Samples/Basic.antt =====
-- samples/node/src/sample.ts: an application that submits, evaluates and listens for events.
pub mod Examples
pub mod Listening
pub mod Calls
pub mod LaterCalls
pub mod Order
use fabric_gateway.Base.{ℕ, ◌+◌, String, Option, none, some, [], ◌∷◌, Bytes}
use fabric_gateway.Js.{JsValue}
use fabric_gateway.Effect.{Result, ok, err, then_result, map_err, pure, throw, ◌>>=◌, ◌>>◌}
use fabric_gateway.Errors.{JsError, Thrown, error, CallOptions, History}
use fabric_gateway.Platform.{Platform}
use fabric_gateway.Protos.{Protos}
use fabric_gateway.Signing.{Identity, Signer}
use fabric_gateway.Identity.Signers.{new_private_key_signer}
use fabric_gateway.Client.{GatewayGrpcClient, OptionsSupplier, DefaultCallOptions}
use fabric_gateway.Gateway.{GatewayImpl, connect, close}
use fabric_gateway.Scenario.Context.{Connection}
use fabric_gateway.Samples.Runtime.{
  Setting, thrown, Sample, call, attempt, log, close_connection, try_finally, try_catch,
}
use fabric_gateway.Samples.Basic.Examples.{
  example_submit, example_submit_async, example_submit_private_data, example_submit_private_data2,
  example_state_based_endorsement,
}
use fabric_gateway.Samples.Basic.Listening.{
  example_chaincode_events, example_chaincode_event_replay, example_error_handling,
}

abbrev pub msp_id : String
msp_id = "Org1MSP"

abbrev pub peer_endpoint : String
peer_endpoint = "localhost:7051"

module _ (setting : Setting) where
  abbrev crypto_path : String
  crypto_path = setting.resolve (
      setting.dirname ∷ ".." ∷ ".." ∷ ".." ∷ "scenario" ∷ "fixtures" ∷ "crypto-material"
      ∷ "crypto-config" ∷ "peerOrganizations" ∷ "org1.example.com" ∷ [])

  abbrev cert_path : String
  cert_path = setting.resolve (
      crypto_path ∷ "users" ∷ "User1@org1.example.com" ∷ "msp" ∷ "signcerts"
      ∷ "User1@org1.example.com-cert.pem" ∷ [])

  abbrev key_path : String
  key_path =
      setting.resolve
        (crypto_path ∷ "users" ∷ "User1@org1.example.com" ∷ "msp" ∷ "keystore" ∷ "key.pem" ∷ [])

  abbrev tls_cert_path : String
  tls_cert_path =
      setting.resolve (crypto_path ∷ "peers" ∷ "peer0.org1.example.com" ∷ "tls" ∷ "ca.crt" ∷ [])

  unfoldable pub new_grpc_connection : Result Thrown Connection
  new_grpc_connection = then_result (setting.files.read_file tls_cert_path) λ tls_root_cert.
      ok (record {
        url = peer_endpoint;
        server_name_override = "peer0.org1.example.com";
        tls_root_cert = tls_root_cert;
        number = 0;
      })

  unfoldable pub new_identity : Result Thrown Identity
  new_identity =
      then_result (setting.files.read_file cert_path)
        λ credentials. ok (record { msp_id = msp_id; credentials = credentials })

  unfoldable pub new_signer : Result Thrown Signer
  new_signer = then_result (setting.files.read_file key_path) λ private_key_pem.
      then_result (setting.files.create_private_key private_key_pem)
        λ private_key. map_err error (new_private_key_signer setting.files.ec_sign private_key)

-- `() => { return { deadline: Date.now() + milliseconds }; }`
abbrev pub deadline_after : Platform → ℕ → OptionsSupplier
deadline_after node milliseconds h =
    ok (("deadline", JsValue.number (node.date_now h + milliseconds)) ∷ [])

abbrev pub default_options : Platform → DefaultCallOptions
default_options node = record {
  evaluate_options = some (deadline_after node 5000);
  endorse_options = some (deadline_after node 15000);
  submit_options = some (deadline_after node 5000);
  commit_status_options = some (deadline_after node 60000);
  chaincode_events_options = none;
}

module _ (pb : Protos) (node : Platform) (setting : Setting)
    (clients : Connection → GatewayGrpcClient) (fuel : ℕ) where
  abbrev pub connected : Connection → Identity → Signer → Result JsError GatewayImpl
  connected client identity signer = connect pb node (record {
    client = some (clients client);
    identity = some identity;
    signer = some signer;
    hash = none;
    default_options = default_options node;
  })

  -- The `try` of `main`.
  unfoldable pub run_examples : GatewayImpl → Sample (Unit {0})
  run_examples gateway = do
    log ("exampleSubmit:" ∷ [])
    example_submit pb node setting gateway
    log []
    log ("exampleSubmitAsync:" ∷ [])
    example_submit_async pb node setting gateway
    log []
    log ("exampleSubmitPrivateData:" ∷ [])
    example_submit_private_data pb node setting gateway
    log []
    log ("exampleSubmitPrivateData2:" ∷ [])
    example_submit_private_data2 pb node setting gateway
    log []
    log ("exampleStateBasedEndorsement:" ∷ [])
    example_state_based_endorsement pb node setting gateway
    log []
    log ("exampleChaincodeEvents:" ∷ [])
    example_chaincode_events pb node setting gateway fuel
    log []
    log ("exampleChaincodeEventReplay:" ∷ [])
    example_chaincode_event_replay pb node setting gateway fuel
    log []
    log ("exampleErrorHandling:" ∷ [])
    example_error_handling pb node setting gateway
    log []

  abbrev pub run_with : Connection → Result JsError GatewayImpl → Sample (Unit {0})
  run_with client (err e) = throw (thrown (error e))
  run_with client (ok gateway) =
      try_finally (run_examples gateway) (call (close gateway) >> close_connection client)

  unfoldable pub main : Sample (Unit {0})
  unfolding new_grpc_connection new_identity new_signer run_examples
  main = do
    client ← attempt (new_grpc_connection setting)
    identity ← attempt (new_identity setting)
    signer ← attempt (new_signer setting)
    run_with client (connected client identity signer)

  -- `main().catch(console.error)`
  unfoldable pub start : Sample (Unit {0})
  start = try_catch main (λ e. log (setting.util.inspect (some e) ∷ []))
