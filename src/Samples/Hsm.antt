-- ===== src/Samples/Hsm.antt =====
-- hsm-samples/node/src/hsm-sample.ts: an application whose key is in a security module. Its search for
-- the PKCS#11 library and its reading of a certificate are those of scenario/node/src/fabric.ts and
-- fabricski.ts, word for word.
pub mod Sessions
use fabric_gateway.Base.{String, Option, none, some, [], ◌∷◌, Bytes, Bool}
use fabric_gateway.Js.{text, bytes}
use fabric_gateway.Effect.{Result, ok, err, then_result, map_err, pure, throw, ◌>>=◌, ◌>>◌}
use fabric_gateway.Errors.{JsError, Thrown, error, History}
use fabric_gateway.Platform.{Platform}
use fabric_gateway.Protos.{Protos}
use fabric_gateway.Signing.{Identity, Signer}
use fabric_gateway.Client.{GatewayGrpcClient, DefaultCallOptions}
use fabric_gateway.Contract.{ContractImpl, submit_transaction, evaluate_transaction}
use fabric_gateway.Network.{get_contract}
use fabric_gateway.Gateway.{GatewayImpl, connect, get_network}
use fabric_gateway.Gateway
use fabric_gateway.Identity.Hsm.{HsmSignerOptions, HsmSigner, new_signer, new_hsm_signer_factory}
use fabric_gateway.Identity.Hsm
use fabric_gateway.Scenario.Context.{Connection}
use fabric_gateway.Scenario.Fabric.Library
use fabric_gateway.Scenario.HsmUsers.{Tokens, signer_of}
use fabric_gateway.Scenario.Ski
use fabric_gateway.Scenario.Ski.{EcKey}
use fabric_gateway.Samples.Runtime.{
  Setting, thrown, Sample, call, call_hsm, attempt, log, close_connection, try_finally, try_catch,
  iso_timestamp,
}

abbrev pub msp_id : String
msp_id = "Org1MSP"

abbrev pub user : String
user = "HSMUser"

abbrev pub peer_endpoint : String
peer_endpoint = "localhost:7051"

module _ (setting : Setting) where
  abbrev crypto_path : String
  crypto_path =
      setting.resolve
        (setting.dirname ∷ ".." ∷ ".." ∷ ".." ∷ "scenario" ∷ "fixtures" ∷ "crypto-material" ∷ [])

  abbrev cert_path : String
  cert_path = setting.resolve (crypto_path ∷ "hsm" ∷ user ∷ "signcerts" ∷ "cert.pem" ∷ [])

  abbrev tls_cert_path : String
  tls_cert_path = setting.resolve (
      crypto_path ∷ "crypto-config" ∷ "peerOrganizations" ∷ "org1.example.com" ∷ "peers"
      ∷ "peer0.org1.example.com" ∷ "tls" ∷ "ca.crt" ∷ [])

  unfoldable pub new_grpc_connection : Result Thrown Connection
  new_grpc_connection = then_result (setting.files.read_file tls_cert_path) λ tls_root_cert.
      ok (record {
        url = peer_endpoint;
        server_name_override = "peer0.org1.example.com";
        tls_root_cert = tls_root_cert;
        number = 0;
      })

unfoldable pub find_soft_hsm_pkcs11_lib : (String → Bool) → Result JsError String
unfolding Library.find_soft_hsm_pkcs11_lib
find_soft_hsm_pkcs11_lib exists_sync = Library.find_soft_hsm_pkcs11_lib exists_sync

unfoldable pub get_uncompressed_point_on_curve : EcKey → Result Thrown Bytes
get_uncompressed_point_on_curve key = Ski.get_uncompressed_point_on_curve key

unfoldable pub get_ski_from_certificate : Platform → Ski.GetKey → String → Result Thrown Bytes
get_ski_from_certificate node get_key certificate_pem =
    Ski.get_ski_from_certificate node get_key certificate_pem

module _ (pb : Protos) (node : Platform) (setting : Setting) (tokens : Tokens) where
  abbrev pub hsm_signer_options : Bytes → HsmSignerOptions
  hsm_signer_options ski = record {
    label = "ForFabric";
    pin = "98765432";
    identifier = bytes ski;
    user_type = none;
  }

  unfoldable pub new_hsm_signer : String → Sample HsmSigner
  unfolding get_ski_from_certificate
  new_hsm_signer certificate_pem = do
    ski ← attempt (get_ski_from_certificate node tokens.get_key certificate_pem)
    call_hsm (new_signer tokens.pkcs11 (hsm_signer_options ski))

  abbrev pub contract : GatewayImpl → ContractImpl
  contract g = get_contract (get_network g "mychannel") "basic" none

  unfoldable pub example_submit : GatewayImpl → Sample (Unit {0})
  unfolding get_network get_contract
  example_submit g = do
    timestamp ← iso_timestamp node setting
    log ("Submitting \"put\" transaction with arguments: time," ∷ timestamp ∷ [])
    submit_result ←
        call (
          submit_transaction pb node g.client (contract g) "put"
            (text "time" ∷ text timestamp ∷ []))
    log ("Submit result:" ∷ setting.to_string submit_result ∷ [])
    log ("Evaluating \"get\" query with arguments: time" ∷ [])
    evaluate_result ←
        call (evaluate_transaction pb node g.client (contract g) "get" (text "time" ∷ []))
    log ("Query result:" ∷ setting.to_string evaluate_result ∷ [])

  -- The `try` of `main`.
  abbrev pub run_example : GatewayImpl → Sample (Unit {0})
  run_example g = do example_submit g; log []; log ("Node HSM sample completed successfully" ∷ [])

  -- The `finally` of `main`.
  abbrev pub close_all : GatewayImpl → Connection → HsmSigner → Sample (Unit {0})
  close_all g client hsm = do
    call (Gateway.close g)
    close_connection client
    call_hsm (Hsm.close tokens.pkcs11 hsm)

  abbrev pub run_with : Connection → HsmSigner → Result JsError GatewayImpl → Sample (Unit {0})
  run_with client hsm (err e) = throw (thrown (error e))
  run_with client hsm (ok g) = try_finally (run_example g) (close_all g client hsm)

  abbrev no_default_options : DefaultCallOptions
  no_default_options = record {
    evaluate_options = none;
    endorse_options = none;
    submit_options = none;
    commit_status_options = none;
    chaincode_events_options = none;
  }

  module _ (clients : Connection → GatewayGrpcClient) where
    abbrev pub connected : Connection → Bytes → HsmSigner → Result JsError GatewayImpl
    connected client credentials hsm = connect pb node (record {
      client = some (clients client);
      identity = some (record { msp_id = msp_id; credentials = credentials });
      signer = some (signer_of tokens hsm);
      hash = none;
      default_options = no_default_options;
    })

    unfoldable pub main : Sample (Unit {0})
    unfolding new_grpc_connection find_soft_hsm_pkcs11_lib new_hsm_signer
    main = do
      log ("\nRunning the Node HSM sample" ∷ [])
      client ← attempt (new_grpc_connection setting)
      library ← attempt (map_err error (find_soft_hsm_pkcs11_lib tokens.exists_sync))
      call_hsm (new_hsm_signer_factory tokens.pkcs11 library)
      credentials ← attempt (setting.files.read_file (cert_path setting))
      hsm ← new_hsm_signer (tokens.pkcs11.to_string credentials)
      run_with client hsm (connected client credentials hsm)

    -- `main().catch(console.error)`
    unfoldable pub start : Sample (Unit {0})
    start = try_catch main (λ e. log (setting.util.inspect (some e) ∷ []))
