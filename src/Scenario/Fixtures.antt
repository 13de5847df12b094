-- ===== src/Scenario/Fixtures.antt =====
-- The users, keys and peers of scenario/node/src/customworld.ts, which are files of the fixtures.
-- Reading a file and decoding a key are parameters.
use Prim.Native.String.{◌++◌}
use fabric_gateway.Base.{String, [], ◌∷◌, Bytes}
use fabric_gateway.Js.Object.{Object}
use fabric_gateway.Effect.{Result, ok, then_result, map_err}
use fabric_gateway.Errors.{Thrown}
use fabric_gateway.Signing.{Identity, Signer}
use fabric_gateway.Identity.Signers.{KeyObject, EcSign, new_private_key_signer}
use fabric_gateway.Scenario.Fabric.{Host}
use fabric_gateway.Scenario.Fabric.Organizations.{get_org_for_msp}

pub record Files : Type 0 where
  pub read_file : String → Result Thrown Bytes
  pub create_private_key : Bytes → Result Thrown KeyObject
  pub ec_sign : EcSign

pub record ConnectionInfo : Type 0 where
  pub url : String
  pub server_name_override : String
  pub tls_root_cert_path : String

abbrev org_of : String → Result Thrown String
org_of msp_id = map_err Thrown.error (get_org_for_msp msp_id)

module _ (host : Host) where
  abbrev info : String → String → String → ConnectionInfo
  info url name org = record {
    url = url;
    server_name_override = name;
    tls_root_cert_path =
        host.fixtures_dir ++ "/crypto-material/crypto-config/peerOrganizations/" ++ org ++ "/peers/"
        ++ name ++ "/tls/ca.crt";
  }

  abbrev pub peer_connection_info : Object ConnectionInfo
  peer_connection_info =
      ("peer0.org1.example.com", info "localhost:7051" "peer0.org1.example.com" "org1.example.com")
      ∷ (
        "peer1.org1.example.com",
        info "localhost:9051" "peer1.org1.example.com" "org1.example.com",
      )
      ∷ (
        "peer0.org2.example.com",
        info "localhost:8051" "peer0.org2.example.com" "org2.example.com",
      )
      ∷ (
        "peer1.org2.example.com",
        info "localhost:10051" "peer1.org2.example.com" "org2.example.com",
      )
      ∷ (
        "peer0.org3.example.com",
        info "localhost:11051" "peer0.org3.example.com" "org3.example.com",
      )
      ∷ []

  unfoldable pub get_credentials_path : String → String → Result Thrown String
  unfolding get_org_for_msp
  get_credentials_path user msp_id = then_result (org_of msp_id) λ org. ok (
      host.join (
        host.fixtures_dir
        ∷ "crypto-material"
        ∷ "crypto-config"
        ∷ "peerOrganizations"
        ∷ org
        ∷ "users"
        ∷ (user ++ "@" ++ org)
        ∷ "msp"
        ∷ []))

  module _ (files : Files) where
    unfoldable pub read_certificate : String → String → Result Thrown Bytes
    unfolding get_credentials_path get_org_for_msp
    read_certificate user msp_id = then_result (org_of msp_id) λ org.
        then_result (get_credentials_path user msp_id) λ path.
          files.read_file
            (host.join (path ∷ "signcerts" ∷ (user ++ "@" ++ org ++ "-cert.pem") ∷ []))

    unfoldable pub new_identity : String → String → Result Thrown Identity
    unfolding read_certificate
    new_identity user msp_id =
        then_result (read_certificate user msp_id)
          λ certificate. ok (record { msp_id = msp_id; credentials = certificate })

    unfoldable pub read_private_key : String → String → Result Thrown KeyObject
    unfolding get_credentials_path
    read_private_key user msp_id = then_result (get_credentials_path user msp_id) λ path.
        then_result (files.read_file (host.join (path ∷ "keystore" ∷ "key.pem" ∷ [])))
          files.create_private_key

    unfoldable pub new_signer : String → String → Result Thrown Signer
    unfolding read_private_key
    new_signer user msp_id =
        then_result (read_private_key user msp_id)
          λ key. map_err Thrown.error (new_private_key_signer files.ec_sign key)
