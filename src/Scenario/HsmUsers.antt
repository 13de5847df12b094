-- ===== src/Scenario/HsmUsers.antt =====
-- The users of scenario/node/src/customworld.ts whose keys are in a security module.
use fabric_gateway.Base.{String, none, [], ◌∷◌, Bytes, Bool, true, if◌then◌else◌}
use fabric_gateway.Js.{bytes}
use fabric_gateway.Effect.{
  Result, ok, Step, then_result, map_err, pure, of_result, gets, modify, ◌>>=◌, ◌>>◌,
}
use fabric_gateway.Errors.{JsError, Thrown, History}
use fabric_gateway.Platform.{Platform}
use fabric_gateway.Signing.{Identity, Signer}
use fabric_gateway.Identity.Pkcs11.{Pkcs11, Calls, Hsm}
use fabric_gateway.Identity.Hsm.{
  HsmSignerOptions, HsmSigner, new_signer, new_hsm_signer_factory, sign_digest,
}
use fabric_gateway.Scenario.Ski.{GetKey, get_ski_from_certificate}
use fabric_gateway.Scenario.Fabric.{Host}
use fabric_gateway.Scenario.Fabric.Library.{find_soft_hsm_pkcs11_lib}
use fabric_gateway.Scenario.Fixtures.{Files}

-- The variable of the module, which outlives a scenario, and the calls of the PKCS#11 library.
pub record HsmState : Type 0 where
  pub has_hsm_signer_factory : Bool
  pub calls : Calls

-- What the driver takes from Node.js and other packages for a user of a security module. `calls_of`
-- tells which calls the library has had when a signer is called.
pub record Tokens : Type 0 where
  pub pkcs11 : Pkcs11
  pub exists_sync : String → Bool
  pub get_key : GetKey
  pub calls_of : History → Calls

abbrev pub HsmStep : Type 0 → Type 0
HsmStep A = Step Thrown HsmState A

abbrev pub returned : {A : Type 0} → Bool → Result JsError A × Calls → Result Thrown A × HsmState
returned b (r, calls) =
    (map_err Thrown.error r, record { has_hsm_signer_factory = b; calls = calls })

abbrev pub on_library : {A : Type 0} → Hsm A → HsmStep A
on_library m s = returned s.has_hsm_signer_factory (m s.calls)

-- The function that an HSM signer is, as the client library calls it.
abbrev pub signer_of : Tokens → HsmSigner → Signer
signer_of tokens hsm h digest =
    map_err Thrown.error (sign_digest tokens.pkcs11 hsm digest (tokens.calls_of h)).0

module _ (host : Host) (files : Files) where
  unfoldable pub read_hsm_certificate : String → Result Thrown Bytes
  read_hsm_certificate user = files.read_file (
      host.join
        (host.fixtures_dir ∷ "crypto-material" ∷ "hsm" ∷ user ∷ "signcerts" ∷ "cert.pem" ∷ []))

  unfoldable pub new_hsm_identity : String → String → Result Thrown Identity
  unfolding read_hsm_certificate
  new_hsm_identity user msp_id =
      then_result (read_hsm_certificate user)
        λ certificate. ok (record { msp_id = msp_id; credentials = certificate })

  module _ (node : Platform) (tokens : Tokens) where
    -- The `if` of `newHSMSigner`.
    abbrev make_factory : HsmStep (Unit {0})
    make_factory = do
      library ← of_result (map_err Thrown.error (find_soft_hsm_pkcs11_lib tokens.exists_sync))
      on_library (new_hsm_signer_factory tokens.pkcs11 library)
      modify (λ s. record s { has_hsm_signer_factory = true })

    abbrev hsm_config_options : Bytes → HsmSignerOptions
    hsm_config_options ski = record {
      label = "ForFabric";
      pin = "98765432";
      identifier = bytes ski;
      user_type = none;
    }

    unfoldable pub new_hsm_signer : String → HsmStep HsmSigner
    unfolding read_hsm_certificate find_soft_hsm_pkcs11_lib
    new_hsm_signer user = do
      made ← gets (λ s. s.has_hsm_signer_factory)
      if made then pure tt else make_factory
      certificate ← of_result (read_hsm_certificate user)
      ski ←
          of_result
            (get_ski_from_certificate node tokens.get_key (tokens.pkcs11.to_string certificate))
      on_library (new_signer tokens.pkcs11 (hsm_config_options ski))
