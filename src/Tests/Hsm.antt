-- ===== src/Tests/Hsm.antt =====
-- The theorems about signers at concrete inputs: a security module with one token and one key, whose
-- signatures have a second number above half the order.
use fabric_gateway.Base.{◌≡◌, refl, ℕ, ◌≤◌, ◌/◌, ◌⊎◌, ◌+◌, none, some, [], ◌∷◌, arith}
use fabric_gateway.Js.{text, JsValue}
use fabric_gateway.Js.Number.{ℤ, pos, negsuc}
use fabric_gateway.Effect.{ok, err}
use fabric_gateway.Errors.{new_error}
use fabric_gateway.Identity.Pkcs11.{Pkcs11, sign, sign_init}
use fabric_gateway.Identity.Hsm.{
  HsmSignerOptions, HsmSigner, new_signer, sign_digest, number_of, dispose, new_hsm_signer_factory,
  close,
}
use fabric_gateway.Identity.Hsm.Sessions.{open_after, with_signer, new_signer-open}
use fabric_gateway.Identity.Hsm.Canonical.{sign_digest-low}
use fabric_gateway.Identity.Signers.{p256, KeyObject, EcSign, object_id_of}
use fabric_gateway.Tests.Run.{run}

abbrev magnitude : ℤ → ℕ
magnitude (pos n) = n
magnitude (negsuc n) = n

abbrev pub module_with_key : Pkcs11
module_with_key = record {
  load = λ h l. ok tt;
  initialize = λ h. ok tt;
  finalize = λ h. ok tt;
  get_slot_list = λ h. ok (some (3 ∷ 4 ∷ []));
  get_token_info = λ h s. ok (some "ForFabric ");
  open_session = λ h s. ok 8;
  login = λ h s u pin. err (record (new_error "logged in") { code = JsValue.number 256 });
  find_objects_init = λ h s t. ok tt;
  find_objects = λ h s. ok (some (5 ∷ []));
  find_objects_final = λ h s. ok tt;
  sign_init = λ h s k. ok tt;
  sign = λ h s d. ok (1 ∷ 7 ∷ []);
  close_session = λ h s. ok tt;
  cku_user = 1;
  ckr_user_already_logged_in = 256;
  cko_private_key = 3;
  ckk_ec = 3;
  order = 11;
  ec_raw_signature_as_der = λ r s. magnitude r ∷ magnitude s ∷ [];
  to_string = λ b. "";
}

-- The same module without a key.
abbrev module_without_key : Pkcs11
module_without_key = record module_with_key { find_objects = λ h s. ok (some []) }

abbrev options : HsmSignerOptions
options = record { label = "ForFabric"; pin = "98765432"; identifier = text "id"; user_type = none }

abbrev signer : HsmSigner
signer = record { session = 8; private_key_handle = 5 }

new_signer_run : (new_signer module_with_key options []).0 ≡ ok signer
unfolding run
new_signer_run = refl

closed_run : open_after (new_signer module_without_key options []).1 ≡ []
unfolding run
closed_run = refl

close_run :
    open_after (close module_with_key signer (new_signer module_with_key options []).1).1 ≡ []
unfolding run
close_run = refl

blank_run :
    new_signer module_with_key (record options { pin = "  " }) []
    ≡ (err (new_error "pin property must be provided"), [])
unfolding run
blank_run = refl

factory_run :
    (new_hsm_signer_factory module_with_key " " []).0 ≡ err (new_error "library must be provided")
unfolding run
factory_run = refl

dispose_run : (dispose module_with_key []).0 ≡ ok tt
unfolding run
dispose_run = refl

new_signer-open_example :
    open_after (new_signer module_without_key options []).1
    ≡ with_signer (new_signer module_without_key options []).0 []
new_signer-open_example = new_signer-open module_without_key options []

sign_digest-low_example :
    (k : ℕ) × ((sign_digest module_with_key signer (2 ∷ []) [] ≡ (
      ok (magnitude (pos (number_of 0 (1 ∷ []))) ∷ k ∷ []),
      sign 8 (2 ∷ []) ∷ sign_init 8 5 ∷ [],
    ))
      × ((k ≤ 11 / 2) × ((k ≡ number_of 0 (7 ∷ [])) ⊎ (k + number_of 0 (7 ∷ []) ≡ 11))))
unfolding run
sign_digest-low_example =
    sign_digest-low module_with_key signer (2 ∷ []) (1 ∷ 7 ∷ []) [] refl refl (omega arith)

abbrev pub ec_sign : EcSign
ec_sign curve raw_key digest = ok digest

abbrev pub key : KeyObject
key = record {
  type = "private";
  asymmetric_key_type = some "ec";
  ec_private_key_as_raw = ok (9 ∷ [], object_id_of p256);
}
