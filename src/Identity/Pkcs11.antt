-- ===== src/Identity/Pkcs11.antt =====
-- The PKCS#11 library that node/src/identity/hsmsigner.ts calls, a parameter: an oracle over the
-- calls made so far.
use fabric_gateway.Base.{ℕ, String, Option, List, Bytes}
use fabric_gateway.Js.{Value}
use fabric_gateway.Js.Number.{ℤ}
use fabric_gateway.Effect.{Result, Step}
use fabric_gateway.Errors.{JsError}

-- A slot, a session and a key are handles.
abbrev pub Handle : Type 0
Handle = ℕ

-- The attributes `CKA_ID`, `CKA_CLASS` and `CKA_KEY_TYPE` that the program asks for.
pub record Template : Type 0 where
  pub id : Value
  pub object_class : ℕ
  pub key_type : ℕ

-- A call of the library.
pub data Call : Type 0 where
  load : String → Call
  initialize finalize get_slot_list : Call
  get_token_info open_session close_session : Handle → Call
  opened : Handle → Call
  login : Handle → ℕ → String → Call
  find_objects_init : Handle → Template → Call
  find_objects find_objects_final : Handle → Call
  sign_init : Handle → Handle → Call
  sign : Handle → Bytes → Call

-- The calls made so far, the latest first; `opened s` is the return of an `open_session`.
abbrev pub Calls : Type 0
Calls = List Call

abbrev pub Hsm : Type 0 → Type 0
Hsm A = Step JsError Calls A

-- The library, its constants that the program names, and the code that the signer calls besides:
-- the order of the curve P-256, the DER encoder of a signature, and the text of a buffer.
pub record Pkcs11 : Type 0 where
  pub load : Calls → String → Result JsError (Unit {0})
  pub initialize : Calls → Result JsError (Unit {0})
  pub finalize : Calls → Result JsError (Unit {0})
  pub get_slot_list : Calls → Result JsError (Option (List Handle))
  -- The label of a token, where there is one.
  pub get_token_info : Calls → Handle → Result JsError (Option String)
  pub open_session : Calls → Handle → Result JsError Handle
  pub login : Calls → Handle → ℕ → String → Result JsError (Unit {0})
  pub find_objects_init : Calls → Handle → Template → Result JsError (Unit {0})
  pub find_objects : Calls → Handle → Result JsError (Option (List Handle))
  pub find_objects_final : Calls → Handle → Result JsError (Unit {0})
  pub sign_init : Calls → Handle → Handle → Result JsError (Unit {0})
  pub sign : Calls → Handle → Bytes → Result JsError Bytes
  pub close_session : Calls → Handle → Result JsError (Unit {0})
  pub cku_user : ℕ
  pub ckr_user_already_logged_in : ℕ
  pub cko_private_key : ℕ
  pub ckk_ec : ℕ
  pub order : ℕ
  pub ec_raw_signature_as_der : ℤ → ℤ → Bytes
  pub to_string : Bytes → String
