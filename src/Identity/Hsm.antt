-- ===== src/Identity/Hsm.antt =====
-- node/src/identity/hsmsigner.ts: signers whose key is in a hardware security module.
pub mod Sessions
pub mod Canonical
use Prim.Native.String.{◌++◌}
use fabric_gateway.Base.{
  ℕ, ◌+◌, ◌-◌, ◌*◌, ◌/◌, String, Option, none, some, List, [], ◌∷◌, Bytes, Bool, true, false,
  length, take, drop, if◌then◌else◌, ltb, leb,
}
use fabric_gateway.Base.{◌==◌ as is_same}
use package.text.Mathlib.Text.{◌==◌}
use fabric_gateway.Js.{Value, text, bytes, JsValue}
use fabric_gateway.Js.Number.{ℤ, pos, negsuc}
use fabric_gateway.Js.Text.{trim}
use fabric_gateway.Identity.Pkcs11.{
  Handle, Template, Call, load, initialize, finalize, get_slot_list, get_token_info, open_session,
  close_session, opened, login, find_objects_init, find_objects, find_objects_final, sign_init,
  sign, Calls, Hsm, Pkcs11,
}
use fabric_gateway.Effect.{Result, ok, err, Step, pure, throw, of_result, ◌>>=◌, ◌>>◌}
use fabric_gateway.Errors.{JsError, new_error}

pub record HsmSignerOptions : Type 0 where
  pub label : String
  pub pin : String
  pub identifier : Value
  pub user_type : Option ℕ

-- What `newSigner` returns: the closures see a session and a key.
pub record HsmSigner : Type 0 where
  pub session : Handle
  pub private_key_handle : Handle

abbrev call : {A : Type 0} → Call → (Calls → Result JsError A) → Hsm A
call c f h = (f h, c ∷ h)

abbrev require : Bool → String → Result JsError (Unit {0})
require true message = err (new_error message)
require false message = ok tt

abbrev is_blank : String → Bool
is_blank s = trim s == ""

abbrev identifier_text : (Bytes → String) → Value → String
identifier_text to_string (text s) = s
identifier_text to_string (bytes b) = to_string b

-- Number 0 is falsy too.
abbrev pub user_type_or : ℕ → Option ℕ → ℕ
user_type_or user none = user
user_type_or user (some n) = if is_same n 0 then user else n

abbrev is_code : ℕ → JsValue → Bool
is_code n (JsValue.number k) = is_same k n
is_code n _ = false

-- The rounding down of half the length is that of `slice`.
abbrev pub halves : Bytes → Bytes × Bytes
halves b = (take (length b / 2) b, drop (length b / 2) b)

-- `new BN(buffer.toString('hex'), 16)`
unfoldable pub number_of : ℕ → Bytes → ℕ
number_of n [] = n
number_of n (b ∷ bs) = number_of (n * 256 + b) bs

-- `n.sub(s)`
abbrev pub sub : ℕ → ℕ → ℤ
sub n s = if leb s n then pos (n - s) else negsuc (s - n - 1)

-- `s`, or the order less `s` where `s` is above half the order.
unfoldable pub canonical : ℕ → ℕ → ℤ
canonical order s = if ltb (order / 2) s then sub order s else pos s

module _ (p : Pkcs11) where
  abbrev close_session_of : Handle → Hsm (Unit {0})
  close_session_of s = call (close_session s) (λ h. p.close_session h s)

  abbrev close_and_throw : {A : Type 0} → Handle → JsError → Hsm A
  close_and_throw s e = close_session_of s >> throw e

  unfoldable pub check_options : HsmSignerOptions → Result JsError (Unit {0})
  check_options o = elim (require (is_blank o.label) "label property must be provided") [
    | err e ↦ err e
    | ok _ ↦ elim (require (is_blank o.pin) "pin property must be provided") [
      | err e ↦ err e
      | ok _ ↦
          require (is_blank (identifier_text p.to_string o.identifier))
            "identifier property must be provided"
    ]
  ]

  -- `slots.find`, which asks for the token of each slot until one has the label.
  unfoldable pub find_slot : String → List Handle → Hsm Handle
  find_slot label [] =
      throw (new_error ("label " ++ label ++ " cannot be found in the pkcs11 slot list"))
  find_slot label (slot ∷ slots) = do
    token ← call (get_token_info slot) (λ h. p.get_token_info h slot)
    let rest = find_slot label slots
    elim token [ none ↦ rest | some l ↦ if trim l == label then pure slot else rest ]

  abbrev find_among : String → Option (List Handle) → Hsm Handle
  find_among label none = throw (new_error "No pkcs11 slots can be found")
  find_among label (some []) = throw (new_error "No pkcs11 slots can be found")
  find_among label (some (slot ∷ slots)) = find_slot label (slot ∷ slots)

  unfoldable pub find_slot_for_label : String → Hsm Handle
  find_slot_for_label label = do slots ← call get_slot_list p.get_slot_list; find_among label slots

  abbrev pub open_with : Handle → Hsm Handle
  open_with slot = do
    session ← call (open_session slot) (λ h. p.open_session h slot)
    call (opened session) (λ h. ok session)

  abbrev after_login :
      Handle → Result JsError (Unit {0}) × Calls → Result JsError (Unit {0}) × Calls
  after_login session (ok _, h) = (ok tt, h)
  after_login session (err e, h) =
      if is_code p.ckr_user_already_logged_in e.code
      then (ok tt, h)
      else close_and_throw session e h

  -- The first `try` of `newSigner`.
  unfoldable pub log_in : Handle → ℕ → String → Hsm (Unit {0})
  log_in session user pin h =
      after_login session (call (login session user pin) (λ h. p.login h session user pin) h)

  abbrev first_object : Handle → Value → Option (List Handle) → Hsm Handle
  first_object session identifier none = do
    call (find_objects_final session) (λ h. p.find_objects_final h session)
    throw (
        new_error
          ("Unable to find object in HSM with ID " ++ identifier_text p.to_string identifier))
  first_object session identifier (some []) = do
    call (find_objects_final session) (λ h. p.find_objects_final h session)
    throw (
        new_error
          ("Unable to find object in HSM with ID " ++ identifier_text p.to_string identifier))
  first_object session identifier (some (object ∷ objects)) = do
    call (find_objects_final session) (λ h. p.find_objects_final h session)
    pure object

  abbrev template_of : Value → ℕ → Template
  template_of identifier key_type = record {
    id = identifier;
    object_class = key_type;
    key_type = p.ckk_ec;
  }

  unfoldable pub find_object_in_hsm : Handle → ℕ → Value → Hsm Handle
  find_object_in_hsm session key_type identifier = do
    call (find_objects_init session (template_of identifier key_type))
        (λ h. p.find_objects_init h session (template_of identifier key_type))
    objects ← call (find_objects session) (λ h. p.find_objects h session)
    first_object session identifier objects

  abbrev after_search : Handle → Result JsError Handle × Calls → Result JsError Handle × Calls
  after_search session (ok key, h) = (ok key, h)
  after_search session (err e, h) = close_and_throw session e h

  -- The second `try`.
  unfoldable pub find_key : Handle → Value → Hsm Handle
  find_key session identifier h =
      after_search session (find_object_in_hsm session p.cko_private_key identifier h)

  unfoldable pub set_up : HsmSignerOptions → Handle → Hsm HsmSigner
  set_up o session = do
    log_in session (user_type_or p.cku_user o.user_type) o.pin
    key ← find_key session o.identifier
    pure (record { session = session; private_key_handle = key })

  unfoldable pub new_signer : HsmSignerOptions → Hsm HsmSigner
  new_signer o = do
    of_result (check_options o)
    slot ← find_slot_for_label o.label
    session ← open_with slot
    set_up o session

  -- The `close` of a signer.
  unfoldable pub close : HsmSigner → Hsm (Unit {0})
  close signer = close_session_of signer.session

  abbrev signature_of : Bytes → Bytes
  signature_of sig =
      let (r, s) = halves sig in
      p.ec_raw_signature_as_der (pos (number_of 0 r)) (canonical p.order (number_of 0 s))

  -- The `signer` of a signer.
  unfoldable pub sign_digest : HsmSigner → Bytes → Hsm Bytes
  sign_digest signer digest = do
    call (sign_init signer.session signer.private_key_handle)
        (λ h. p.sign_init h signer.session signer.private_key_handle)
    sig ← call (sign signer.session digest) (λ h. p.sign h signer.session digest)
    pure (signature_of sig)

  -- The constructor of the factory, and `newHSMSignerFactory`, of signers.ts.
  unfoldable pub new_hsm_signer_factory : String → Hsm (Unit {0})
  new_hsm_signer_factory library = do
    of_result (require (is_blank library) "library must be provided")
    call (load library) (λ h. p.load h library)
    call initialize p.initialize

  unfoldable pub dispose : Hsm (Unit {0})
  dispose = call finalize p.finalize
