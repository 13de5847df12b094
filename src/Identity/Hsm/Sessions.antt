-- ===== src/Identity/Hsm/Sessions.antt =====
-- node/src/identity/hsmsigner.ts: which sessions `newSigner` opens and asks to close.
use fabric_gateway.Base.{
  ℕ, ◌≡◌, refl, ap, String, none, some, List, [], ◌∷◌, ◌==◌, if◌then◌else◌, arith, inl, inr, ==_iff,
}
use fabric_gateway.Js.{Value}
use fabric_gateway.Effect.{Result, ok, err, Result-cases, continue_with, ◌>>=◌}
use fabric_gateway.Errors.{JsError}
use fabric_gateway.Identity.Pkcs11.{
  Handle, Calls, opened, close_session, get_slot_list, get_token_info, open_session, Hsm, Pkcs11,
}
use fabric_gateway.Identity.Hsm.{
  HsmSignerOptions, HsmSigner, find_slot, find_slot_for_label, log_in, find_object_in_hsm, find_key,
  set_up, new_signer, open_with, check_options, user_type_or,
}

abbrev pub remove : Handle → List Handle → List Handle
remove s [] = []
remove s (t ∷ others) = if s == t then others else t ∷ remove s others

-- The sessions that calls have opened and have not asked to close.
abbrev pub open_after : Calls → List Handle
open_after [] = []
open_after (c ∷ h) = elim c [
  | opened s ↦ s ∷ open_after h
  | close_session s ↦ remove s (open_after h)
  | _ ↦ open_after h
]

pub remove_self : (s : Handle) (others : List Handle) → remove s (s ∷ others) ≡ others
remove_self s others = ground (arith, ==_iff s s)

-- The sessions of a signer, if it has been made, and these others.
abbrev pub with_signer : Result JsError HsmSigner → List Handle → List Handle
with_signer (ok signer) others = signer.session ∷ others
with_signer (err e) others = others

-- A step neither opens a session nor asks to close one.
abbrev Leaves : {A : Type 0} → Hsm A → Type 0
Leaves m = (h : Calls) → open_after (m h).1 ≡ open_after h

-- A step with an open session `s`, over the others, keeps it if it returns and asks to close it if it
-- throws.
abbrev Left : {A : Type 0} → Handle → List Handle → Result JsError A × Calls → Type 0
Left s others (ok a, h) = open_after h ≡ s ∷ others
Left s others (err e, h) = open_after h ≡ others

module _ (p : Pkcs11) where
  find_slot-Leaves : (label : String) (slots : List Handle) → Leaves (find_slot p label slots)
  unfolding find_slot
  find_slot-Leaves label [] h = refl
  find_slot-Leaves label (slot ∷ slots) h =
      ground (arith, find_slot-Leaves label slots (get_token_info slot ∷ h))

  find_slot_for_label-Leaves : (label : String) → Leaves (find_slot_for_label p label)
  unfolding find_slot_for_label
  find_slot_for_label-Leaves label h = elim (Result-cases (p.get_slot_list h)) [
    | inl (none, e) ↦ rw e refl
    | inl (some [], e) ↦ rw e refl
    | inl (some (slot ∷ slots), e) ↦
        rw e (find_slot-Leaves label (slot ∷ slots) (get_slot_list ∷ h))
    | inr (x, e) ↦ rw e refl
  ]

  find_object_in_hsm-Leaves :
      (s : Handle) (key_type : ℕ) (id : Value) → Leaves (find_object_in_hsm p s key_type id)
  unfolding find_object_in_hsm
  find_object_in_hsm-Leaves s key_type id h = ground arith

  log_in-Left :
      (s : Handle) (user : ℕ) (pin : String) (others : List Handle) (h : Calls)
      → open_after h ≡ s ∷ others
      → Left s others (log_in p s user pin h)
  unfolding log_in
  log_in-Left s user pin others h e = ground (arith, remove_self s others)

  find_key-Left :
      (s : Handle) (id : Value) (others : List Handle) (h : Calls)
      → open_after h ≡ s ∷ others
      → Left s others (find_key p s id h)
  unfolding find_key
  find_key-Left s id others h e =
      ground (arith, remove_self s others, find_object_in_hsm-Leaves s p.cko_private_key id h)

  key-found :
      (s : Handle) (others : List Handle) (r : Result JsError Handle × Calls)
      → Left s others r
      → let made =
          continue_with {B = HsmSigner}
            (λ key h. (ok (record { session = s; private_key_handle = key }), h))
            r in
        open_after made.1 ≡ with_signer made.0 others
  key-found s others (ok key, h) e = e
  key-found s others (err x, h) e = e

  logged_in :
      (s : Handle) (id : Value) (others : List Handle) (r : Result JsError (Unit {0}) × Calls)
      → Left s others r
      → let made =
          continue_with {B = HsmSigner}
            (λ _ h.
              continue_with {B = HsmSigner}
                (λ key h. (ok (record { session = s; private_key_handle = key }), h))
                (find_key p s id h))
            r in
        open_after made.1 ≡ with_signer made.0 others
  logged_in s id others (ok _, h) e =
      key-found s others (find_key p s id h) (find_key-Left s id others h e)
  logged_in s id others (err x, h) e = e

  set_up-open :
      (o : HsmSignerOptions) (s : Handle) (others : List Handle) (h : Calls)
      → open_after h ≡ s ∷ others
      → open_after (set_up p o s h).1 ≡ with_signer (set_up p o s h).0 others
  unfolding set_up
  set_up-open o s others h e =
      logged_in s o.identifier others (log_in p s (user_type_or p.cku_user o.user_type) o.pin h)
        (log_in-Left s (user_type_or p.cku_user o.user_type) o.pin others h e)

  slot-found :
      (o : HsmSignerOptions) (others : List Handle) (r : Result JsError Handle × Calls)
      → open_after r.1 ≡ others
      → let made = continue_with (λ slot. open_with p slot >>= λ session. set_up p o session) r in
        open_after made.1 ≡ with_signer made.0 others
  slot-found o others (err x, h) e = e
  slot-found o others (ok slot, h) e = elim (Result-cases (p.open_session h slot)) [
    | inl (session, o_e) ↦ rw o_e (
        set_up-open o session others (opened session ∷ open_session slot ∷ h)
          (ap (λ l. session ∷ l) e))
    | inr (x, o_e) ↦ rw o_e e
  ]

  -- Whatever the library answers, the sessions that have been opened and not asked to close are, once a
  -- signer has been made, those from before and the session of the signer; where making it throws, they
  -- are those from before.
  pub new_signer-open :
      (o : HsmSignerOptions) (h : Calls)
      → open_after (new_signer p o h).1 ≡ with_signer (new_signer p o h).0 (open_after h)
  unfolding new_signer
  new_signer-open o h = elim (Result-cases (check_options p o)) [
    | inl (_, e) ↦ rw e (
        slot-found o (open_after h) (find_slot_for_label p o.label h)
          (find_slot_for_label-Leaves o.label h))
    | inr (x, e) ↦ rw e refl
  ]
