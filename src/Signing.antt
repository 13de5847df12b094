-- ===== src/Signing.antt =====
-- node/src/signingidentity.ts, with the types of node/src/identity/identity.d.ts, signer.d.ts and
-- node/src/hash/hash.d.ts. `Uint8Array.from` copies an array, and a value here has no identity.
pub mod Signable
pub mod Once
pub mod Concurrent
pub mod Calls
pub mod Sent
use fabric_gateway.Base.{String, Option, none, some, List, ◌∷◌, Bytes}
use fabric_gateway.Effect.{Result, err}
use fabric_gateway.Errors.{Thrown, new_error, Event, History, M}
use fabric_gateway.Protos.{Protos}
use fabric_gateway.Platform.{Platform}

-- `Identity`
pub record Identity : Type 0 where
  pub msp_id : String
  pub credentials : Bytes

-- A signing implementation is code of the application, or an HSM: what it answers may depend on
-- all that went before.
abbrev pub Signer : Type 0
Signer = History → Bytes → Result Thrown Bytes

abbrev pub Hash : Type 0
Hash = Bytes → Bytes

pub record SigningIdentityOptions : Type 0 where
  pub identity : Identity
  pub signer : Option Signer
  pub hash : Option Hash

pub record SigningIdentity : Type 0 where
  pub identity : Identity
  pub creator : Bytes
  pub hash : Hash
  pub signer : Signer

abbrev pub undefined_signer_message : String
undefined_signer_message = "No signing implementation"

undefined_signer : Signer
undefined_signer h digest = err (Thrown.error (new_error undefined_signer_message))

-- `options.x || fallback`, for an optional function.
abbrev pub or_default {ℓ} : {A : Type ℓ} → Option A → A → A
or_default none fallback = fallback
or_default (some a) fallback = a

-- The constructor of `SigningIdentity`.
unfoldable pub new_signing_identity : Protos → Platform → SigningIdentityOptions → SigningIdentity
unfolding undefined_signer
new_signing_identity pb node options = record {
  identity = options.identity;
  creator =
      pb.serialized_identity.serialize_binary
        (record { mspid = options.identity.msp_id; id_bytes = options.identity.credentials });
  hash = or_default options.hash node.sha256;
  signer = or_default options.signer undefined_signer;
}

unfoldable pub get_identity : SigningIdentity → Identity
get_identity s = s.identity

unfoldable pub get_creator : SigningIdentity → Bytes
get_creator s = s.creator

unfoldable pub hash : SigningIdentity → Bytes → Bytes
hash s message = s.hash message

unfoldable pub sign : SigningIdentity → Bytes → M Bytes
sign s digest h = (s.signer h digest, Event.sign digest ∷ h)
