-- ===== src/Identity/Signers.antt =====
-- node/src/identity/signers.ts: signers with a private key in memory. Decoding a key and signing on
-- a curve are code of other packages, parameters here.
use Prim.Native.String.{◌++◌}
use package.text.Mathlib.Text.{◌==◌}
use fabric_gateway.Base.{
  ℕ, ◌≡◌, refl, String, Option, none, some, List, [], ◌∷◌, Bytes, if◌then◌else◌,
}
use fabric_gateway.Js.Object.{Object, get}
use fabric_gateway.Js.Text.{number_to_string}
use fabric_gateway.Effect.{Result, ok, err, then_result, map_err}
use fabric_gateway.Errors.{JsError, new_error, Thrown}
use fabric_gateway.Signing.{Signer}

-- A curve of the `elliptic` package.
pub data Curve : Type 0 where
  p256 p384 : Curve

-- A `KeyObject` of Node.js, with what `ecPrivateKeyAsRaw` decodes of it: the raw key and the curve's
-- object identifier.
pub record KeyObject : Type 0 where
  pub type : String
  pub asymmetric_key_type : Option String
  pub ec_private_key_as_raw : Result JsError (Bytes × List ℕ)

-- `curve.sign(digest, keyPair, { canonical: true }).toDER()`, by curve and raw key.
abbrev pub EcSign : Type 0
EcSign = Curve → Bytes → Bytes → Result JsError Bytes

-- `objectIdBytes.join('.')`
abbrev join : List ℕ → String
join [] = ""
join (n ∷ []) = number_to_string n
join (n ∷ (m ∷ ns)) = number_to_string n ++ "." ++ join (m ∷ ns)

abbrev named_curves : Object Curve
named_curves = ("1.2.840.10045.3.1.7", p256) ∷ ("1.3.132.0.34", p384) ∷ []

abbrev curve_or : String → Option Curve → Result JsError Curve
curve_or object_id none = err (new_error ("Unsupported curve object identifier: " ++ object_id))
curve_or object_id (some curve) = ok curve

unfoldable pub get_curve : List ℕ → Result JsError Curve
unfolding get number_to_string
get_curve object_id_bytes =
    curve_or (join object_id_bytes) (get (join object_id_bytes) named_curves)

-- The function that the signer is, once the curve and the key are known.
abbrev pub signer_of : EcSign → Curve → Bytes → Signer
signer_of ec_sign curve raw_key h digest = map_err Thrown.error (ec_sign curve raw_key digest)

abbrev named : Option String → String
named none = "undefined"
named (some name) = name

module _ (ec_sign : EcSign) where
  unfoldable pub new_ec_private_key_signer : KeyObject → Result JsError Signer
  unfolding get_curve
  new_ec_private_key_signer key =
      then_result key.ec_private_key_as_raw λ (raw_key, curve_object_id).
        then_result (get_curve curve_object_id) λ curve. ok (signer_of ec_sign curve raw_key)

  unfoldable pub new_private_key_signer : KeyObject → Result JsError Signer
  unfolding new_ec_private_key_signer
  new_private_key_signer key =
      if key.type == "private"
      then (if named key.asymmetric_key_type == "ec"
          then new_ec_private_key_signer key
          else err (new_error ("Unsupported private key type: " ++ named key.asymmetric_key_type)))
      else err (new_error ("Invalid key type: " ++ key.type))

-- The object identifiers of the curves in RFC 5480.
abbrev pub object_id_of : Curve → List ℕ
object_id_of p256 = 1 ∷ 2 ∷ 840 ∷ 10045 ∷ 3 ∷ 1 ∷ 7 ∷ []
object_id_of p384 = 1 ∷ 3 ∷ 132 ∷ 0 ∷ 34 ∷ []

get_curve-object_id_of : (curve : Curve) → get_curve (object_id_of curve) ≡ ok curve
unfolding get_curve
get_curve-object_id_of p256 = refl
get_curve-object_id_of p384 = refl

-- A private elliptic curve key on P-256 or P-384 makes a signer: it signs on that curve, with that
-- key. Its digests are not hashed again.
new_private_key_signer-object_id_of :
    (ec_sign : EcSign) (key : KeyObject) (curve : Curve) (raw_key : Bytes)
    → key.type ≡ "private"
    → key.asymmetric_key_type ≡ some "ec"
    → key.ec_private_key_as_raw ≡ ok (raw_key, object_id_of curve)
    → new_private_key_signer ec_sign key ≡ ok (signer_of ec_sign curve raw_key)
unfolding new_private_key_signer new_ec_private_key_signer
new_private_key_signer-object_id_of ec_sign key curve raw_key private ec decoded =
    simp private (simp ec (rw decoded (rw (get_curve-object_id_of curve) refl)))
