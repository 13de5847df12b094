-- ===== src/Scenario/Ski.antt =====
-- scenario/node/src/fabricski.ts: the identifier of a key in a security module, from a certificate. The
-- reading of the certificate is code of the package `jsrsasign`, a parameter.
use fabric_gateway.Base.{◌≡◌, refl, String, ◌∷◌, ◌++◌, Bytes, All}
use fabric_gateway.Js.Buffer.{to_hex, IsByte}
use fabric_gateway.Js.Hex.{from_hex, from_hex-to_hex}
use fabric_gateway.Effect.{Result, ok, then_result}
use fabric_gateway.Errors.{Thrown}
use fabric_gateway.Platform.{Platform}

-- What `getPublicKeyXYHex` returns.
pub record XyHex : Type 0 where
  pub x : String
  pub y : String

-- A key of an elliptic curve, and `KEYUTIL.getKey`.
pub record EcKey : Type 0 where
  pub get_public_key_xy_hex : Result Thrown XyHex

abbrev pub GetKey : Type 0
GetKey = String → Result Thrown EcKey

unfoldable pub get_uncompressed_point_on_curve : EcKey → Result Thrown Bytes
unfolding from_hex
get_uncompressed_point_on_curve key =
    then_result key.get_public_key_xy_hex
      λ xyhex. ok (from_hex "04" ++ (from_hex xyhex.x ++ from_hex xyhex.y))

unfoldable pub get_ski_from_certificate : Platform → GetKey → String → Result Thrown Bytes
unfolding get_uncompressed_point_on_curve from_hex to_hex
get_ski_from_certificate node get_key pem = then_result (get_key pem) λ key.
    then_result (get_uncompressed_point_on_curve key)
      λ uncompressed_point. ok (from_hex (to_hex (node.sha256 uncompressed_point)))

-- The identifier is the hash of the uncompressed point: the byte 4 and the two coordinates, where
-- the certificate's key gives them as hexadecimal text and the hash gives bytes.
pub get_ski_from_certificate-point :
    (node : Platform) (get_key : GetKey) (pem : String) (key : EcKey) (x y : Bytes)
    → All IsByte x
    → All IsByte y
    → All IsByte (node.sha256 (4 ∷ x ++ y))
    → get_key pem ≡ ok key
    → key.get_public_key_xy_hex ≡ ok (record { x = to_hex x; y = to_hex y })
    → get_ski_from_certificate node get_key pem ≡ ok (node.sha256 (4 ∷ x ++ y))
unfolding get_ski_from_certificate get_uncompressed_point_on_curve
get_ski_from_certificate-point node get_key pem key x y hx hy hash e f = rw e (
    rw f (
      simp (from_hex-to_hex x hx, from_hex-to_hex y hy)
        (rw (from_hex-to_hex (node.sha256 (4 ∷ x ++ y)) hash) refl)))
