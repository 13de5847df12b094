-- ===== src/Js/Hex.antt =====
-- The decoding of hexadecimal text by Node's `Buffer`.
use Prim.Native.Char.{code}
use native.Mathlib.Decide.{ℕ_discrete}
use fabric_gateway.Base.{
  ℕ, zero, suc, ◌+◌, ◌-◌, ◌*◌, ◌/◌, ◌%◌, ◌<◌, ◌≡◌, refl, ap, String, Option, none, some, [], ◌∷◌,
  Bytes, All, Bool, true, false, ◌&&◌, leb, ◌==◌, if◌then◌else◌, arith, ==_iff, and_left, and_right,
}
use fabric_gateway.Js.Buffer.{hex_digit, to_hex, IsByte}

-- The value of a digit, in either case.
abbrev pub hex_value : ℕ → Option ℕ
hex_value n =
    if leb 48 n && leb n 57
    then some (n - 48)
    else if leb 97 n && leb n 102
    then some (n - 87)
    else if leb 65 n && leb n 70
    then some (n - 55)
    else none

abbrev pub decoded : Option ℕ → Option ℕ → Bytes → Bytes
decoded (some high) (some low) rest = (high * 16 + low) ∷ rest
decoded (some high) none rest = []
decoded none low rest = []

-- `Buffer.from(text, 'hex')`: it ends at the first pair that is no byte.
unfoldable pub from_hex : String → Bytes
from_hex String.[] = []
from_hex (String.◌∷◌ c String.[]) = []
from_hex (String.◌∷◌ c (String.◌∷◌ d s)) =
    decoded (hex_value (code c)) (hex_value (code d)) (from_hex s)

abbrev is_value : ℕ → Option ℕ → Bool
is_value n none = false
is_value n (some k) = k == n

-- A digit is decoded, for each of the numbers below a bound.
decodes : ℕ → Bool
decodes zero = true
decodes (suc n) = is_value n (hex_value (code (hex_digit n))) && decodes n

is_value-eq : (n : ℕ) (v : Option ℕ) → is_value n v ≡ true → v ≡ some n
is_value-eq n none e = cc
is_value-eq n (some k) e = ap some ((==_iff k n).0 e)

decodes_at : (k n : ℕ) → decodes k ≡ true → n < k → hex_value (code (hex_digit n)) ≡ some n
unfolding decodes
decodes_at zero n e h = absurd (omega arith)
decodes_at (suc k) n e h = elim (ℕ_discrete n k) [
  | yes p ↦ rw p (is_value-eq k _ (and_left _ _ e))
  | no p ↦ decodes_at k n (and_right _ _ e) (omega arith)
]

hex_value-hex_digit : (n : ℕ) → n < 16 → hex_value (code (hex_digit n)) ≡ some n
unfolding decodes
hex_value-hex_digit n = decodes_at 16 n refl

-- Bytes are decoded from their text.
pub from_hex-to_hex : (b : Bytes) → All IsByte b → from_hex (to_hex b) ≡ b
unfolding from_hex to_hex
from_hex-to_hex [] h = refl
from_hex-to_hex (b ∷ bs) (hb, h) =
    let whole : b / 16 * 16 + b % 16 ≡ b = omega arith in
    rw (hex_value-hex_digit (b / 16) (omega arith)) (
      rw (hex_value-hex_digit (b % 16) (omega arith))
        (rw (from_hex-to_hex bs h) (ap (λ x. x ∷ bs) whole)))
