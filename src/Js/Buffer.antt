-- ===== src/Js/Buffer.antt =====
-- The operations of Node's `Buffer` that the program calls: UTF-8 encoding and hexadecimal text.
use Prim.Native.Char.{Char, code}
use text.Mathlib.TextLemmas.{head-eq_of_cons-eq, tail-eq_of_cons-eq, nil≢cons, cons≢nil}
use native.Mathlib.Decide.{ℕ_discrete}
use fabric_gateway.Base.{
  Bool, true, ◌&&◌, ==_iff, and_left, and_right, zero, suc, ℕ, ◌+◌, ◌-◌, ◌/◌, ◌%◌, ◌<◌, ◌≡◌, refl,
  ap, String, [], ◌∷◌, ◌++◌, Bytes, All, arith, ltb, ◌==◌, if◌then◌else◌,
}

-- The bytes of one code point.
utf8_char : ℕ → Bytes
utf8_char c =
    if ltb c 0x80
    then c ∷ []
    else if ltb c 0x800
    then (0xC0 + c / 64) ∷ (0x80 + c % 64) ∷ []
    else if ltb c 0x10000
    then (0xE0 + c / 4096) ∷ (0x80 + c / 64 % 64) ∷ (0x80 + c % 64) ∷ []
    else (0xF0 + c / 262144) ∷ (0x80 + c / 4096 % 64) ∷ (0x80 + c / 64 % 64) ∷ (0x80 + c % 64) ∷ []

-- `Buffer.from(text)`
unfoldable pub utf8 : String → Bytes
unfolding utf8_char
utf8 String.[] = []
utf8 (String.◌∷◌ c s) = utf8_char (code c) ++ utf8 s

abbrev pub hex_digit : ℕ → Char
hex_digit n =
    if n == 0
    then "0"
    else if n == 1
    then "1"
    else if n == 2
    then "2"
    else if n == 3
    then "3"
    else if n == 4
    then "4"
    else if n == 5
    then "5"
    else if n == 6
    then "6"
    else if n == 7
    then "7"
    else if n == 8
    then "8"
    else if n == 9
    then "9"
    else if n == 10
    then "a"
    else if n == 11
    then "b"
    else if n == 12
    then "c"
    else if n == 13
    then "d"
    else if n == 14
    then "e"
    else "f"

-- `buffer.toString('hex')`
unfoldable pub to_hex : Bytes → String
to_hex [] = String.[]
to_hex (b ∷ bs) = String.◌∷◌ (hex_digit (b / 16)) (String.◌∷◌ (hex_digit (b % 16)) (to_hex bs))

to_hex_test : to_hex (0 ∷ 0xA7 ∷ 255 ∷ []) ≡ "00a7ff"
unfolding to_hex
to_hex_test = refl

utf8_test : utf8 "aé€" ≡ 0x61 ∷ 0xC3 ∷ 0xA9 ∷ 0xE2 ∷ 0x82 ∷ 0xAC ∷ []
unfolding utf8
utf8_test = refl

-- The value of a hexadecimal digit.
digit_value : Char → ℕ
digit_value d = if ltb (code d) 58 then code d - 48 else code d - 87

-- A digit is read back, for each of the numbers below a bound.
reads_back : ℕ → Bool
reads_back zero = true
reads_back (suc n) = (digit_value (hex_digit n) == n) && reads_back n

reads_back_at : (k n : ℕ) → reads_back k ≡ true → n < k → digit_value (hex_digit n) ≡ n
unfolding reads_back
reads_back_at zero n e h = absurd (omega arith)
reads_back_at (suc k) n e h = elim (ℕ_discrete n k) [
  | yes p ↦ rw p ((==_iff _ k).0 (and_left _ _ e))
  | no p ↦ reads_back_at k n (and_right _ _ e) (omega arith)
]

digit_value-hex_digit : (n : ℕ) → n < 16 → digit_value (hex_digit n) ≡ n
unfolding reads_back digit_value
digit_value-hex_digit n = reads_back_at 16 n refl

abbrev pub IsByte : ℕ → Type 0
IsByte b = b < 256

-- The hexadecimal text determines the bytes.
pub to_hex_injective : (a b : Bytes) → All IsByte a → All IsByte b → to_hex a ≡ to_hex b → a ≡ b
unfolding to_hex
to_hex_injective [] [] h k e = refl
to_hex_injective [] (y ∷ b) h k e = absurd (nil≢cons e)
to_hex_injective (x ∷ a) [] h k e = absurd (cons≢nil e)
to_hex_injective (x ∷ a) (y ∷ b) (hx, h) (ky, k) e =
    let high = ap digit_value (head-eq_of_cons-eq e) in
    let rest = tail-eq_of_cons-eq e in
    let low = ap digit_value (head-eq_of_cons-eq rest) in
    let xs = to_hex_injective a b h k (tail-eq_of_cons-eq rest) in
    let same : x ≡ y = omega (
      arith,
      high,
      low,
      digit_value-hex_digit (x / 16) (omega arith),
      digit_value-hex_digit (x % 16) (omega arith),
      digit_value-hex_digit (y / 16) (omega arith),
      digit_value-hex_digit (y % 16) (omega arith),
    ) in
    cc (same, xs)
