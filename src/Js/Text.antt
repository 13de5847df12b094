-- ===== src/Js/Text.antt =====
-- The texts that template literals and `trim` make.
use Prim.Native.String.{◌++◌}
use Prim.Native.Char.{Char, code}
use fabric_gateway.Base.{
  ℕ, zero, suc, ◌/◌, ◌%◌, ◌≡◌, refl, String, Bool, ◌&&◌, ◌||◌, ltb, leb, ◌==◌, if◌then◌else◌,
}
use fabric_gateway.Js.Buffer.{hex_digit}

digits : ℕ → ℕ → String
digits zero n = ""
digits (suc f) n =
    let high = digits f (n / 10) in
    let low = String.◌∷◌ (hex_digit (n % 10)) String.[] in if ltb n 10 then low else high ++ low

-- The decimal text of a number.
unfoldable pub number_to_string : ℕ → String
unfolding digits
number_to_string n = digits (suc n) n

number_to_string_test : number_to_string 7051 ≡ "7051"
unfolding number_to_string
number_to_string_test = refl

-- The white space that `trim` takes off.
is_space : ℕ → Bool
is_space c =
    (leb 9 c && leb c 13)
    || (c == 32)
    || (c == 160)
    || (c == 5760)
    || (leb 8192 c && leb c 8202)
    || (c == 8232)
    || (c == 8233)
    || (c == 8239)
    || (c == 8287)
    || (c == 12288)
    || (c == 65279)

trim_start : String → String
unfolding is_space
trim_start String.[] = ""
trim_start (String.◌∷◌ c s) =
    let rest = trim_start s in if is_space (code c) then rest else String.◌∷◌ c s

or_nothing : Bool → Char → String → String
or_nothing space c String.[] = if space then "" else String.◌∷◌ c ""
or_nothing space c (String.◌∷◌ d s) = String.◌∷◌ c (String.◌∷◌ d s)

trim_end : String → String
unfolding or_nothing
trim_end String.[] = ""
trim_end (String.◌∷◌ c s) = or_nothing (is_space (code c)) c (trim_end s)

-- `s.trim()`
unfoldable pub trim : String → String
unfolding trim_start trim_end
trim s = trim_end (trim_start s)

trim_test : trim "  For Fabric " ≡ "For Fabric"
unfolding trim
trim_test = refl
