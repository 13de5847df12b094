-- ===== src/Tests/Codec.antt =====
-- A concrete wire format for the tests: prefix codes over lists of numbers. It stands for the
-- serializers of the generated message classes.
use Prim.Native.Nat.{compare, Ordering}
use Prim.Native.Char.{Char, char, code, IsScalar}
use text.Mathlib.TextEquality.{Char-path}
use fabric_gateway.Base.{
  ℕ, zero, suc, ◌≡◌, refl, sym, ap, ◌∙◌, String, Option, none, some, List, [], ◌∷◌, ◌++◌,
  append-nil, append_assoc, Bytes, length, take, drop, take-append, drop-append,
}
use fabric_gateway.Effect.{Result, ok, err}
use fabric_gateway.Errors.{JsError, new_error}
use fabric_gateway.Protos.{Wire, IsRoundTrip}

-- Reading takes a prefix, whatever follows it.
pub record Codec (A : Type 0) : Type 0 where
  pub put : A → Bytes
  pub get : Bytes → Option (A × Bytes)
  pub get-put : (a : A) (rest : Bytes) → get (put a ++ rest) ≡ some (a, rest)

abbrev pub get_nat : Bytes → Option (ℕ × Bytes)
get_nat [] = none
get_nat (n ∷ rest) = some (n, rest)

abbrev pub nat : Codec ℕ
nat = record { put = λ n. n ∷ []; get = get_nat; get-put = λ n rest. refl }

abbrev pub get_bytes : Bytes → Option (Bytes × Bytes)
get_bytes [] = none
get_bytes (n ∷ rest) = some (take n rest, drop n rest)

pub get-put_bytes : (b rest : Bytes) → get_bytes (length b ∷ b ++ rest) ≡ some (b, rest)
get-put_bytes b rest = rw (take-append b rest, drop-append b rest)

abbrev pub bytes : Codec Bytes
bytes = record { put = λ b. length b ∷ b; get = get_bytes; get-put = get-put_bytes }

-- The character of a code point.
unfoldable pub char_by :
    (n : ℕ) (a b c : Ordering)
    → compare n 55296 ≡ a
    → compare 57343 n ≡ b
    → compare n 1114112 ≡ c
    → Char
char_by n Ordering.lt b c p q r = char n (rw p tt)
char_by n Ordering.eq Ordering.lt Ordering.lt p q r = char n (rw (p, q, r) tt)
char_by n Ordering.gt Ordering.lt Ordering.lt p q r = char n (rw (p, q, r) tt)
char_by n a b c p q r = char 0 tt

abbrev to_char : ℕ → Char
to_char n = char_by n (compare n 55296) (compare 57343 n) (compare n 1114112) refl refl refl

code-char_by :
    (n : ℕ) (a b c : Ordering) (p : compare n 55296 ≡ a) (q : compare 57343 n ≡ b)
    (r : compare n 1114112 ≡ c)
    → IsScalar n
    → code (char_by n a b c p q r) ≡ n
unfolding char_by
code-char_by n Ordering.lt b c p q r s = refl
code-char_by n Ordering.eq Ordering.lt Ordering.lt p q r s = refl
code-char_by n Ordering.gt Ordering.lt Ordering.lt p q r s = refl
code-char_by n Ordering.eq Ordering.lt Ordering.eq p q r s = absurd (rw (p, q, r) at s)
code-char_by n Ordering.eq Ordering.lt Ordering.gt p q r s = absurd (rw (p, q, r) at s)
code-char_by n Ordering.gt Ordering.lt Ordering.eq p q r s = absurd (rw (p, q, r) at s)
code-char_by n Ordering.gt Ordering.lt Ordering.gt p q r s = absurd (rw (p, q, r) at s)
code-char_by n Ordering.eq Ordering.eq c p q r s = absurd (rw (p, q) at s)
code-char_by n Ordering.eq Ordering.gt c p q r s = absurd (rw (p, q) at s)
code-char_by n Ordering.gt Ordering.eq c p q r s = absurd (rw (p, q) at s)
code-char_by n Ordering.gt Ordering.gt c p q r s = absurd (rw (p, q) at s)

to_char-code : (c : Char) → to_char (code c) ≡ c
to_char-code (char n s) = Char-path _ _ (code-char_by n _ _ _ refl refl refl s)

abbrev codes : String → List ℕ
codes String.[] = []
codes (String.◌∷◌ c s) = code c ∷ codes s

abbrev of_codes : List ℕ → String
of_codes [] = String.[]
of_codes (n ∷ ns) = String.◌∷◌ (to_char n) (of_codes ns)

pub of_codes-codes : (s : String) → of_codes (codes s) ≡ s
of_codes-codes String.[] = refl
of_codes-codes (String.◌∷◌ c s) = cc (to_char-code c, of_codes-codes s)

module _ {A B : Type 0} (there : A → B) (back : B → A) (same : (a : A) → back (there a) ≡ a) where
  abbrev get_via : Codec B → Bytes → Option (A × Bytes)
  get_via c b = elim (c.get b) [ none ↦ none | some (x, rest) ↦ some (back x, rest) ]

  pub get-put_via :
      (c : Codec B) (a : A) (rest : Bytes) → get_via c (c.put (there a) ++ rest) ≡ some (a, rest)
  get-put_via c a rest = rw (c.get-put (there a) rest, get_via) (rw (same a))

  -- A code of one type by a code of another that it is embedded in.
  unfoldable pub via : Codec B → Codec A
  via c = record { put = λ a. c.put (there a); get = get_via c; get-put = get-put_via c }

unfoldable pub string : Codec String
unfolding via
string = via codes of_codes of_codes-codes bytes

module _ {A B : Type 0} (c : Codec A) (d : Codec B) where
  abbrev get_pair : Bytes → Option ((A × B) × Bytes)
  get_pair b = elim (c.get b) [
    | none ↦ none
    | some (x, r) ↦ elim (d.get r) [ none ↦ none | some (y, rest) ↦ some ((x, y), rest) ]
  ]

  pub get-put_pair :
      (p : A × B) (rest : Bytes) → get_pair ((c.put p.0 ++ d.put p.1) ++ rest) ≡ some (p, rest)
  get-put_pair p rest =
      rw (append_assoc (c.put p.0) (d.put p.1) rest)
        (rw (c.get-put p.0 (d.put p.1 ++ rest), get_pair) (rw (d.get-put p.1 rest)))

  unfoldable pub pair : Codec (A × B)
  pair = record { put = λ p. c.put p.0 ++ d.put p.1; get = get_pair; get-put = get-put_pair }

module _ {A : Type 0} (c : Codec A) where
  abbrev put_option : Option A → Bytes
  put_option none = 0 ∷ []
  put_option (some a) = 1 ∷ c.put a

  abbrev get_option : Bytes → Option (Option A × Bytes)
  get_option [] = none
  get_option (zero ∷ rest) = some (none, rest)
  get_option (suc n ∷ b) = elim (c.get b) [ none ↦ none | some (a, rest) ↦ some (some a, rest) ]

  pub get-put_option :
      (o : Option A) (rest : Bytes) → get_option (put_option o ++ rest) ≡ some (o, rest)
  get-put_option none rest = refl
  get-put_option (some a) rest = rw (c.get-put a rest, get_option)

  unfoldable pub option : Codec (Option A)
  option = record { put = put_option; get = get_option; get-put = get-put_option }

  abbrev put_all : List A → Bytes
  put_all [] = []
  put_all (x ∷ xs) = c.put x ++ put_all xs

  abbrev get_all : ℕ → Bytes → Option (List A × Bytes)
  get_all zero b = some ([], b)
  get_all (suc n) b = elim (c.get b) [
    | none ↦ none
    | some (x, r) ↦ elim (get_all n r) [ none ↦ none | some (xs, rest) ↦ some (x ∷ xs, rest) ]
  ]

  pub get-put_all :
      (xs : List A) (rest : Bytes) → get_all (length xs) (put_all xs ++ rest) ≡ some (xs, rest)
  get-put_all [] rest = refl
  get-put_all (x ∷ xs) rest =
      rw (append_assoc (c.put x) (put_all xs) rest)
        (rw (c.get-put x (put_all xs ++ rest), get_all) (rw (get-put_all xs rest)))

  abbrev get_list : Bytes → Option (List A × Bytes)
  get_list [] = none
  get_list (n ∷ b) = get_all n b

  unfoldable pub list : Codec (List A)
  list = record { put = λ xs. length xs ∷ put_all xs; get = get_list; get-put = get-put_all }

abbrev read : {A : Type 0} → Option (A × Bytes) → Result JsError A
read none = err (new_error "malformed message")
read (some (a, rest)) = ok a

-- A message class by a code.
unfoldable pub wire : {A : Type 0} → Codec A → Wire A
wire c = record { serialize_binary = c.put; deserialize_binary = λ b. read (c.get b) }

pub wire-IsRoundTrip : {A : Type 0} (c : Codec A) → IsRoundTrip (wire c)
unfolding wire
wire-IsRoundTrip c m = ap read (ap c.get (sym (append-nil (c.put m))) ∙ c.get-put m [])
