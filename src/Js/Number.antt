-- ===== src/Js/Number.antt =====
-- `bigint` and `number`. A `number` holds an integer exactly while 53 bits suffice; `Number(b)`
-- rounds any other to the nearest value that has 53 significant bits, ties to even.
use fabric_gateway.Base.{
  ℕ, zero, suc, ◌+◌, ◌-◌, ◌*◌, ◌/◌, ◌%◌, ◌^◌, ◌≡◌, refl, ltb, ◌==◌, if◌then◌else◌, ltb-lt, ◌<◌,
  arith,
}

-- `negsuc n` is -(n + 1).
pub data ℤ : Type 0 where
  pos : ℕ → ℤ
  negsuc : ℕ → ℤ

-- The rounding of `n / 2` to the nearest integer, where a tie goes to the even one, iterated: the
-- unit of the last place doubles until 53 bits suffice. `unit` is that unit.
unit_of : ℕ → ℕ → ℕ → ℕ
unit_of zero n unit = unit
unit_of (suc f) n unit = unit_of f n (if ltb n (unit * 2 ^ 53) then unit else 2 * unit)

round_to : ℕ → ℕ → ℕ
round_to unit n =
    let low = n / unit in
    let rest = n % unit in
    if ltb (2 * rest) unit
    then low * unit
    else if ltb unit (2 * rest)
    then (low + 1) * unit
    else if low % 2 == 0
    then low * unit
    else (low + 1) * unit

-- `Number(n)` for a `bigint` n of at most 1000 bits or so.
unfoldable pub to_number_nat : ℕ → ℕ
unfolding unit_of round_to
to_number_nat n = round_to (unit_of 971 n 1) n

unfoldable pub to_number : ℤ → ℤ
unfolding to_number_nat
to_number (pos n) = pos (to_number_nat n)
to_number (negsuc n) = negsuc (to_number_nat (n + 1) - 1)

exact : to_number (pos (2 ^ 53)) ≡ pos (2 ^ 53)
unfolding to_number
exact = refl

rounded : to_number (pos (2 ^ 53 + 1)) ≡ pos (2 ^ 53)
unfolding to_number
rounded = refl

unit_of-small : (f n : ℕ) → n < 2 ^ 53 → unit_of f n 1 ≡ 1
unfolding unit_of
unit_of-small zero n p = refl
unit_of-small (suc f) n p = rw (ltb-lt n (2 ^ 53) p) (unit_of-small f n p)

-- Below 2 ^ 53, no number is rounded.
pub to_number_nat-small : (n : ℕ) → n < 2 ^ 53 → to_number_nat n ≡ n
unfolding to_number_nat round_to
to_number_nat-small n p = rw (unit_of-small 971 n p) (ground arith)
