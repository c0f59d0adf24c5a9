-- ===== src/Common/Text/Decimal.antt =====
-- `ParseInt` on a row of digits: the number, or the largest `int64`.
use Prim.Native.Nat.{ℕ, ◌+◌, ◌-◌, ◌*◌, ◌≤◌}
use mathlib.Core.Path.{◌≡◌, refl}
use mathlib.Core.Logic.{inl, inr}
use mathlib.Core.Bool.{Bool, true, false}
use mathlib.Core.List.{List, [], ◌∷◌}
use native.Mathlib.Omega.{arith}
use differ_nvim.Common.Tests.{leb, ltb, eqb, if◌then◌else◌, Bool-cases}
use differ_nvim.Common.Lists.{All}
use differ_nvim.Common.Int.{ℤ, pos}
use Prim.Native.String.{String}
use differ_nvim.Common.Text.{
  is_digit, number, wide, uint64_max, int64_max, parse_digits, parse_uint, value, outside, positive,
  parse_int, codes, kept_value, parse_id,
}

-- The number that a row of digits stands for, behind the digits that were read before.
unfoldable pub number_of : ℕ → List ℕ → ℕ
number_of n [] = n
number_of n (c ∷ cs) = number_of (n * 10 + (c - b'0')) cs

abbrev pub AreDigits : List ℕ → Type 0
AreDigits cs = All (λ c. is_digit c ≡ true) cs

number_of-ge : (n : ℕ) (cs : List ℕ) → n ≤ number_of n cs
unfolding number_of
number_of-ge n [] = omega arith
number_of-ge n (c ∷ cs) = omega (arith, number_of-ge (n * 10 + (c - b'0')) cs)

parse_digits-number_of :
    (n : ℕ) (cs : List ℕ)
    → AreDigits cs
    → n ≤ uint64_max
    → parse_digits n cs
      ≡ (if ltb uint64_max (number_of n cs) then wide else number (number_of n cs))
unfolding parse_digits number_of
parse_digits-number_of n [] h k = ground arith
parse_digits-number_of n (c ∷ cs) (d, h) k =
    let n' = n * 10 + (c - b'0') in
    elim (Bool-cases (ltb uint64_max n')) [
      | inl over ↦ rw (d, over) (ground (arith, number_of-ge n' cs))
      | inr fits ↦ rw (d, fits) (parse_digits-number_of n' cs h (ground arith))
    ]

saturates :
    (n : ℕ)
    → positive (if ltb uint64_max n then wide else number n)
      ≡ (if leb n int64_max then value (pos n) else outside (pos int64_max))
unfolding positive
saturates n = ground arith

-- On one digit or more `ParseInt` returns the number that they write where it is an `int64`, and else
-- a range error with the largest `int64`.
parse_int-digits :
    (c : ℕ) (cs : List ℕ)
    → AreDigits (c ∷ cs)
    → parse_int (c ∷ cs) ≡ (
        if leb (number_of 0 (c ∷ cs)) int64_max
        then value (pos (number_of 0 (c ∷ cs)))
        else outside (pos int64_max))
unfolding parse_int parse_uint positive
parse_int-digits c cs h =
    let ds = c ∷ cs in
    let plus : eqb c b'+' ≡ false = ground (arith, h.0) in
    let minus : eqb c b'-' ≡ false = ground (arith, h.0) in
    rw (plus, minus, parse_digits-number_of 0 ds h (omega arith)) (saturates (number_of 0 ds))

kept_value-if :
    (b : Bool) (m n : ℤ) → kept_value (if b then value m else outside n) ≡ (if b then m else n)
unfolding kept_value
kept_value-if true m n = refl
kept_value-if false m n = refl

-- On a text of one digit or more `parseID` returns the number that they write where it is an
-- `int64`, and else the largest `int64`.
pub parse_id-digits :
    (s : String) (c : ℕ) (cs : List ℕ)
    → codes s ≡ c ∷ cs
    → AreDigits (c ∷ cs)
    → parse_id s
      ≡ (if leb (number_of 0 (c ∷ cs)) int64_max then pos (number_of 0 (c ∷ cs)) else pos int64_max)
unfolding parse_id
parse_id-digits s c cs read h =
    rw (read, parse_int-digits c cs h)
      (kept_value-if (leb (number_of 0 (c ∷ cs)) int64_max) (pos (number_of 0 (c ∷ cs)))
        (pos int64_max))
