-- ===== src/Common/Text.antt =====
-- What the sources use of Go's `strings` and `strconv`, over the code points of a text.
pub mod Decimal
use Prim.Native.Nat.{ℕ, zero, suc, ◌+◌, ◌-◌, ◌*◌, ◌^◌}
use Prim.Native.Char.{Char, code}
use Prim.Native.String.{String}
use mathlib.Core.Bool.{Bool, true, false, ◌&&◌, ◌||◌}
use mathlib.Core.List.{List, [], ◌∷◌, ◌++◌, map}
use differ_nvim.Common.Tests.{ltb, leb, eqb, if◌then◌else◌}
use differ_nvim.Common.Int.{ℤ, pos, negsuc}

abbrev pub codes : String → List ℕ
codes String.[] = []
codes (String.◌∷◌ c s) = code c ∷ codes s

-- The bytes of a character in UTF-8, and `len` of a text, which is held as UTF-8.
abbrev pub utf8_width : ℕ → ℕ
utf8_width c = if ltb c 0x80 then 1 else if ltb c 0x800 then 2 else if ltb c 0x10000 then 3 else 4

unfoldable pub byte_len : String → ℕ
byte_len String.[] = 0
byte_len (String.◌∷◌ c s) = utf8_width (code c) + byte_len s

-- `strings.ToLower` as far as a search for ASCII letters can see it: besides A to Z only the Kelvin
-- sign and the dotted capital I have ASCII letters for their lower case.
unfoldable pub lower : ℕ → ℕ
lower c =
    if leb b'A' c && leb c b'Z'
    then c + 32
    else if eqb c 0x212a
    then b'k'
    else if eqb c 0x130
    then b'i'
    else c

unfoldable pub has_prefix : List ℕ → List ℕ → Bool
has_prefix s [] = true
has_prefix [] (p ∷ ps) = false
has_prefix (c ∷ s) (p ∷ ps) = eqb c p && has_prefix s ps

-- `strings.Contains`
unfoldable pub contains : List ℕ → List ℕ → Bool
unfolding has_prefix
contains [] p = has_prefix [] p
contains (c ∷ s) p = has_prefix (c ∷ s) p || contains s p

-- The result of `strconv.ParseInt` at base 10 and 64 bits: `outside` is its range error, which comes
-- with the nearest value of the type.
pub data Parsed : Type 0 where
  value outside : ℤ → Parsed
  syntax : Parsed

-- `strconv.ParseUint`; `wide` is its range error.
pub data Unsigned : Type 0 where
  number : ℕ → Unsigned
  wide malformed : Unsigned

abbrev pub uint64_max : ℕ
uint64_max = 2 ^ 64 - 1

abbrev pub int64_max : ℕ
int64_max = 2 ^ 63 - 1

abbrev pub is_digit : ℕ → Bool
is_digit c = leb b'0' c && leb c b'9'

unfoldable pub parse_digits : ℕ → List ℕ → Unsigned
parse_digits n [] = number n
parse_digits n (c ∷ cs) =
    let n' = n * 10 + (c - b'0') in
    let rest = parse_digits n' cs in
    if is_digit c then (if ltb uint64_max n' then wide else rest) else malformed

unfoldable pub parse_uint : List ℕ → Unsigned
unfolding parse_digits
parse_uint [] = malformed
parse_uint (c ∷ cs) = parse_digits 0 (c ∷ cs)

-- The end of `ParseInt`, without and with a minus sign.
unfoldable pub positive : Unsigned → Parsed
positive malformed = syntax
positive wide = outside (pos int64_max)
positive (number n) = if leb n int64_max then value (pos n) else outside (pos int64_max)

abbrev negate : ℕ → ℤ
negate zero = pos 0
negate (suc n) = negsuc n

unfoldable pub negative : Unsigned → Parsed
negative malformed = syntax
negative wide = outside (negsuc int64_max)
negative (number n) = if leb n (int64_max + 1) then value (negate n) else outside (negsuc int64_max)

unfoldable pub parse_int : List ℕ → Parsed
unfolding parse_uint positive negative
parse_int [] = syntax
parse_int (c ∷ cs) =
    if eqb c b'+'
    then positive (parse_uint cs)
    else if eqb c b'-'
    then negative (parse_uint cs)
    else positive (parse_uint (c ∷ cs))

-- `n, _ := strconv.ParseInt(s, 10, 64)`: the value, whatever the error; a syntax error comes with 0.
unfoldable pub kept_value : Parsed → ℤ
kept_value (value n) = n
kept_value (outside n) = n
kept_value syntax = pos 0

-- `parseID` (internal/github/threads.go)
unfoldable pub parse_id : String → ℤ
unfolding kept_value parse_int
parse_id s = kept_value (parse_int (codes s))
