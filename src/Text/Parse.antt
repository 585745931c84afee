-- ===== src/Text/Parse.antt =====
-- strconv.ParseBool, and strconv.ParseInt in base 10 at 64 bits.
use Prim.Native.String.{◌∷◌ as ◌▹◌}
use solace_prometheus_export.Prelude.{
  ℕ, ◌+◌, ◌-◌, ◌*◌, ◌^◌, String, code, Bool, true, false, ◌&&◌, ◌||◌, Option, none, some, ◌==◌, eqb,
  ltb, leb, if◌then◌else◌,
}
use solace_prometheus_export.Prelude.Int.{ℤ, pos, sub_ℕ}

unfoldable pub parse_bool : String → Option Bool
parse_bool s =
    if s == "1" || s == "t" || s == "T" || s == "TRUE" || s == "true" || s == "True"
    then some true
    else if s == "0" || s == "f" || s == "F" || s == "FALSE" || s == "false" || s == "False"
    then some false
    else none

digits : ℕ → String → Option ℕ
digits n String.[] = some n
digits n (c ▹ s) =
    let d = code c in if leb b'0' d && leb d b'9' then digits (n * 10 + (d - b'0')) s else none

-- At least one digit.
number : String → Option ℕ
unfolding digits
number String.[] = none
number (c ▹ s) = digits 0 (c ▹ s)

positive : Option ℕ → Option ℤ
positive none = none
positive (some n) = if ltb n (2 ^ 63) then some (pos n) else none

negative : Option ℕ → Option ℤ
negative none = none
negative (some n) = if leb n (2 ^ 63) then some (sub_ℕ 0 n) else none

-- A sign, then digits; `none` for a syntax error and for a number out of range.
unfoldable pub parse_int : String → Option ℤ
unfolding number positive negative
parse_int String.[] = none
parse_int (c ▹ s) =
    if eqb (code c) b'-'
    then negative (number s)
    else if eqb (code c) b'+'
    then positive (number s)
    else positive (number (c ▹ s))
