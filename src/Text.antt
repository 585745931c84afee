-- ===== src/Text.antt =====
-- The functions of Go's standard library on texts that the program calls (strings, unicode/utf8).
-- A Go string is a sequence of bytes: a `String` stands for it with one character for each byte, so
-- its codes are below 256. Case is changed on ASCII letters; the two other characters that Unicode
-- folds to one, U+017F and U+212A, are left alone.
pub mod Split
pub mod Parse
use Prim.Native.String.{◌∷◌ as ◌▹◌, ◌++◌ as ◌<>◌}
use Prim.Native.String
use solace_prometheus_export.Prelude.{
  ℕ, zero, suc, ◌+◌, ◌-◌, String, Char, code, Bool, true, false, ◌&&◌, ◌||◌, Option, none, some,
  List, [], ◌∷◌, ◌==◌, eqb, ltb, leb, if◌then◌else◌,
}

-- len(s) == 0
abbrev pub is_empty : String → Bool
is_empty String.[] = true
is_empty (c ▹ s) = false

-- strings.CutPrefix, with `none` for its false
unfoldable pub cut_prefix : String → String → Option String
cut_prefix s String.[] = some s
cut_prefix String.[] (d ▹ p) = none
cut_prefix (c ▹ s) (d ▹ p) =
    let rest = cut_prefix s p in if eqb (code c) (code d) then rest else none

is_some {ℓ} : {A : Type ℓ} → Option A → Bool
is_some none = false
is_some (some a) = true

unfoldable pub has_prefix : String → String → Bool
unfolding cut_prefix is_some
has_prefix s p = is_some (cut_prefix s p)

or_else : String → Option String → String
or_else s none = s
or_else s (some t) = t

unfoldable pub trim_prefix : String → String → String
unfolding cut_prefix or_else
trim_prefix s p = or_else s (cut_prefix s p)

abbrev pub push_before : Char → Option (String × String) → Option (String × String)
push_before c none = none
push_before c (some (before, after)) = some (c ▹ before, after)

-- strings.Cut at a separator of one byte, with `none` for its false
unfoldable pub cut : ℕ → String → Option (String × String)
cut sep String.[] = none
cut sep (c ▹ s) =
    let rest = cut sep s in if eqb (code c) sep then some ("", s) else push_before c rest

-- strings.Contains for one byte
unfoldable pub contains : ℕ → String → Bool
contains b String.[] = false
contains b (c ▹ s) = eqb (code c) b || contains b s

-- strings.Contains
unfoldable pub contains_text : String → String → Bool
contains_text String.[] t = has_prefix "" t
contains_text (c ▹ s) t = has_prefix (c ▹ s) t || contains_text s t

abbrev pub push_first : Char → List String → List String
push_first c [] = (c ▹ String.[]) ∷ []
push_first c (p ∷ ps) = (c ▹ p) ∷ ps

-- strings.Split at a separator of one byte
unfoldable pub split : ℕ → String → List String
split sep String.[] = "" ∷ []
split sep (c ▹ s) =
    let rest = split sep s in if eqb (code c) sep then "" ∷ rest else push_first c rest

-- strings.Join
unfoldable pub join : String → List String → String
join sep [] = ""
join sep (x ∷ []) = x
join sep (x ∷ y ∷ ys) = x <> (sep <> join sep (y ∷ ys))

-- unicode.IsSpace for a character of one byte, and for the bytes of one of three
is_space : ℕ → Bool
is_space c = eqb c 32 || (leb 9 c && leb c 13)

is_wide_space : ℕ → ℕ → ℕ → Bool
is_wide_space a b c =
    (eqb a 225 && eqb b 154 && eqb c 128)
    || (eqb a 226
        && ((eqb b 128 && ((leb 128 c && leb c 138) || eqb c 168 || eqb c 169 || eqb c 175))
            || (eqb b 129 && eqb c 159)))
    || (eqb a 227 && eqb b 128 && eqb c 128)

-- The bytes of the space that a text begins with, or 0 where it begins with none: U+0085 and U+00A0
-- take two bytes, and U+1680, U+2000 to U+200A, U+2028, U+2029, U+202F, U+205F and U+3000 three.
space_width_3 : ℕ → ℕ → String → ℕ
space_width_3 a b String.[] = 0
space_width_3 a b (c ▹ s) = if is_wide_space a b (code c) then 3 else 0

space_width_2 : ℕ → String → ℕ
space_width_2 a String.[] = 0
space_width_2 a (b ▹ s) =
    if eqb a 194 && (eqb (code b) 133 || eqb (code b) 160) then 2 else space_width_3 a (code b) s

space_width : String → ℕ
space_width String.[] = 0
space_width (c ▹ s) = if is_space (code c) then 1 else space_width_2 (code c) s

skip : ℕ → String → String
skip zero s = s
skip (suc n) String.[] = ""
skip (suc n) (c ▹ s) = skip n s

-- The text is one space and no more.
is_one_space : String → Bool
is_one_space s = ltb 0 (space_width s) && is_empty (skip (space_width s) s)

-- The number is that of the bytes left of a space that has begun.
trim_left : ℕ → String → String
trim_left n String.[] = ""
trim_left zero (c ▹ s) =
    let rest = trim_left (space_width (c ▹ s) - 1) s in
    if eqb (space_width (c ▹ s)) 0 then c ▹ s else rest
trim_left (suc n) (c ▹ s) = trim_left n s

trim_right : String → String
trim_right String.[] = ""
trim_right (c ▹ s) = let kept = c ▹ trim_right s in if is_one_space kept then "" else kept

-- strings.TrimSpace
unfoldable pub trim_space : String → String
unfolding is_space is_wide_space space_width_3 space_width_2 space_width skip is_one_space trim_left
    trim_right
trim_space s = trim_right (trim_left 0 s)

-- strings.Fields, where `words` also has the empty pieces between two spaces
words : ℕ → String → List String
words n String.[] = "" ∷ []
words zero (c ▹ s) =
    let after = words (space_width (c ▹ s) - 1) s in
    if eqb (space_width (c ▹ s)) 0 then push_first c after else "" ∷ after
words (suc n) (c ▹ s) = words n s

non_empty : List String → List String
non_empty [] = []
non_empty (w ∷ ws) = let rest = non_empty ws in if is_empty w then rest else w ∷ rest

unfoldable pub fields : String → List String
unfolding is_space is_wide_space space_width_3 space_width_2 space_width words non_empty
fields s = non_empty (words 0 s)

-- s[:len(s)-1], with `none` where the bounds are out of range
unfoldable pub drop_last : String → Option String
drop_last String.[] = none
drop_last (c ▹ s) = some (initial c s)
  where
    initial : Char → String → String
    initial c String.[] = ""
    initial c (d ▹ s) = c ▹ initial d s

trim_left_byte : ℕ → String → String
trim_left_byte b String.[] = ""
trim_left_byte b (c ▹ s) = let rest = trim_left_byte b s in if eqb (code c) b then rest else c ▹ s

trim_right_byte : ℕ → String → String
trim_right_byte b String.[] = ""
trim_right_byte b (c ▹ s) =
    let rest = trim_right_byte b s in if eqb (code c) b && is_empty rest then "" else c ▹ rest

-- strings.Trim with a set of one byte
unfoldable pub trim_byte : ℕ → String → String
unfolding trim_left_byte trim_right_byte
trim_byte b s = trim_right_byte b (trim_left_byte b s)

lower_code : ℕ → ℕ
lower_code c = if leb b'A' c && leb c b'Z' then c + 32 else c

-- strings.EqualFold
unfoldable pub equal_fold : String → String → Bool
unfolding lower_code
equal_fold String.[] String.[] = true
equal_fold String.[] (d ▹ t) = false
equal_fold (c ▹ s) String.[] = false
equal_fold (c ▹ s) (d ▹ t) = eqb (lower_code (code c)) (lower_code (code d)) && equal_fold s t

-- utf8.ValidString, by the table of lead bytes and the range of the byte that follows each
abbrev within : ℕ → ℕ → ℕ → Bool
within lo hi c = leb lo c && leb c hi

abbrev tail_byte : ℕ → Bool
tail_byte = within 128 191

abbrev second_byte : ℕ → ℕ → Bool
second_byte lead c =
    if eqb lead 224
    then within 160 191 c
    else if eqb lead 237
    then within 128 159 c
    else if eqb lead 240
    then within 144 191 c
    else if eqb lead 244
    then within 128 143 c
    else tail_byte c

-- How many bytes follow a lead byte; `none` where it may not lead.
abbrev followers : ℕ → Option ℕ
followers c =
    if ltb c 128
    then some 0
    else if within 194 223 c
    then some 1
    else if within 224 239 c
    then some 2
    else if within 240 244 c
    then some 3
    else none

-- What the scan expects: a lead byte, the byte after a lead byte, or that many tail bytes.
pub data Expect : Type 0 where
  lead : Expect
  second : ℕ → ℕ → Expect
  tails : ℕ → Expect

abbrev pub after_lead : ℕ → Option ℕ → Option Expect
after_lead c none = none
after_lead c (some ℕ.zero) = some lead
after_lead c (some (ℕ.suc n)) = some (second c n)

abbrev pub after_tail : ℕ → Expect
after_tail ℕ.zero = lead
after_tail (ℕ.suc n) = tails (ℕ.suc n)

abbrev expect_next : Expect → ℕ → Option Expect
expect_next lead c = after_lead c (followers c)
expect_next (second l n) c = if second_byte l c then some (after_tail n) else none
expect_next (tails n) c = if tail_byte c then some (after_tail (n - 1)) else none

scan_utf8 : Option Expect → String → Bool
scan_utf8 none s = false
scan_utf8 (some lead) String.[] = true
scan_utf8 (some (second l n)) String.[] = false
scan_utf8 (some (tails n)) String.[] = false
scan_utf8 (some e) (c ▹ s) = scan_utf8 (expect_next e (code c)) s

unfoldable pub valid_string : String → Bool
unfolding scan_utf8
valid_string s = scan_utf8 (some lead) s
