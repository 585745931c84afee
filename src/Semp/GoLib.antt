-- ===== src/Semp/GoLib.antt =====
-- What the scrapes use of Go's float64 arithmetic and of fmt and strings. The values of metrics are
-- never inspected, so the arithmetic is a parameter. `parse_float` is strconv.ParseFloat, which returns
-- a value with its error; `itoa` is strconv.Itoa; `sprintf` is fmt.Sprintf with one int64 operand, where
-- the program builds its format from filters of the request; `sprintf_03v` is `fmt.Sprintf("%03v", s)`.
use solace_prometheus_export.Prelude.{ℕ, String, Bool, Option, List, [], ◌∷◌}
use solace_prometheus_export.Prelude.Int.{ℤ}
use solace_prometheus_export.Text.{split}

pub record GoLib (F : Type 0) : Type 0 where
  pub of_ℤ : ℤ → F
  pub add : F → F → F
  pub mul : F → F → F
  pub div : F → F → F
  pub round : F → F
  pub less : F → F → Bool
  pub parse_float : String → F × Option String
  pub itoa : ℕ → String
  pub sprintf : String → ℤ → String
  pub sprintf_03v : String → String

abbrev head_of : List String → String
head_of [] = ""
head_of (p ∷ ps) = p

-- strings.Split(s, ":")[0]
unfoldable pub before_colon : String → String
before_colon s = head_of (split b':' s)
