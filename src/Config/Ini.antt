-- ===== src/Config/Ini.antt =====
-- The readers of one setting: the functions parseConfig… and iniKeyValue of
-- internal/exporter/config.struct.go. A file read by gopkg.in/ini.v1 is a record of what the program
-- asks of it, and the environment is a function.
use solace_prometheus_export.Prelude.{
  String, Bool, ◌&&◌, Option, none, some, List, [], ◌∷◌, if◌then◌else◌,
}
use solace_prometheus_export.Prelude.Int.{ℤ}
use solace_prometheus_export.Prelude.Result.{Result, ok, err}
use solace_prometheus_export.Text.{equal_fold, is_empty}
use solace_prometheus_export.Text.Parse.{parse_bool, parse_int}
use solace_prometheus_export.Config.{ConfigError, missing, not_valid, given}

-- The names of the sections, the keys of a section with their values in the order of the file, and the
-- value of a key that the section has.
pub record Ini : Type 0 where
  pub sections : List String
  pub keys : String → List (String × String)
  pub key : String → String → Option String

-- What the program reads beside its arguments: os.Getenv and time.ParseDuration.
pub record Environment : Type 0 where
  pub getenv : String → String
  pub parse_duration : String → Option ℤ

first_match : String → List (String × String) → String
first_match ini_key [] = ""
first_match ini_key ((name, v) ∷ keys) =
    let rest = first_match ini_key keys in if equal_fold name ini_key && given v then v else rest

abbrev pub given_or : String → Option String → String
given_or other none = other
given_or other (some v) = if given v then v else other

unfoldable pub ini_key_value : Ini → String → String → String
unfolding first_match
ini_key_value cfg ini_section ini_key =
    given_or (first_match ini_key (cfg.keys ini_section)) (cfg.key ini_section ini_key)

abbrev pub in_file : Option Ini → String → String → String
unfolding ini_key_value
in_file none ini_section ini_key = ""
in_file (some cfg) ini_section ini_key = ini_key_value cfg ini_section ini_key

module _ (env : Environment) (cfg : Option Ini) where
  unfoldable pub parse_config_string : String → String → String → Result ConfigError String
  unfolding in_file
  parse_config_string ini_section ini_key env_key =
      if given (env.getenv env_key)
      then ok (env.getenv env_key)
      else if given (in_file cfg ini_section ini_key)
      then ok (in_file cfg ini_section ini_key)
      else err (missing ini_key env_key)

  unfoldable pub parse_config_string_optional : String → String → String → String → String
  unfolding in_file
  parse_config_string_optional ini_section ini_key env_key default_value =
      if given (env.getenv env_key)
      then env.getenv env_key
      else if given (in_file cfg ini_section ini_key)
      then in_file cfg ini_section ini_key
      else default_value

  abbrev pub valid : {A : Type 0} → String → String → Option A → Result ConfigError A
  valid ini_key env_key none = err (not_valid ini_key env_key)
  valid ini_key env_key (some v) = ok v

  -- The parse of an optional setting.
  unfoldable pub parse_config_optional :
      {A : Type 0} → (String → Option A) → String → String → String → A → Result ConfigError A
  parse_config_optional parse ini_section ini_key env_key default_value =
      let s = parse_config_string_optional ini_section ini_key env_key "" in
      if is_empty s then ok default_value else valid ini_key env_key (parse s)

  abbrev pub parse_config_bool_optional : String → String → String → Bool → Result ConfigError Bool
  parse_config_bool_optional = parse_config_optional parse_bool

  abbrev pub parse_config_duration_optional : String → String → String → ℤ → Result ConfigError ℤ
  parse_config_duration_optional = parse_config_optional env.parse_duration

  abbrev pub parse_config_int_optional : String → String → String → ℤ → Result ConfigError ℤ
  parse_config_int_optional = parse_config_optional parse_int
