-- ===== src/Metric.antt =====
-- Descriptors and metrics: internal/semp/semp.desc.struct.go and prometheusMetric.struct.go. The type
-- of values, Go's float64, is a parameter `F`. `none` stands for a panic.
pub mod Run
pub mod Names
pub mod Merge
pub mod Encode
pub mod Select
pub mod Table
use Prim.Native.String.{◌++◌ as ◌<>◌}
use mathlib.Core.Option
use solace_prometheus_export.Prelude.{
  ℕ, String, Bool, true, false, ◌&&◌, Option, none, some, List, [], ◌∷◌, eqb, all, length,
  if◌then◌else◌,
}
use solace_prometheus_export.Text.{join, valid_string}

pub record Desc : Type 0 where
  pub fq_name : String
  pub semp_v2_field : String
  pub help : String
  pub variable_labels : List String

abbrev pub no_semp_v2_ready : String
no_semp_v2_ready = "NOT_SEMP_V2_READY"

abbrev pub namespace : String
namespace = "solace"

unfoldable pub new_sem_desc : String → String → String → List String → Desc
new_sem_desc fq_name semp_v2_field help variable_labels = record {
  fq_name = namespace <> ("_" <> fq_name);
  semp_v2_field = semp_v2_field;
  help = help;
  variable_labels = variable_labels;
}

-- A key, and its descriptor NewSemDesc(fqName, NoSempV2Ready, help, variableLabels).
abbrev pub unready : String → String → String → List String → String × Desc
unready key fq_name help variable_labels =
    (key, new_sem_desc fq_name no_semp_v2_ready help variable_labels)

-- prometheus.ValueType, as far as the program uses it.
pub data ValueType : Type 0 where
  counter gauge : ValueType

pub record PrometheusMetric (F : Type 0) : Type 0 where
  pub desc : Desc
  pub value_type : ValueType
  pub value : F
  pub label_values : List String
  pub deprecated : Bool

unfoldable pub validate_label_values : List String → ℕ → Bool
validate_label_values vals expected = eqb (length vals) expected && all valid_string vals

-- `"label=\"value\""` for each label; an index past the values is a panic.
unfoldable pub label_strings : List String → List String → Option (List String)
label_strings [] vs = some []
label_strings (l ∷ ls) [] = none
label_strings (l ∷ ls) (v ∷ vs) =
    Option.map (λ rest. (l <> ("=\"" <> (v <> "\""))) ∷ rest) (label_strings ls vs)

name_of : String → List String → Option (List String) → Option String
name_of fq_name [] strings = some fq_name
name_of fq_name (l ∷ ls) strings =
    Option.map (λ parts. fq_name <> ("{" <> (join "," parts <> "}"))) strings

module _ {F : Type 0} where
  -- A panic where the number of label values is wrong or one is not UTF-8.
  unfoldable pub new_metric : Desc → ValueType → F → List String → Option (PrometheusMetric F)
  new_metric desc value_type value label_values =
      if validate_label_values label_values (length desc.variable_labels)
      then some (record {
        desc = desc;
        value_type = value_type;
        value = value;
        label_values = label_values;
        deprecated = false;
      })
      else none

  unfoldable pub name : PrometheusMetric F → Option String
  unfolding name_of
  name m =
      name_of m.desc.fq_name m.desc.variable_labels
        (label_strings m.desc.variable_labels m.label_values)

  unfoldable pub deprecate : PrometheusMetric F → PrometheusMetric F
  deprecate m = record m { deprecated = true }

  unfoldable pub is_deprecated : PrometheusMetric F → Bool
  is_deprecated m = m.deprecated

-- What is handed to prometheus.MustNewConstMetric.
pub record ConstMetric (F : Type 0) : Type 0 where
  pub desc : Desc
  pub value_type : ValueType
  pub value : F
  pub label_values : List String

unfoldable pub as_prometheus_metric : {F : Type 0} → PrometheusMetric F → ConstMetric F
as_prometheus_metric m = record {
  desc = m.desc;
  value_type = m.value_type;
  value = m.value;
  label_values = m.label_values;
}
