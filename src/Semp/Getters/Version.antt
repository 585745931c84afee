-- ===== src/Semp/Getters/Version.antt =====
-- The scrape of the version of the broker: getVersionSemp1.go of internal/semp.
use solace_prometheus_export.Prelude.{String, List, [], ◌∷◌}
use Prim.Native.String.{◌++◌ as ◌<>◌}
use solace_prometheus_export.Text.{trim_prefix, split}
use solace_prometheus_export.Prelude.Result.{Result}
use solace_prometheus_export.Metric.{gauge}
use solace_prometheus_export.Metric.Run.{Run}
use solace_prometheus_export.Semp.{Http, Semp, Target, Status, execute_ok_see_log, scrape_once}
use solace_prometheus_export.Semp.Samples.{Sample, sample, send_all}
use solace_prometheus_export.Semp.GoLib.{GoLib}

-- The fields of the reply, the nested structs written flat.
pub record Version (F : Type 0) : Type 0 where
  pub description : String
  pub current_load : String
  pub days : F
  pub hours : F
  pub mins : F
  pub secs : F
  pub total_secs : F

module _ {F : Type 0} (lib : GoLib F) where
  -- The parts of the version, each padded, written to one buffer.
  unfoldable pub padded_parts : List String → String
  padded_parts [] = ""
  padded_parts (s ∷ parts) = lib.sprintf_03v s <> padded_parts parts

  unfoldable pub version_number : String → F
  version_number current_load =
      (lib.parse_float (padded_parts (split b'.' (trim_prefix current_load "soltr_")))).0

  unfoldable pub get_version_semp1_samples : Version F → List (Sample F)
  get_version_semp1_samples reply =
      sample "Version" "system_version_currentload" gauge (version_number reply.current_load) []
      ∷ sample "Version" "system_version_uptime_totalsecs" gauge reply.total_secs []
      ∷ []

  unfoldable pub get_version_semp1 :
      {Body : Type 0} (http : Http Body) (decode : Body → Result String (Target (Version F)))
      (semp : Semp)
      → Run F Status
  get_version_semp1 http decode semp =
      scrape_once http decode execute_ok_see_log semp "<rpc><show><version/></show></rpc>"
        (λ reply. send_all (get_version_semp1_samples reply))
