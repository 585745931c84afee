-- ===== src/Semp/Getters/BridgeClientCert.antt =====
-- The scrape of the client certificates of bridges: getBridgeClientCertSemp1.go of internal/semp.
use solace_prometheus_export.Prelude.{
  ℕ, String, Option, none, some, List, [], ◌∷◌, ◌==◌, if◌then◌else◌,
}
use Prim.Native.String.{◌++◌ as ◌<>◌}
use solace_prometheus_export.Text.{split, cut, join, fields, trim_space}
use solace_prometheus_export.Prelude.Int.{ℤ, pos}
use solace_prometheus_export.Prelude.Result.{Result}
use solace_prometheus_export.Metric.{gauge}
use solace_prometheus_export.Metric.Run.{Run}
use solace_prometheus_export.Semp.{Http, Semp, Target, Status, execute_ok, scrape_pages}
use solace_prometheus_export.Semp.Samples.{Sample, sample, send_all}
use solace_prometheus_export.Semp.Distinct.{distinct_items}
use solace_prometheus_export.Semp.GoLib.{GoLib}

-- What the scrape uses of time and regexp: time.Parse with the layout of openssl and Unix, with `none`
-- for an error, and FindStringSubmatch of the expression for the CN of the subject.
pub record CertLib : Type 0 where
  pub parse_unix : String → Option ℤ
  pub find_subject_cn : String → List String

-- The fields of one item, the nested structs written flat.
pub record BridgeClientCert (F : Type 0) : Type 0 where
  pub bridge_name : String
  pub local_vpn_name : String
  pub connected_remote_router_name : String
  pub certificate_content : List String

module _ (certs : CertLib) where
  -- The text after the first colon of a line, where the words before it are the label.
  unfoldable pub validity_value : String → Option (String × String) → Option String
  validity_value label none = none
  validity_value label (some (key, value)) =
      if join " " (fields key) == label then some (trim_space value) else none

  abbrev parse_or : Option String → Option ℤ → Option ℤ
  parse_or none rest = rest
  parse_or (some value) rest = certs.parse_unix value

  unfoldable pub find_validity : String → List String → Option ℤ
  find_validity label [] = none
  find_validity label (line ∷ lines) =
      parse_or (validity_value label (cut b':' line)) (find_validity label lines)

  -- The seconds of the time, with `none` for an error.
  unfoldable pub parse_cert_text_time : String → String → Option ℤ
  parse_cert_text_time cert_text label = find_validity label (split 10 cert_text)

  abbrev submatch : List String → String
  submatch [] = ""
  submatch (whole ∷ []) = ""
  submatch (whole ∷ cn ∷ groups) = trim_space cn

  unfoldable pub parse_cert_text_cn : String → String
  parse_cert_text_cn cert_text = submatch (certs.find_subject_cn cert_text)

unfoldable pub get_bridge_client_cert_semp1_key : {F : Type 0} → BridgeClientCert F → String
get_bridge_client_cert_semp1_key bridge = bridge.local_vpn_name <> ("___" <> bridge.bridge_name)

module _ {F : Type 0} (lib : GoLib F) (certs : CertLib) where
  unfoldable pub cert_configured : BridgeClientCert F → ℕ → String → Sample F
  cert_configured bridge n common_name =
      sample "BridgeClientCert" "bridge_client_cert_configured" gauge (lib.of_ℤ (pos n)) (
        bridge.local_vpn_name ∷ bridge.bridge_name ∷ bridge.connected_remote_router_name
        ∷ common_name ∷ [])

  unfoldable pub cert_time : String → BridgeClientCert F → ℤ → String → Sample F
  cert_time key bridge seconds common_name =
      sample "BridgeClientCert" key gauge (lib.of_ℤ seconds) (
        bridge.local_vpn_name ∷ bridge.bridge_name ∷ bridge.connected_remote_router_name
        ∷ common_name ∷ [])

  unfoldable pub not_before_samples : BridgeClientCert F → String → Option ℤ → List (Sample F)
  not_before_samples bridge common_name none = []
  not_before_samples bridge common_name (some not_before) =
      cert_time "bridge_client_cert_not_before_timestamp_seconds" bridge not_before common_name ∷ []

  unfoldable pub validity_samples :
      BridgeClientCert F → String → Option ℤ → Option ℤ → List (Sample F)
  validity_samples bridge common_name none not_before = cert_configured bridge 0 common_name ∷ []
  validity_samples bridge common_name (some not_after) not_before =
      cert_configured bridge 1 common_name
      ∷ cert_time "bridge_client_cert_expiry_timestamp_seconds" bridge not_after common_name
      ∷ not_before_samples bridge common_name not_before

  -- The first certificate of the chain counts.
  unfoldable pub chain_samples : BridgeClientCert F → List String → List (Sample F)
  chain_samples bridge [] = cert_configured bridge 0 "" ∷ []
  chain_samples bridge (leaf ∷ chain) =
      validity_samples bridge (parse_cert_text_cn certs leaf)
        (parse_cert_text_time certs leaf "Not After") (parse_cert_text_time certs leaf "Not Before")

  unfoldable pub get_bridge_client_cert_semp1_samples : BridgeClientCert F → List (Sample F)
  get_bridge_client_cert_semp1_samples bridge = chain_samples bridge bridge.certificate_content

  unfoldable pub get_bridge_client_cert_semp1 :
      {Body : Type 0} (http : Http Body)
      (decode : Body → Result String (Target (List (BridgeClientCert F)))) (semp : Semp) (fuel : ℕ)
      → String
      → String
      → ℤ
      → Run F Status
  get_bridge_client_cert_semp1 http decode semp fuel vpn_filter item_filter page_size =
      scrape_pages http decode execute_ok semp
        (distinct_items get_bridge_client_cert_semp1_key
          (λ bridge. send_all (get_bridge_client_cert_semp1_samples bridge)))
        fuel 1 ""
        (lib.sprintf
          ("<rpc><show><bridge><bridge-name-pattern>"
            <> (item_filter
                <> ("</bridge-name-pattern><vpn-name-pattern>"
                    <> (vpn_filter
                        <> "</vpn-name-pattern><client-certificate/><count/><num-elements>%d</num-elements></bridge></show></rpc>"))))
          page_size)
