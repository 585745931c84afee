-- ===== src/Lib.antt =====
-- The Solace Prometheus exporter: a program in Go that asks Solace brokers over SEMP for their state and
-- serves it as Prometheus metrics.
--
-- A request names scrape targets, each with filters, either in its form or by an endpoint of the
-- configuration. The collector dispatches each target to a scrape of the SEMP client, which asks the
-- broker for one page after the other and sends metrics on a channel; it adds a metric `up` for each
-- target. The metrics are merged by name, either for one request (the synchronous handler) or by a
-- background fetcher that keeps the metrics of the scrape before until the new ones have come.
--
-- The files, and the code that they model (the Get… methods, the handlers and the steps keep their
-- names, in lower case and with underscores):
--   Prelude, Text: shared helpers; Text holds the functions of Go's strings and strconv that are used.
--   Metric: internal/semp/prometheusMetric.struct.go, semp.desc.struct.go, encodeMetric….go, helper.go
--     and, in Metric/Table, metricDesc.go. Metric/Run is the monad of code that sends and may panic.
--   Fetcher: internal/exporter/asyncFetcher.go. Fetcher/Readers has its steps as a relation, where a
--     reader may look between any two of them; Fetcher/Readers/Ended is about runs to the end.
--   Semp: internal/semp/http.go, semp.struct.go, types/common.go. Semp/Getters holds the scrapes
--     get…Semp1.go, one file for each or for a few of one kind, and Semp/V2 getQueueStatsSemp2.go;
--     Semp/Samples and Semp/Blocks are the forms their metrics share. What the loop over pages does
--     whatever the pages are is in Semp/Pages and Semp/Distinct; Semp/Fit and Semp/Scraped are about
--     the labels of the metrics, Semp/Sound and Semp/Safe about what a scrape may send.
--   DataSource: internal/exporter/dataSource.struct.go and the reading of targets.
--   Collector: internal/exporter/exporter.collect.go; Collector/Broker puts the scrapes of Semp in it.
--   Secret: internal/secret/resolver.go, and of hashicorp_backend.go, in Secret/Renewal and
--     Secret/Jitter the renewals, and in Secret/Vault the reading of secrets and the token.
--   Config: internal/exporter/config.struct.go.
--   BrokerAuth: internal/exporter/auth.go, with the OAuth token cache that requests share.
--   Server: internal/web/auth.go and the handlers of cmd/solace-prometheus-exporter/main.go.
--   Tests: runs at concrete inputs.
--
-- Conventions. A panic is `none` or the outcome `panicked`; a pair of a value and an error is a
-- Result. float64 is a type parameter F; its arithmetic, the one comparison that is used,
-- strconv.ParseFloat and fmt.Sprintf are the record GoLib. int64 is ℤ, with the wrap-around written
-- out where a product can leave the range. Texts are sequences of bytes. Maps are lists of pairs in
-- the order of insertion, which stands for any order of `range`. net/http, the decoding of XML and
-- JSON, url.QueryEscape, base64, time.Parse, regular expressions, the ini library, SHA-256, promhttp,
-- the Vault client, the token endpoint, the clock and the environment are parameters.
--
-- Fuel. The loop over pages runs on fuel, as a broker may answer with cookies for ever; a loop over n
-- pages ends with fuel above n. All other loops are structural.
--
-- Not modelled: the command tools/endpointOwnershipStatistics.go, which the exporter does not use; the
-- set-up of clients (HTTP, TLS, Vault), which hands settings on to libraries; logging; the status page;
-- the start of the program.
pub mod Prelude
pub mod Text
pub mod Metric
pub mod Fetcher
pub mod Semp
pub mod DataSource
pub mod Collector
pub mod Secret
pub mod Config
pub mod BrokerAuth
pub mod Server
pub mod Tests
