-- ===== src/Tests.antt =====
-- Runs of the model at concrete inputs.
mod Data
mod Metrics
mod Scrapes
mod Replies
mod Broker
mod Settings
mod Auth
mod Renewal
