-- ===== src/Semp/Fit.antt =====
-- That the samples of the scrapes with loops and conditions fit the table of descriptors.
pub mod Broker
pub mod Items
pub mod Others
