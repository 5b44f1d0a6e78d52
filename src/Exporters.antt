-- ===== src/Exporters.antt =====
-- gateway/exporters: what the exporters compute before they call their libraries.
pub mod Delta
pub mod Labels
pub mod Prometheus
pub mod Influxdb
pub mod Kafka
mod Examples
