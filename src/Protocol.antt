-- ===== src/Protocol.antt =====
-- The protocols that turn parcels, handshakes and peer shares into messages: protocolV9.go,
-- protocolV10.go, protocolV11.go. The packages behind them are parameters.
pub mod Codec
pub mod Samples
pub mod V9
pub mod V10
pub mod V11
pub mod Interface
pub mod Versions
pub mod Gob
