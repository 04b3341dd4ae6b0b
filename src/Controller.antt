-- ===== src/Controller.antt =====
-- The controller, part by part: each of its mutexes guards one of these parts of its state.
pub mod Bans
pub mod Special
pub mod Selection
pub mod Round
pub mod Admission
pub mod Online
pub mod Routing
pub mod Data
pub mod Replenish
pub mod Connect
pub mod Dialling
pub mod Listening
pub mod RunLoop
pub mod ShareRequest
