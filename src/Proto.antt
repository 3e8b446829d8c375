-- ===== src/Proto.antt =====
-- pkg/proto: the reliable message stream over UDP and the scanner of the console's TCP stream.
pub mod BattleBuffer
pub mod MessageFilter
pub mod Delivery
pub mod FinScanner
