-- ===== src/Battle.antt =====
-- pkg/battle: the rooms of the battle server and how a console finds its room.
pub mod Room
pub mod Rpc
pub mod Logic
pub mod TcpPeer
