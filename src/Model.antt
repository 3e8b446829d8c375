-- ===== src/Model.antt =====
-- pkg/lobby/model: the lobby's rules, users, rooms, lobbies and battles.
pub mod Rule
pub mod User
pub mod Room
pub mod Lobby
pub mod Battle
