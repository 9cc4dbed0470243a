-- ===== src/App.antt =====
-- The contracts and the server of app_scaffold.
pub mod ZkPassport
pub mod Counter
pub mod Server
