-- ===== src/Http.antt =====
-- The HTTP side of the API server: its middlewares, the helpers and the services behind them.
pub mod Reply
pub mod Mapper
pub mod Store
pub mod Friends
pub mod Chain
pub mod GetChain
pub mod User
pub mod Audio
pub mod Authenticate
