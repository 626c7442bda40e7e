-- ===== src/Session.antt =====
-- internal/session: keys, addresses, the client's and the server's side of a session.
pub mod Keys
pub mod Pool
pub mod Manager
pub mod Cookie
pub mod Noise
pub mod Random
pub mod Stats
pub mod Jitter
pub mod Server
pub mod Client
pub mod Join
