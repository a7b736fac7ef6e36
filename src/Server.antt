-- ===== src/Server.antt =====
-- src/server: the clients that the master server knows, and what it does with each packet and in
-- each frame. The clock, the random source and `sendto` are in the environment of a call.
pub mod Clients
pub mod Handlers
pub mod Guards
pub mod Authentication
pub mod Isolation
pub mod Handshake
pub mod Verification
pub mod Frame
pub mod Messages
pub mod Effects
pub mod Takeover
pub mod Kill
pub mod Tests
