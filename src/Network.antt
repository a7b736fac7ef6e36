-- ===== src/Network.antt =====
-- src/common/network: addresses, and the manager that sends packets and hands those that arrive to
-- the callbacks of their commands.
pub mod Address
pub mod Manager
