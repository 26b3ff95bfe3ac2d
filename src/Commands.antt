-- ===== src/Commands.antt =====
-- The commands of cmd/azath.
pub mod Synology
pub mod Seal
pub mod EndToEnd
pub mod Devices
pub mod Serve
