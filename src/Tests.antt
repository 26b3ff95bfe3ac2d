-- ===== src/Tests.antt =====
-- The properties at concrete inputs.
mod Fixtures
mod Crypto
mod Keymanager
mod Server
mod Gate
mod Telegram
mod Prompts
mod Config
mod Client
mod Commands
mod Devices
mod Serve
mod Observability
