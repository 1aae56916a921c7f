-- ===== src/Tests.antt =====
-- The theorems at concrete inputs.
mod Data
mod Numbers
mod Codec
mod Watcher
mod Polls
mod Explorer
mod Wasm
mod Subscribe
mod Live
mod Scripts
mod Contract
mod Attestation
mod System
