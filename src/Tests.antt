-- ===== src/Tests.antt =====
-- The theorems at concrete inputs.
mod Engine
mod Runtime
mod Store
mod Claims
mod Control
mod Ctrl
mod Macaroons
mod Listener
mod Auth
mod Broadcast
mod Workers
