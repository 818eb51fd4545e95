-- ===== src/Ikconfig.antt =====
-- internal/ikconfig: the .config that a kernel image embeds, what it says, and the judgement of it.
pub mod Extract
pub mod Config
pub mod Policy
pub mod Verify
pub mod Command
