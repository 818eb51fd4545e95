-- ===== src/Tests.antt =====
-- Runs at concrete inputs, and the theorems at inputs where their hypotheses hold.
mod Ikconfig
mod Paths
mod Guest
mod Downloads
mod Stage
mod Promotion
mod Disk
mod Toolchain
mod Contained
mod Spaces
mod Seed
mod Root
mod Run
mod Patches
mod Promoted
