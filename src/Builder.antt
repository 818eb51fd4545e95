-- ===== src/Builder.antt =====
-- cmd/ossein-kernel/main.go: the program that builds the kernel.
pub mod Stamp
pub mod Toolchain
pub mod Boot
pub mod Guest
pub mod Download
pub mod Stage
pub mod Promote
pub mod Seed
pub mod Disk
pub mod Workdir
pub mod Run
