-- ===== src/Kernel/Boot.antt =====
-- What the start of the kernel leads to: `kernel_main` of kernel_os/src/kernel_main.cpp up to
-- `scheduler_start`, as Kernel/Start.antt composes it.
pub mod Contexts
pub mod Create
pub mod Devices
pub mod Example
pub mod Launch
pub mod Main
pub mod Pages
pub mod Queue
pub mod Queued
pub mod Space
pub mod Tasks
mod Tests
pub mod Threads
pub mod Turns
pub mod UserSpace
