-- ===== src/Kernel.antt =====
-- boot/kernel/kernel.c: what _start does before it turns to the devices.
pub mod Memory
pub mod Space
pub mod Controller
pub mod Idt
pub mod Gdt
pub mod Syscall
