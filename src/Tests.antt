-- ===== src/Tests.antt =====
-- The theorems applied to concrete inputs.
mod Bits
mod Boot
mod Devices
mod Elf
mod Kernel
mod Pci
mod Print
mod Queue
mod Space
mod Tables
