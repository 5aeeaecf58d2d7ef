-- ===== src/Boot.antt =====
-- boot/efi/bootloader.c: the parts of the boot loader that compute. The firmware's services are
-- parameters of the operations that call them.
pub mod Guid
pub mod Gop
pub mod Directory
pub mod Inode
pub mod Partition
pub mod File
pub mod Xsdt
pub mod Elf
