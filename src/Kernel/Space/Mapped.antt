-- ===== src/Kernel/Space/Mapped.antt =====
-- boot/kernel/kernel.c 72 to 88: the address space of the kernel.
