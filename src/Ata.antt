-- ===== src/Ata.antt =====
-- kernel/ata.c: the driver of the ATA disks.
pub mod Disk
