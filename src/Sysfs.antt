-- ===== src/Sysfs.antt =====
-- internal/sysfs: what the driver reads of the AP bus and of the machine.
pub mod Mkvp
pub mod Masks
pub mod SysInfo
