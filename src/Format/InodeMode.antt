-- ===== src/Format/InodeMode.antt =====
-- src/include/smashfs.h, enum smashfs_inode_mode: the permission bits of one class of users.
use smashfs.Base.{ℕ}

abbrev pub read : ℕ
read = 0x01

abbrev pub write : ℕ
write = 0x02

abbrev pub execute : ℕ
execute = 0x04
