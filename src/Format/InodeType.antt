-- ===== src/Format/InodeType.antt =====
-- src/include/smashfs.h, enum smashfs_inode_type: the on-disk numbers of the kinds of file.
use smashfs.Base.{ℕ}

abbrev pub regular_file : ℕ
regular_file = 0x01

abbrev pub directory : ℕ
directory = 0x02

abbrev pub symbolic_link : ℕ
symbolic_link = 0x03

abbrev pub character_device : ℕ
character_device = 0x04

abbrev pub block_device : ℕ
block_device = 0x05

abbrev pub fifo : ℕ
fifo = 0x06

abbrev pub socket : ℕ
socket = 0x07
