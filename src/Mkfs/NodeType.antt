-- ===== src/Mkfs/NodeType.antt =====
-- src/mkfs/mkfs.c, enum node_type: the order of the data blocks.
use smashfs.Base.{ℕ}

abbrev pub unknown : ℕ
unknown = 0

abbrev pub elf_file : ℕ
elf_file = 1

abbrev pub regular_file : ℕ
regular_file = 2

abbrev pub directory : ℕ
directory = 3

abbrev pub symbolic_link : ℕ
symbolic_link = 4
