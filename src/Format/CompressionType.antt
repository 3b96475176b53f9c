-- ===== src/Format/CompressionType.antt =====
-- src/include/smashfs.h, enum smashfs_compression_type: the on-disk numbers of the compressors.
use smashfs.Base.{ℕ}

abbrev pub none : ℕ
none = 0x00

abbrev pub gzip : ℕ
gzip = 0x01

abbrev pub lzma : ℕ
lzma = 0x02

abbrev pub lzo : ℕ
lzo = 0x03

abbrev pub xz : ℕ
xz = 0x04
