-- ===== src/Lib.antt =====
-- smashfs: a read-only compressed file system. `mkfs.smashfs` (src/mkfs/mkfs.c) packs a file tree
-- into an image, `unfs.smashfs` (src/mkfs/unfs.c) extracts one, and the kernel module
-- (src/linux/super.c) mounts one. All three pack and unpack their tables by the bit cursor of
-- bitbuffer.c, and share the super block of include/smashfs.h.
--
-- Which file models what:
--   Base, and its children: lists with native lengths, tests, machine integers, the result type.
--   Bitbuffer: src/mkfs/bitbuffer.c, one function for each of the file. The arrays are lists of
--     bytes. The children prove what is read (View, Get), what is written (Put), and how a sequence
--     of fields is packed and read (Fields, Cursor, Fresh).
--   Buffer: src/mkfs/buffer.c; Grow and Add prove the growth loop and the append.
--   Compressor: src/mkfs/compressor.c and src/mkfs/compressor-none.c.
--   Format: src/include/smashfs.h; Words, the super block as the bytes that it takes in memory.
--   Table: `struct node` and `struct block` of both readers, and the reads of their `node_fill` and
--     `block_fill`; Restored says what a reader is to give for a packed node. Directory: the packed
--     directory. Mode: the permission bits; Permissions says which number they make.
--   Mkfs: the data of src/mkfs/mkfs.c. Its children are the parts of `output_write`: Limits (the
--     first pass and the widths), Entries (filling the data), Split (cutting it into blocks),
--     Blocks (the compressed blocks and the block table), Jobs (the threads that compress them, as
--     interleaved steps), Inodes (the inode table); and CommandLine (the options), Log (slog, blog,
--     the two orders), Sources (`node_new` and `sources_scan`, over the entries of the tree walk),
--     Image (the offsets in the super block and the writing of the image).
--   Unfs: `node_fill` and `block_fill` of src/mkfs/unfs.c; Fill and Whole prove what is read back.
--     Open: the reading of the image in its `main`. Extract: `node_read`, `traverse` and the end of
--     `main`; its children prove what is read (Data) and what is made (Tree).
--   Kernel: src/linux/super.c: inodes; Device (`smashfs_read`, its children prove what is read),
--     Read (`node_read`, `smashfs_readpage`), Lookup (`smashfs_lookup`), Readdir
--     (`smashfs_readdir`), Compressor (src/linux/compressor.c and src/linux/compressor-none.c; its
--     child proves that it has what mkfs chose), Mount (`smashfs_fill_super`, `smashfs_put_super`,
--     `smashfs_statfs`; Held proves what is given back, Mounted what is mounted); Fill, Whole,
--     Read/Data, Read/Pages, Lookup/Found and Readdir/Listing prove what is read back.
--   Tests: runs, and the theorems at concrete inputs.
--
-- How the code is read. A result is `ok`, `fail` where the code reports an error, or `fault` where
-- C leaves the behaviour undefined: an access out of bounds, a shift by the width, a signed
-- overflow. Memory is a parameter `malloc`, which says whether an allocation succeeds. Unsigned
-- results wrap by `% 2 ^ 32`. The times are integers, the other 64-bit values of a node are natural
-- numbers, since nothing makes them negative. A loop that is not over a list takes fuel, and runs
-- out of it by `fault`: `bitbuffer_getbits` gets one round more than it has bits, `buffer_add` 65
-- doublings, which pass any size below 2 ^ 62, and `node_read` and the loop of unfs over a section
-- one round more than they have bytes. The block device is a function from block numbers,
-- `filldir`, the inode cache and the system's `open`, `read` and `write` are parameters, and so are
-- the coders of the compression libraries. A mount keeps which of its pointers are to memory, so
-- that each `kfree` of super.c is a call of its own. Where super.c passes a 32-bit value as an `int`,
-- a value from 2 ^ 31 on is a `fault`. The file tree that mkfs scans is the list of the entries
-- that `fts_read` gives; the system calls of `traverse` are functions on a state of the machine,
-- and its recursion takes fuel for the depth of the tree; the threads of mkfs take their steps in
-- any order.
--
-- Not modelled: the command line of unfs and all printing; the inode cache and the registration of
-- the kernel module; uthash.h, a copied library; the compressors that call zlib, lzma, lzo and xz;
-- the memory that is only freed.
pub mod Base
pub mod Bitbuffer
pub mod Buffer
pub mod Compressor
pub mod Format
pub mod Table
pub mod Mode
pub mod Directory
pub mod Mkfs
pub mod Unfs
pub mod Kernel
mod Tests
