-- ===== src/Mode.antt =====
-- The permission bits: `node_new` of src/mkfs/mkfs.c splits `st_mode` into three modes, and the
-- readers join them again, `traverse` of src/mkfs/unfs.c and `smashfs_read_inode` of
-- src/linux/super.c with the same tests.
pub mod RoundTrip
pub mod Permissions
use Prim.Native.Nat.{bit_and}
use smashfs.Base.{ℕ, ◌==◌, bit_or, if◌then◌else◌}
use smashfs.Format.InodeMode

-- The flags of <sys/stat.h>.
abbrev pub s_irusr : ℕ
s_irusr = 0o400

abbrev pub s_iwusr : ℕ
s_iwusr = 0o200

abbrev pub s_ixusr : ℕ
s_ixusr = 0o100

abbrev pub s_irgrp : ℕ
s_irgrp = 0o040

abbrev pub s_iwgrp : ℕ
s_iwgrp = 0o020

abbrev pub s_ixgrp : ℕ
s_ixgrp = 0o010

abbrev pub s_iroth : ℕ
s_iroth = 0o004

abbrev pub s_iwoth : ℕ
s_iwoth = 0o002

abbrev pub s_ixoth : ℕ
s_ixoth = 0o001

-- `if (from & test) { mode |= flag; }`
abbrev pub flag_if : ℕ → ℕ → ℕ → ℕ → ℕ
flag_if from test flag mode = if bit_and from test == 0 then mode else bit_or mode flag

-- One class of `st_mode` as an inode mode, by the three flags of the class.
abbrev class_mode : ℕ → ℕ → ℕ → ℕ → ℕ
class_mode st r w x =
    flag_if st x InodeMode.execute (flag_if st w InodeMode.write (flag_if st r InodeMode.read 0))

pub owner_mode : ℕ → ℕ
owner_mode st = class_mode st s_irusr s_iwusr s_ixusr

pub group_mode : ℕ → ℕ
group_mode st = class_mode st s_irgrp s_iwgrp s_ixgrp

pub other_mode : ℕ → ℕ
other_mode st = class_mode st s_iroth s_iwoth s_ixoth

-- The nine tests of the readers, on top of the mode so far.
pub join : ℕ → ℕ → ℕ → ℕ → ℕ
join owner group other mode0 =
    let mode1 = flag_if owner InodeMode.read s_irusr mode0 in
    let mode2 = flag_if owner InodeMode.write s_iwusr mode1 in
    let mode3 = flag_if owner InodeMode.execute s_ixusr mode2 in
    let mode4 = flag_if group InodeMode.read s_irgrp mode3 in
    let mode5 = flag_if group InodeMode.write s_iwgrp mode4 in
    let mode6 = flag_if group InodeMode.execute s_ixgrp mode5 in
    let mode7 = flag_if other InodeMode.read s_iroth mode6 in
    let mode8 = flag_if other InodeMode.write s_iwoth mode7 in
    flag_if other InodeMode.execute s_ixoth mode8
