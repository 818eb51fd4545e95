-- ===== src/Tar.antt =====
-- What Go's archive/tar reads from an archive: the headers in order, with the contents that can be
-- read behind each.
use ossein_kernel.Base.{Bool, Bytes, List, ℕ, ◌%◌}

pub data TarKind : Type 0 where
  directory regular_file symbolic_link hard_link other_kind : TarKind

-- `readable`: the contents can be read to their end.
pub record TarEntry : Type 0 where
  pub entry_name : Bytes
  pub kind : TarKind
  pub link_name : Bytes
  pub mode : ℕ
  pub uid : ℕ
  pub gid : ℕ
  pub contents : Bytes
  pub readable : Bool

-- `complete`: after the entries the reader reports the end of the archive, and no error.
pub record TarStream : Type 0 where
  pub entries : List TarEntry
  pub complete : Bool

-- `FileMode.Perm`: the low nine bits.
abbrev pub perm : ℕ → ℕ
perm mode = mode % 0x200
