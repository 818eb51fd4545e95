-- ===== src/Builder/Stamp.antt =====
-- The stamp files that say what a cached artifact was made from: the test at the start of
-- `prepareLLVM` and `prepareRootfs`, cmd/ossein-kernel/main.go.
pub mod Vouching
use ossein_kernel.Base.{Bool, Bytes, Option, equal, false, leb, length, none, some, ℕ}
use ossein_kernel.Strings.{trim_space}
use ossein_kernel.System.{M, Node, catch, pure, read_error, read_file, regular, symlink, ◌>>=◌}

-- A stamp file that can be read and says `key`.
unfoldable pub stamp_says : Bytes → Bytes → M Bool
stamp_says stamp key =
    catch (read_file read_error stamp >>= λ s. pure (equal (trim_space s) key)) (λ _. pure false)

-- `os.Stat` finds a file with so many bytes at least.
abbrev pub is_large_as : ℕ → Option Node → Bool
is_large_as least none = false
is_large_as least (some (symlink link)) = false
is_large_as least (some (regular s mode)) = leb least (length s)
