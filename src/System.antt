-- ===== src/System.antt =====
-- The operating system as cmd/ossein-kernel/main.go uses it through Go's `os`: files at paths, and
-- calls any of which may fail, or may be the one in which the process is stopped. Whether a
-- directory exists is not tracked: a call that fails for want of one is a call that fails. A path
-- names what stands at it as it is written: no call follows a symbolic link, and to open one for
-- writing is an error, where the program would write to what it leads to.
pub mod Frame
pub mod Failing
pub mod Links
pub mod Triples
pub mod Quiet
use ossein_kernel.Strings.{has_prefix}
use ossein_kernel.Base.{
  Bool, Bytes, List, Option, [], equal, if◌then◌else◌, none, some, suc, take, true, zero, ℕ, ◌&&◌,
  ◌++◌, ◌||◌, ◌∷◌,
}

pub data Node : Type 0 where
  -- contents and mode bits
  regular : Bytes → ℕ → Node
  symlink : Bytes → Node

-- What the next call does. The number is how much of it was done before: bytes of a write; a rename
-- is done if it is not 0.
pub data Fault : Type 0 where
  works : Fault
  fails : ℕ → Fault
  stops : ℕ → Fault

pub record System : Type 0 where
  pub files : Bytes → Option Node
  pub faults : List Fault

-- The same files, with no fault to come.
abbrev pub quiet : System → System
quiet s = record s { faults = [] }

-- What the builder's errors say.
pub data Error : Type 0 where
  stat_error read_error mkdir_error create_error write_error close_error rename_error : Error
  download_error download_http download_stall interrupted sha_mismatch : Error
  remove_error chmod_error no_vmlinux no_perf smoke_failed : Error
  symlink_error tar_error tar_escape decompress_error no_seed_vmlinux build_failed : Error
  glob_error boot_failed out_refused : Error

pub data Result (A : Type 0) : Type 0 where
  ok : A → Result A
  err : Error → Result A
  -- the process is gone
  stopped : Result A

abbrev pub M : Type 0 → Type 0
M A = System → Result A × System

abbrev pub and_then : {A B : Type 0} → (A → M B) → Result A → System → Result B × System
and_then f (ok a) s = f a s
and_then f (err e) s = (err e, s)
and_then f stopped s = (stopped, s)

infixl 5 ◌>>=◌ ◌>>◌
abbrev pub ◌>>=◌ : {A B : Type 0} → M A → (A → M B) → M B
◌>>=◌ m f s = and_then f (m s).0 (m s).1

abbrev pub ◌>>◌ : {B : Type 0} → M (Unit {0}) → M B → M B
m >> k = m >>= λ _. k

abbrev pub pure : {A : Type 0} → A → M A
pure a s = (ok a, s)

abbrev pub throw : {A : Type 0} → Error → M A
throw e s = (err e, s)

-- What is done after a result that is an error.
abbrev pub handle : {A : Type 0} → (Error → M A) → Result A → M A
handle f (ok a) = pure a
handle f (err e) = f e
handle f stopped = λ s. (stopped, s)

abbrev pub catch : {A : Type 0} → M A → (Error → M A) → M A
catch m f s = handle f (m s).0 (m s).1

-- One call: what it does if it works, and what of it is done if it does not.
abbrev pub call :
    {A : Type 0} → M A → (ℕ → System → System) → Error → List Fault → System → Result A × System
call good part e [] s = good s
call good part e (works ∷ rest) s = good (record s { faults = rest })
call good part e (fails n ∷ rest) s = (err e, part n (record s { faults = rest }))
call good part e (stops n ∷ rest) s = (stopped, part n (record s { faults = rest }))

abbrev pub untouched : ℕ → System → System
untouched n s = s

unfoldable pub update : (Bytes → Option Node) → Bytes → Option Node → Bytes → Option Node
update files path node p = if equal path p then node else files p

abbrev pub set_file : Bytes → Option Node → System → System
set_file path node s = record s { files = update s.files path node }

abbrev pub contents_or : Error → Option Node → Result Bytes
contents_or e (some (regular text mode)) = ok text
contents_or e _ = err e

-- `os.ReadFile`, or `os.Open` with a read to the end.
unfoldable pub read_file : Error → Bytes → M Bytes
read_file e path s = call (λ t. (contents_or e (t.files path), t)) untouched e s.faults s

abbrev pub found : Result (Option Node) → Result (Option Node)
found (ok node) = ok node
found (err e) = ok none
found stopped = stopped

-- `os.Stat`, where the caller asks only whether it succeeded: `none` is an error.
unfoldable pub stat : Bytes → M (Option Node)
stat path s =
    let r = call (λ t. (ok (t.files path), t)) untouched stat_error s.faults s in (found r.0, r.1)

-- `os.MkdirAll`
unfoldable pub mkdir_all : Bytes → M (Unit {0})
mkdir_all path s = call (pure tt) untouched mkdir_error s.faults s

abbrev pub file_mode : ℕ
file_mode = 0o666

abbrev pub opened : Bytes → ℕ → Option Node → M (Unit {0})
opened path mode none t = (ok tt, set_file path (some (regular [] mode)) t)
opened path mode (some (regular text old)) t = (ok tt, set_file path (some (regular [] old)) t)
opened path mode (some (symlink link)) t = (err create_error, t)

-- `os.OpenFile` with O_CREATE and O_TRUNC: an empty file, with this mode if it is new.
unfoldable pub open_empty : Bytes → ℕ → M (Unit {0})
open_empty path mode s =
    call (λ t. opened path mode (t.files path) t) untouched create_error s.faults s

-- `os.Create`
unfoldable pub create : Bytes → M (Unit {0})
unfolding open_empty
create path = open_empty path file_mode

abbrev pub appended : Option Node → Bytes → Option Node
appended (some (regular text mode)) more = some (regular (text ++ more) mode)
appended node more = node

abbrev pub append_to : Bytes → Bytes → System → System
append_to path more s = set_file path (appended (s.files path) more) s

abbrev pub appending : Bytes → Bytes → M (Unit {0})
appending path more t = (ok tt, append_to path more t)

abbrev pub append_part : Bytes → Bytes → ℕ → System → System
append_part path more n = append_to path (take n more)

-- `Write` on an open file.
unfoldable pub append_file : Bytes → Bytes → M (Unit {0})
append_file path more s = call (appending path more) (append_part path more) write_error s.faults s

-- `Close`
unfoldable pub close_file : Bytes → M (Unit {0})
close_file path s = call (pure tt) untouched close_error s.faults s

abbrev pub moved : Bytes → Bytes → Node → System → System
moved from to node s = set_file from none (set_file to (some node) s)

abbrev pub renamed : Bytes → Bytes → Option Node → M (Unit {0})
renamed from to none s = (err rename_error, s)
renamed from to (some node) s = (ok tt, moved from to node s)

abbrev pub maybe_moved : Bytes → Bytes → ℕ → System → System
maybe_moved from to zero s = s
maybe_moved from to (suc n) s = (renamed from to (s.files from) s).1

-- `os.Rename`, which is atomic: a process stopped in it has done it or not.
unfoldable pub rename : Bytes → Bytes → M (Unit {0})
rename from to s =
    call (λ t. renamed from to (t.files from) t) (maybe_moved from to) rename_error s.faults s

abbrev pub removed : Bytes → M (Unit {0})
removed path t = (ok tt, set_file path none t)

abbrev pub maybe_removed : Bytes → ℕ → System → System
maybe_removed path zero t = t
maybe_removed path (suc n) t = set_file path none t

-- `os.Remove`
unfoldable pub remove : Bytes → M (Unit {0})
remove path s = call (removed path) (maybe_removed path) remove_error s.faults s

abbrev pub with_mode : ℕ → Option Node → Option Node
with_mode mode (some (regular s old)) = some (regular s mode)
with_mode mode node = node

abbrev pub remoded : Bytes → ℕ → M (Unit {0})
remoded path mode t = (ok tt, set_file path (with_mode mode (t.files path)) t)

-- `os.Chmod`
unfoldable pub chmod : Bytes → ℕ → M (Unit {0})
chmod path mode s = call (remoded path mode) untouched chmod_error s.faults s

abbrev pub linked : Bytes → Bytes → Option Node → M (Unit {0})
linked link path none t = (ok tt, set_file path (some (symlink link)) t)
linked link path (some node) t = (err symlink_error, t)

abbrev pub maybe_linked : Bytes → Bytes → ℕ → System → System
maybe_linked link path zero t = t
maybe_linked link path (suc n) t = (linked link path (t.files path) t).1

-- `os.Symlink`
unfoldable pub make_symlink : Bytes → Bytes → M (Unit {0})
make_symlink link path s =
    call (λ t. linked link path (t.files path) t) (maybe_linked link path) symlink_error s.faults s

-- `path` is `directory` or stands below it.
abbrev pub at_or_under : Bytes → Bytes → Bool
at_or_under directory path = equal path directory || has_prefix path (directory ++ (b'/' ∷ []))

abbrev pub without_tree : (Bytes → Bool) → Bytes → System → System
without_tree chosen directory t = record t {
  files = λ p. if at_or_under directory p && chosen p then none else t.files p;
}

abbrev pub removed_tree : Bytes → M (Unit {0})
removed_tree directory t = (ok tt, without_tree (λ _. true) directory t)

-- `os.RemoveAll`. Which files a removal that is cut short has removed is a parameter.
unfoldable pub remove_all : (ℕ → Bytes → Bool) → Bytes → M (Unit {0})
remove_all taken directory s =
    call (removed_tree directory) (λ n. without_tree (taken n) directory) remove_error s.faults s
