-- ===== src/Builder/Toolchain.antt =====
-- cmd/ossein-kernel/main.go: which entries of the LLVM tarball are extracted, and where to.
pub mod Targets
pub mod Extract
pub mod Inside
pub mod Contained
pub mod Stamped
pub mod Reused
use ossein_kernel.Base.{
  Bool, Bytes, [], codes, equal, false, if◌then◌else◌, none, not, some, true, ℕ, ◌&&◌, ◌++◌, ◌+◌,
  ◌==◌, ◌||◌, ◌∷◌,
}
use ossein_kernel.Strings.{find_cut, has_prefix, has_suffix, trim_prefix}
use ossein_kernel.Paths.{clean, dir, is_rooted, join_path, slash}

-- `errTarEscape`, an entry that is left out, or the path to write.
pub data Target : Type 0 where
  escapes : Target
  unwanted : Target
  wanted : Bytes → Target

-- `strings.Count` of one byte.
unfoldable pub count : Bytes → ℕ → ℕ
count [] c = 0
count (x ∷ s) c = (if x == c then 1 else 0) + count s c

abbrev pub is_or_under : Bytes → Bytes → Bool
is_or_under rel name = equal rel name || has_prefix rel (name ++ (slash ∷ []))

-- `pruneLLVMPath`
unfoldable pub prune_llvm_path : Bytes → Bool
unfolding count
prune_llvm_path rel =
    if is_or_under rel (codes "include")
    then true
    else if is_or_under rel (codes "share")
    then true
    else if is_or_under rel (codes "lib/cmake")
    then true
    else if has_prefix rel (codes "bin/lldb") || has_prefix rel (codes "lib/liblldb")
    then true
    else if has_prefix rel (codes "lib/") && (has_suffix rel (codes ".a") && count rel slash == 1)
    then true
    else false

-- `root`: the destination with a trailing separator.
unfoldable pub root_of : Bytes → Bytes
root_of dest = clean dest ++ (slash ∷ [])

-- `llvmEntryTarget` behind the first slash of the name.
unfoldable pub entry_target : Bytes → Bytes → Bytes → Target
unfolding prune_llvm_path
entry_target rel dest root =
    if equal rel [] || prune_llvm_path rel
    then unwanted
    else let target = join_path dest rel in
      if not (has_prefix target root) then escapes else wanted target

-- `llvmEntryTarget`
unfoldable pub llvm_entry_target : Bytes → Bytes → Bytes → Target
unfolding entry_target
llvm_entry_target name dest root = elim (find_cut (trim_prefix name (codes "./")) (slash ∷ [])) [
  | none ↦ unwanted
  | some (top, rel) ↦ entry_target rel dest root
]

-- The path that a symbolic link at `target` leads to, as `writeLLVMSymlink` resolves it.
unfoldable pub link_target : Bytes → Bytes → Bytes
link_target target link = if is_rooted link then link else join_path (dir target) link

-- The test of `writeLLVMSymlink`, before anything is written.
unfoldable pub link_stays : Bytes → Bytes → Bytes → Bool
unfolding link_target
link_stays root target link = has_prefix (clean (link_target target link) ++ (slash ∷ [])) root
