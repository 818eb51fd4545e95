-- ===== src/Tests/Paths.antt =====
-- Paths, as internal/rootfs/rootfs_fuzz_test.go seeds them.
use ossein_kernel.Base.{Bytes, [], arith, codes, false, refl, true, ◌≡◌, ◌≢◌}
use ossein_kernel.Strings.{before_suffix, find_cut, trim_left}
use ossein_kernel.Builder.Toolchain.{
  escapes, link_stays, link_target, llvm_entry_target, root_of, unwanted, wanted,
}
use ossein_kernel.Builder.Toolchain.Targets.{link_stays-IsInside, llvm_entry_target-IsInside}
use ossein_kernel.Paths.Inside.{IsInside}
use ossein_kernel.Paths.{base, clean, dir, is_rooted, join_path, stack_of}
use ossein_kernel.Rootfs.{disk_path}
use ossein_kernel.Rootfs.DiskPath.{disk_path_normal}

cleaned :
    (clean (codes "") ≡ codes ".")
    × (clean (codes "/a/./b/../c") ≡ codes "/a/c")
    × (clean (codes "../x//y/") ≡ codes "../x/y")
    × (clean (codes "/..") ≡ codes "/")
unfolding clean codes
cleaned = (refl, refl, refl, refl)

mapped :
    (disk_path (codes "///x") ≡ codes "x")
    × (disk_path (codes "./usr/bin/") ≡ codes "usr/bin")
    × (disk_path (codes "/") ≡ codes ".")
unfolding disk_path clean codes trim_left
mapped = (refl, refl, refl)

parts :
    (dir (codes "a/b/c") ≡ codes "a/b")
    × (base (codes "a/b/c") ≡ codes "c")
    × (dir (codes "c") ≡ codes ".")
    × (base (codes "/x/") ≡ codes "x")
    × (join_path (codes "a/b") (codes "../c") ≡ codes "a/c")
unfolding dir base clean join_path codes
parts = (refl, refl, refl, refl, refl)

disk_path_normal_example :
    (is_rooted (disk_path (codes "/a/")) ≡ false)
    × (disk_path (codes "/a/") ≢ [])
    × (clean (disk_path (codes "/a/")) ≡ disk_path (codes "/a/"))
    × (disk_path (disk_path (codes "/a/")) ≡ disk_path (codes "/a/"))
disk_path_normal_example = disk_path_normal (codes "/a/")

targets :
    (llvm_entry_target (codes "LLVM-1/bin/clang") (codes ".b/llvm") (root_of (codes ".b/llvm"))
      ≡ wanted (codes ".b/llvm/bin/clang"))
    × (llvm_entry_target (codes "./LLVM-1/../x") (codes ".b/llvm") (root_of (codes ".b/llvm"))
        ≡ escapes)
    × (llvm_entry_target (codes "L/lib/libx.a") (codes "d") (root_of (codes "d")) ≡ unwanted)
    × (link_stays (root_of (codes "d")) (codes "d/bin/a") (codes "../../x") ≡ false)
    × (link_stays (root_of (codes "d")) (codes "d/bin/a") (codes "../lib/x") ≡ true)
unfolding llvm_entry_target root_of join_path codes find_cut before_suffix link_stays dir
targets = (refl, refl, refl, refl, refl)

abbrev llvm : Bytes
llvm = codes "llvm"

llvm_entry_target-IsInside_example : IsInside llvm (codes "llvm/bin/ld")
unfolding llvm_entry_target root_of join_path codes find_cut before_suffix stack_of
llvm_entry_target-IsInside_example =
    llvm_entry_target-IsInside llvm llvm [] refl (ground arith) (codes "L/bin/ld")
      (codes "llvm/bin/ld") (ground arith) refl

link_stays-IsInside_example : IsInside llvm (link_target (codes "llvm/bin/ld") (codes "lld"))
unfolding link_stays root_of join_path codes find_cut stack_of dir
link_stays-IsInside_example =
    link_stays-IsInside llvm llvm [] refl (ground arith) (codes "llvm/bin/ld") (codes "lld") refl
