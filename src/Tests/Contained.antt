-- ===== src/Tests/Contained.antt =====
-- An archive with a link and a file beside it.
use ossein_kernel.Base.{Bytes, Option, [], codes, refl, some, true, ◌∷◌, ◌≡◌}
use ossein_kernel.Strings.{find_cut}
use ossein_kernel.Paths.{join_path}
use ossein_kernel.System.Frame.{Frame}
use ossein_kernel.Tar.{TarEntry, TarStream, regular_file, symbolic_link}
use ossein_kernel.Builder.Toolchain.{llvm_entry_target, root_of, wanted}
use ossein_kernel.Builder.Toolchain.Contained.{target_of}
use ossein_kernel.Tests.Toolchain.{item}

abbrev destination : Bytes
destination = codes "k/llvm"

abbrev compiler_link : TarEntry
compiler_link = item symbolic_link (codes "L/bin/cc") (codes "clang") []

abbrev compiler : TarEntry
compiler = item regular_file (codes "L/bin/clang") [] (codes "elf")

abbrev pair : TarStream
pair = record { entries = compiler_link ∷ compiler ∷ []; complete = true }

abbrev unxz : Bytes → Option TarStream
unxz s = some pair

link_target : target_of destination compiler_link ≡ wanted (codes "k/llvm/bin/cc")
unfolding llvm_entry_target root_of join_path codes find_cut
link_target = refl
