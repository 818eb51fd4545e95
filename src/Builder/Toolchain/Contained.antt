-- ===== src/Builder/Toolchain/Contained.antt =====
-- An archive no entry of which goes through a link of it: the extraction of the LLVM tarball,
-- cmd/ossein-kernel/main.go, meets no link on the way to an entry but those that stood there before.
use ossein_kernel.Base.{All, Bytes, List, [], false, ◌∷◌, ◌≡◌, ◌≢◌}
use ossein_kernel.System.{at_or_under}
use ossein_kernel.System.Frame.{Frame}
use ossein_kernel.Tar.{TarEntry, symbolic_link}
use ossein_kernel.Builder.Toolchain.{Target, llvm_entry_target, root_of, wanted}

-- The path that an entry is extracted to.
abbrev pub target_of : Bytes → TarEntry → Target
target_of dest hdr = llvm_entry_target hdr.entry_name dest (root_of dest)

-- The entry puts no link at `q`.
abbrev LinksElsewhere : Bytes → Bytes → TarEntry → Type 0
LinksElsewhere dest q l = (t : Bytes) → l.kind ≡ symbolic_link → target_of dest l ≡ wanted t → t ≢ q

-- If `l` is a link, `hdr` is extracted neither at its place nor below it.
abbrev pub ClearOf : Bytes → TarEntry → TarEntry → Type 0
ClearOf dest l hdr =
    (t u : Bytes)
    → l.kind ≡ symbolic_link
    → target_of dest l ≡ wanted t
    → target_of dest hdr ≡ wanted u
    → at_or_under t u ≡ false

-- No entry is extracted at the place of an earlier link or below it.
abbrev pub NeverThrough : Bytes → List TarEntry → Type 0
NeverThrough dest [] = Unit
NeverThrough dest (l ∷ hdrs) = All (ClearOf dest l) hdrs × NeverThrough dest hdrs
