-- ===== src/Rootfs/Image.antt =====
-- What the calls of `Build`, internal/rootfs/rootfs.go, leave in the image file. The bytes that the
-- ext4 writer writes are a parameter.
pub mod Whole
use ossein_kernel.Base.{Bool, Bytes, Option, [], false, if◌then◌else◌, none, some, true, ℕ, ◌∷◌}
use ossein_kernel.Rootfs.Writer.{Call, History, Result, World, create_image, err, ok, remove_image}
use ossein_kernel.System.{Node, regular}
use ossein_kernel.Rootfs.Unpack.{Source, build}
use ossein_kernel.Tar.{TarStream}

-- What a build meets: whether the reference of the image is pinned, what is pulled, which calls work,
-- and what the image file holds after a history.
pub record Surroundings : Type 0 where
  pub pinned : Bool
  pub pulled : Option TarStream
  pub init_whole : Bool
  pub world : World
  pub disk : History → Bytes
  pub image_mode : ℕ

abbrev pub rewritten : Bytes → Option Node → Option Node
rewritten text (some (regular s mode)) = some (regular text mode)
rewritten text o = o

-- A call after a history.
abbrev pub image_call : Surroundings → History → Call → Option Node → Option Node
image_call x h remove_image o = if x.world h remove_image then none else o
image_call x h (create_image size) o =
    if x.world h (create_image size)
    then some (regular (x.disk (create_image size ∷ h)) x.image_mode)
    else o
image_call x h c o = rewritten (x.disk (c ∷ h)) o

unfoldable pub image_after : Surroundings → Option Node → History → Option Node
image_after x o [] = o
image_after x o (c ∷ h) = image_call x h c (image_after x o h)

abbrev pub is_ok : Result (Unit {0}) → Bool
is_ok (ok u) = true
is_ok (err e) = false

abbrev pub build_run : Surroundings → Source → ℕ → Result (Unit {0}) × History
build_run x src size = build x.pinned x.pulled src size x.world []

-- Whether `Build` succeeds, and the calls that it makes.
abbrev pub builds : Surroundings → Source → ℕ → Bool
builds x src size = is_ok (build_run x src size).0

abbrev pub build_history : Surroundings → Source → ℕ → History
build_history x src size = (build_run x src size).1
