-- ===== src/Rootfs/Writer.antt =====
-- The calls that internal/rootfs/rootfs.go makes: of the ext4 writer and the image file of go-diskfs,
-- and of the host's file system. Whether a call works is a parameter.
use ossein_kernel.Base.{Bool, Bytes, List, [], false, if◌then◌else◌, true, ℕ, ◌∷◌}

pub data Call : Type 0 where
  remove_image close_image : Call
  create_image : ℕ → Call
  format_image : ℕ → Call
  open_source : Bytes → Call
  -- the paths on the disk, as the ext4 writer is given them
  disk_mkdir disk_open disk_close : Bytes → Call
  disk_write : Bytes → Bytes → Call
  -- what the link holds, and where it stands
  disk_symlink : Bytes → Bytes → Call
  disk_chmod : Bytes → ℕ → Call
  disk_chown : Bytes → ℕ → ℕ → Call

-- The calls made so far, the latest one first, and whether the next one works.
abbrev pub History : Type 0
History = List Call

abbrev pub World : Type 0
World = History → Call → Bool

pub data Failure : Type 0 where
  call_failed : Call → Failure
  not_pinned pull_failed tar_broken contents_broken : Failure

pub data Result (A : Type 0) : Type 0 where
  ok : A → Result A
  err : Failure → Result A

abbrev pub M : Type 0 → Type 0
M A = World → History → Result A × History

abbrev pub and_then : {A B : Type 0} → (A → M B) → Result A → World → History → Result B × History
and_then f (ok a) w h = f a w h
and_then f (err e) w h = (err e, h)

infixl 5 ◌>>◌
abbrev pub ◌>>◌ : {B : Type 0} → M (Unit {0}) → M B → M B
◌>>◌ m k w h = and_then (λ _. k) (m w h).0 w (m w h).1

abbrev pub pure : {A : Type 0} → A → M A
pure a w h = (ok a, h)

abbrev pub throw : {A : Type 0} → Failure → M A
throw e w h = (err e, h)

abbrev pub attempt : Call → M (Unit {0})
attempt c w h = (if w h c then ok tt else err (call_failed c), c ∷ h)

-- A call whose outcome is ignored.
abbrev pub ignore : Call → M (Unit {0})
ignore c w h = (ok tt, c ∷ h)

abbrev pub after_error : List Call → Result (Unit {0}) → History → Result (Unit {0}) × History
after_error [] r h = (r, h)
after_error (c ∷ cs) (ok u) h = (ok u, h)
after_error (c ∷ cs) (err e) h = after_error cs (err e) (c ∷ h)

-- Calls made when `m` fails, their outcomes ignored.
abbrev pub on_error : M (Unit {0}) → List Call → M (Unit {0})
on_error m cs w h = after_error cs (m w h).0 (m w h).1

abbrev pub require : Bool → Failure → M (Unit {0})
require true e = pure tt
require false e = throw e
