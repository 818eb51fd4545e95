-- ===== src/Init/Required.antt =====
-- What the init needs: which answers it goes on with, and that its mounts end well only after such.
pub mod SetUp
pub mod Passed
use ossein_kernel.Base.{
  Bool, Bool-cases, Bytes, List, [], codes, equal, false, inl, inr, is_some, not, refl, true, ◌||◌,
  ◌∷◌, ◌≡◌,
}
use ossein_kernel.Strings.{scan_lines}
use ossein_kernel.Init.{
  Answer, Call, History, M, MountSpec, Result, World, and_then, attempt, bash, chdir, close,
  dhcp_close, dhcp_request, done, err, exited, expect_done, failed, for_each, ignore, lease,
  link_list, links, mkdir, mkdir_all, mount, not_exist, ok, open_file, pivot_root, pure, read_file,
  request, sync, text, unmount, ◌>>=◌, ◌>>◌,
}
use ossein_kernel.Init.Build.{env_file}
use ossein_kernel.Init.Mounts.{
  accept_mount, base_mounts, cmdline_has, found_token, fs_tmpfs, kernel_share, llvm_token, lower,
  mnt_detach, mount_base, mount_one, mount_shares, mount_spec, mount_virtiofs, mounted_before,
  ms_bind, new_root, old_root, overlay_mountpoint, overlay_options, plain, setup_overlay_root,
  upper, when, work,
}

abbrev is_done : Answer → Bool
is_done done = true
is_done _ = false

abbrev mount_accepted : MountSpec → Answer → Bool
mount_accepted spec (failed e) = mounted_before spec e
mount_accepted spec a = is_done a

abbrev is_exit : Answer → Bool
is_exit (exited code) = true
is_exit a = is_done a

abbrev is_links : Answer → Bool
is_links (links ls) = true
is_links _ = false

abbrev is_lease : Answer → Bool
is_lease (lease l) = true
is_lease _ = false

abbrev env_openable : Answer → Bool
env_openable (failed not_exist) = true
env_openable a = is_done a

-- The text of the environment was read, and none of its lines is too long.
abbrev is_scannable : Answer → Bool
is_scannable (text s) = is_some (scan_lines s)
is_scannable _ = false

-- The answers with which the set-up goes on. Reading a file other than the environment, flushing and
-- closing one, and detaching the old root may fail.
abbrev pub accepted : Call → Answer → Bool
accepted (mount spec) a = mount_accepted spec a
accepted (read_file path) a = not (equal path env_file) || is_scannable a
accepted (sync path) a = true
accepted (close path) a = true
accepted (unmount path flags) a = true
accepted dhcp_close a = true
accepted link_list a = is_links a
accepted dhcp_request a = is_lease a
accepted (open_file path) a = env_openable a
accepted (bash script env dir) a = is_exit a
accepted _ a = is_done a

-- Every call was answered so that the set-up goes on.
abbrev pub Smooth : World → History → Type 0
Smooth w [] = Unit
Smooth w (c ∷ h) = (accepted c (w h c) ≡ true) × Smooth w h

abbrev pub Good : {A : Type 0} → World → Result A → History → Type 0
Good w (ok a) h = Smooth w h
Good w (err e) h = Unit

-- `m` ends well only after calls that were answered so.
pub record Keeps {A : Type 0} (m : M A) : Type 0 where
  pub keeps : (w : World) (h : History) → Smooth w h → Good w (m w h).0 (m w h).1

Good-and_then :
    {A B : Type 0} (f : A → M B)
    → ((a : A) → Keeps (f a))
    → (w : World) (r : Result A) (h : History) → Good w r h
    → Good w (and_then f r w h).0 (and_then f r w h).1
Good-and_then f k w (ok a) h g = (k a).keeps w h g
Good-and_then f k w (err e) h g = tt

pub Keeps-bind :
    {A B : Type 0} {m : M A} (f : A → M B) → Keeps m → ((a : A) → Keeps (f a)) → Keeps (m >>= f)
Keeps-bind {m = m} f k kf = record {
  keeps = λ w h s. Good-and_then f kf w (m w h).0 (m w h).1 (k.keeps w h s);
}

infixl 5 ◌then◌
pub ◌then◌ : {B : Type 0} {m : M (Unit {0})} {k : M B} → Keeps m → Keeps k → Keeps (m >> k)
◌then◌ {k = k} km kk = Keeps-bind (λ _. k) km (λ _. kk)

pub Keeps-pure : {A : Type 0} (a : A) → Keeps (pure a)
Keeps-pure a = record { keeps = λ w h s. s }

Keeps-for_each :
    {A : Type 0} (f : A → M (Unit {0}))
    → ((a : A) → Keeps (f a))
    → (xs : List A) → Keeps (for_each f xs)
Keeps-for_each f k [] = Keeps-pure tt
Keeps-for_each f k (x ∷ xs) = k x then Keeps-for_each f k xs

abbrev DoneEnough : Call → Type 0
DoneEnough c = accepted c done ≡ true

-- What is done with an answer goes on only if the call is accepted.
abbrev pub Reads : {A : Type 0} → Call → (Answer → M A) → Type 0
Reads c f =
    (a : Answer) (w : World) (h : History)
    → (accepted c a ≡ true → Smooth w h)
    → Good w (f a w h).0 (f a w h).1

Reads-expect_done : (c : Call) → DoneEnough c → Reads c (expect_done c)
Reads-expect_done c d done w h s = s d
Reads-expect_done c d (failed e) w h s = tt
Reads-expect_done c d (text t) w h s = tt
Reads-expect_done c d (links ls) w h s = tt
Reads-expect_done c d (lease l) w h s = tt
Reads-expect_done c d (exited n) w h s = tt

pub Keeps-request : {A : Type 0} {c : Call} (f : Answer → M A) → Reads c f → Keeps (request c >>= f)
Keeps-request {c = c} f k = record { keeps = λ w h s. k (w h c) w (c ∷ h) (λ e. (e, s)) }

pub needed : (c : Call) → DoneEnough c → Keeps (attempt c)
needed c d = Keeps-request (expect_done c) (Reads-expect_done c d)

ignored : (c : Call) → ((a : Answer) → accepted c a ≡ true) → Keeps (ignore c)
ignored c d = Keeps-request (λ _. pure tt) (λ a w h s. s (d a))

pub setup_overlay_root-Keeps : Keeps setup_overlay_root
unfolding setup_overlay_root
setup_overlay_root-Keeps =
    needed (mount (mount_spec fs_tmpfs overlay_mountpoint fs_tmpfs 0 [])) refl
    then Keeps-for_each (λ d. attempt (mkdir d)) (λ d. needed (mkdir d) refl)
        (lower ∷ upper ∷ work ∷ new_root ∷ [])
    then needed (mount (mount_spec (codes "/") lower [] ms_bind [])) refl
    then needed (mount (mount_spec (codes "overlay") new_root (codes "overlay") 0 overlay_options))
        refl
    then needed (mkdir old_root) refl
    then needed (pivot_root new_root old_root) refl
    then needed (chdir (codes "/")) refl
    then ignored (unmount (codes "/oldroot") mnt_detach) (λ a. refl)

Reads-accept_mount : (spec : MountSpec) → Reads (mount spec) (accept_mount spec)
Reads-accept_mount spec done w h s = s refl
Reads-accept_mount spec (failed e) w h s = elim (Bool-cases (mounted_before spec e)) [
  | inl b ↦ rw b (s b)
  | inr b ↦ rw b tt
]
Reads-accept_mount spec (text t) w h s = tt
Reads-accept_mount spec (links ls) w h s = tt
Reads-accept_mount spec (lease l) w h s = tt
Reads-accept_mount spec (exited n) w h s = tt

Keeps-mount_one : (spec : MountSpec) → Keeps (mount_one spec)
Keeps-mount_one spec =
    needed (mkdir_all spec.target) refl
    then Keeps-request (accept_mount spec) (Reads-accept_mount spec)

pub mount_base-Keeps : Keeps mount_base
unfolding mount_base
mount_base-Keeps = Keeps-for_each mount_one Keeps-mount_one base_mounts

pub cmdline_has-Keeps : (token : Bytes) → Keeps (cmdline_has token)
unfolding cmdline_has equal codes
cmdline_has-Keeps token = Keeps-request (λ a. pure (found_token token a)) (λ a w h s. s refl)

pub when-Keeps : (b : Bool) (m : M (Unit {0})) → Keeps m → Keeps (when b m)
when-Keeps true m k = k
when-Keeps false m k = Keeps-pure tt

mount_virtiofs-Keeps : (tag target : Bytes) → Keeps (mount_virtiofs tag target)
unfolding mount_virtiofs
mount_virtiofs-Keeps tag target =
    needed (mkdir_all target) refl then needed (mount (plain tag target (codes "virtiofs") [])) refl

pub mount_shares-Keeps : Keeps mount_shares
unfolding mount_shares
mount_shares-Keeps =
    Keeps-bind (λ declared. when declared (mount_virtiofs (codes "llvm") (codes "/opt/llvm")))
      (mount_virtiofs-Keeps (codes "kernel") kernel_share then cmdline_has-Keeps llvm_token)
      (λ declared. when-Keeps declared _ (mount_virtiofs-Keeps (codes "llvm") (codes "/opt/llvm")))
