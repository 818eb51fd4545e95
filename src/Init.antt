-- ===== src/Init.antt =====
-- The guest's init, cmd/ossein-kernel/init/main.go: the calls that it makes of the kernel, of the
-- network libraries and of bash, and what is answered to each.
pub mod Mounts
pub mod Network
pub mod Build
pub mod Status
pub mod Main
pub mod Required
use ossein_kernel.Base.{Bytes, List, Option, [], ℕ, ◌∷◌}
use ossein_kernel.Numbers.{ℤ}

pub data Errno : Type 0 where
  not_exist busy : Errno
  other : ℕ → Errno

-- What the init reads of a network link. Addresses are held as their text.
pub record Link : Type 0 where
  pub name : Bytes
  pub index : ℕ
  pub kind : Bytes

pub record Lease : Type 0 where
  pub your_ip : Bytes
  pub subnet_mask : Option Bytes
  pub routers : List Bytes
  pub dns : List Bytes

pub record MountSpec : Type 0 where
  pub source : Bytes
  pub target : Bytes
  pub fstype : Bytes
  pub flags : ℕ
  pub options : Bytes

pub data Call : Type 0 where
  mount : MountSpec → Call
  mkdir mkdir_all chdir open_file read_file create sync close : Bytes → Call
  -- the new root, and where the old one goes
  pivot_root : Bytes → Bytes → Call
  unmount : Bytes → ℕ → Call
  write write_file : Bytes → Bytes → Call
  link_list dhcp_request dhcp_close power_off : Call
  link_set_up dhcp_client : Bytes → Call
  -- the link's name, the address and its mask
  addr_add : Bytes → Bytes → Bytes → Call
  -- the link's index and the gateway
  route_add : ℕ → Bytes → Call
  -- the script, its environment and its directory
  bash : Bytes → List Bytes → Bytes → Call

pub data Answer : Type 0 where
  done : Answer
  failed : Errno → Answer
  text : Bytes → Answer
  links : List Link → Answer
  lease : Lease → Answer
  -- the child ran and ended with this exit code, -1 when a signal ended it
  exited : ℤ → Answer

-- The calls made so far, the latest one first, and what the next one is answered.
abbrev pub History : Type 0
History = List Call

abbrev pub World : Type 0
World = History → Call → Answer

-- An error is the call that failed, or that no network link was found.
pub data Failure : Type 0 where
  call_failed : Call → Failure
  no_ethernet : Failure

pub data Result (A : Type 0) : Type 0 where
  ok : A → Result A
  err : Failure → Result A

abbrev pub M : Type 0 → Type 0
M A = World → History → Result A × History

abbrev pub and_then : {A B : Type 0} → (A → M B) → Result A → World → History → Result B × History
and_then f (ok a) w h = f a w h
and_then f (err e) w h = (err e, h)

infixl 5 ◌>>=◌ ◌>>◌
abbrev pub ◌>>=◌ : {A B : Type 0} → M A → (A → M B) → M B
◌>>=◌ m f w h = and_then f (m w h).0 w (m w h).1

abbrev pub ◌>>◌ : {B : Type 0} → M (Unit {0}) → M B → M B
m >> k = m >>= λ _. k

abbrev pub pure : {A : Type 0} → A → M A
pure a w h = (ok a, h)

abbrev pub throw : {A : Type 0} → Failure → M A
throw e w h = (err e, h)

abbrev pub request : Call → M Answer
request c w h = (ok (w h c), c ∷ h)

abbrev pub expect_done : Call → Answer → M (Unit {0})
expect_done c done = pure tt
expect_done c _ = throw (call_failed c)

-- A call whose failure is returned.
abbrev pub attempt : Call → M (Unit {0})
attempt c = request c >>= expect_done c

-- A call whose outcome is ignored.
abbrev pub ignore : Call → M (Unit {0})
ignore c = request c >>= λ _. pure tt

abbrev pub for_each : {A : Type 0} → (A → M (Unit {0})) → List A → M (Unit {0})
for_each f [] = pure tt
for_each f (x ∷ xs) = f x >> for_each f xs
