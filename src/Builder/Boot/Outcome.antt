-- ===== src/Builder/Boot/Outcome.antt =====
-- The status that the guest's init records is the one that the host reads.
use ossein_kernel.Base.{
  All, All-map, Bool-cases, Bytes, Option, inl, inr, none, [], ap, arith, refl, some, suc, sym,
  true, zero, ℕ, ◌↔◌, ◌∙◌, ◌∷◌, ◌≡◌, ◌≢◌,
}
use ossein_kernel.Numbers.{atoi, decimal, is_decimal, itoa, negsuc, pos, ℤ}
use ossein_kernel.Numbers.RoundTrip.{InRange, atoi-itoa, digits-Decimal, digits-ne-nil}
use ossein_kernel.Strings.Fields.{
  NoSpace, NoSpace-of_Visible, Visible, Word, space_width-zero, trim_space-append,
}
use ossein_kernel.Init.Status.{status_text}
use ossein_kernel.Builder.Boot.{
  BootResult, GuestStatus, VmRun, after_start, after_wait, boot, boot_and_pass, guest_status,
  judged, no_status, parse_status, parsed, passed, pending, read_status, start, start_failure,
  status_code, status_in, verdict_of, wait_failure,
}
use ossein_kernel.Strings.{trim_space}
use ossein_kernel.Vm.Loops.{
  DecidedBy, Running, Started, Waited, not_started, powered_off, run_error, start_loop,
  start_loop_iff, started, starting_on, wait_cancelled, wait_loop, waiting_on,
}
use ossein_kernel.Vm.Loops.PoweredOff.{PoweredOff, wait_loop_iff}
use ossein_kernel.Init.{World}
use ossein_kernel.Init.Main.{recorded, run_init}
use ossein_kernel.Init.Required.Passed.{Passed, recorded_zero}
use ossein_kernel.Vm.{Built, Machine, VmConfig, Vz, built, new_vm, refused}

Visible-decimal : (c : ℕ) → is_decimal c ≡ true → Visible c
Visible-decimal c h = ground arith

NoSpace-digits : (s : Bytes) → All (λ c. is_decimal c ≡ true) s → NoSpace s
NoSpace-digits s h =
    NoSpace-of_Visible s (All-map (λ c. is_decimal c ≡ true) Visible Visible-decimal s h)

itoa-Word : (n : ℤ) → Word (itoa n)
unfolding itoa
itoa-Word (pos n) = (digits-ne-nil n n, NoSpace-digits (decimal n) (digits-Decimal (suc n) n))
itoa-Word (negsuc n) = (
  ground arith,
  (
    space_width-zero b'-' (decimal (suc n)) refl (omega arith),
    NoSpace-digits (decimal (suc n)) (digits-Decimal (suc (suc n)) (suc n)),
  ),
)

status_in-nonempty : (s : Bytes) → s ≢ [] → status_in s ≡ parsed (atoi s)
status_in-nonempty [] h = absurd (h refl)
status_in-nonempty (c ∷ s) h = refl

-- The host reads from the text that the guest's init writes the status that it wrote, if it is in
-- the range of a 64-bit int.
pub read_status-status_text :
    (n : ℤ) → InRange n → read_status (some (status_text n)) ≡ status_code n
unfolding read_status
read_status-status_text n h =
    ap status_in (trim_space-append (itoa n) b'\n' (itoa-Word n) refl)
    ∙ status_in-nonempty (itoa n) (itoa-Word n).0
    ∙ ap parsed (atoi-itoa n h)

-- The machine was started and came up before it failed, stopped or the deadline passed; then it was
-- reported stopped before any error and any cancellation; and the text of its status file, trimmed, is
-- the number.
pub record LeftStatus (r : VmRun) (n : ℤ) : Type 0 where
  pub starts : r.starts ≡ true
  pub came_up : DecidedBy r.start_events Running
  pub ended_itself : PoweredOff r.wait_events
  pub written : Bytes
  pub left : r.status_file ≡ some written
  pub says : atoi (trim_space written) ≡ some n

start_sound :
    (r : VmRun) → start r ≡ started → (r.starts ≡ true) × (start_loop r.start_events ≡ started)
start_sound r h = elim (Bool-cases r.starts) [
  | inl e ↦ (e, ground arith)
  | inr e ↦ absurd (ground arith)
]

parsed_sound : (o : Option ℤ) (n : ℤ) → parsed o ≡ status_code n → o ≡ some n
parsed_sound none n h = absurd (ground arith)
parsed_sound (some m) n h = ground arith

status_in_sound : (s : Bytes) (n : ℤ) → status_in s ≡ status_code n → atoi s ≡ some n
status_in_sound [] n h = absurd (ground arith)
status_in_sound (c ∷ s) n h = parsed_sound (atoi (c ∷ s)) n h

status_in-atoi : (s : Bytes) (n : ℤ) → atoi s ≡ some n → status_in s ≡ status_code n
status_in-atoi [] n h = absurd (unfold atoi in (ground arith))
status_in-atoi (c ∷ s) n h = ap parsed h

LeftStatus-of_parts :
    (r : VmRun) (n : ℤ) (o : Option Bytes)
    → start r ≡ started
    → wait_loop r.wait_events ≡ powered_off
    → r.status_file ≡ o
    → read_status o ≡ status_code n
    → LeftStatus r n
unfolding read_status
LeftStatus-of_parts r n none u e f h = absurd (ground arith)
LeftStatus-of_parts r n (some s) u e f h = record {
  starts = (start_sound r u).0;
  came_up = (start_loop_iff r.start_events).0 (start_sound r u).1;
  ended_itself = (wait_loop_iff r.wait_events).0 e;
  written = s;
  left = f;
  says = status_in_sound (trim_space s) n h;
}

read_status-left : (r : VmRun) (n : ℤ) → LeftStatus r n → read_status r.status_file ≡ status_code n
unfolding read_status
read_status-left r n l = rw l.left (status_in-atoi (trim_space l.written) n l.says)

abbrev code_in : GuestStatus → ℤ
code_in (status_code n) = n
code_in _ = pos 0

abbrev read_code : BootResult → GuestStatus
read_code (guest_status s) = s
read_code _ = no_status

LeftStatus-of_waited :
    (r : VmRun) (n : ℤ) (w : Waited)
    → start r ≡ started
    → wait_loop r.wait_events ≡ w
    → after_wait r w ≡ guest_status (status_code n)
    → LeftStatus r n
LeftStatus-of_waited r n powered_off u e h =
    LeftStatus-of_parts r n r.status_file u e refl (ap read_code h)
LeftStatus-of_waited r n run_error u e h = absurd (ground arith)
LeftStatus-of_waited r n (wait_cancelled told) u e h = absurd (ground arith)
LeftStatus-of_waited r n waiting_on u e h = absurd (ground arith)

LeftStatus-of_started :
    (r : VmRun) (n : ℤ) (s : Started)
    → start r ≡ s
    → after_start r s ≡ guest_status (status_code n)
    → LeftStatus r n
LeftStatus-of_started r n started u h = LeftStatus-of_waited r n (wait_loop r.wait_events) u refl h
LeftStatus-of_started r n (not_started s) u h = absurd (ground arith)
LeftStatus-of_started r n starting_on u h = absurd (ground arith)

start-came_up : (r : VmRun) → r.starts ≡ true → DecidedBy r.start_events Running → start r ≡ started
start-came_up r e d = rw e ((start_loop_iff r.start_events).1 d)

LeftStatus-boot : (r : VmRun) (n : ℤ) → LeftStatus r n → boot r ≡ guest_status (status_code n)
unfolding boot
LeftStatus-boot r n l =
    ap (after_start r) (start-came_up r l.starts l.came_up)
    ∙ ap (after_wait r) ((wait_loop_iff r.wait_events).1 l.ended_itself)
    ∙ ap guest_status (read_status-left r n l)

-- `boot` returns a status exactly when the machine was started and came up before it failed, stopped
-- or the deadline passed; was then reported stopped before any error and any cancellation; and left a
-- file that holds the number, with nothing but white space round it.
pub boot_iff : (r : VmRun) (n : ℤ) → (boot r ≡ guest_status (status_code n)) ↔ LeftStatus r n
unfolding boot
boot_iff r n = (LeftStatus-of_started r n (start r) refl, LeftStatus-boot r n)

verdict_of_passed :
    (b : BootResult) → verdict_of b ≡ passed → b ≡ guest_status (status_code (pos 0))
verdict_of_passed (guest_status (status_code (pos zero))) h = refl
verdict_of_passed (guest_status (status_code (pos (suc n)))) h = absurd (ground arith)
verdict_of_passed (guest_status (status_code (negsuc n))) h = absurd (ground arith)
verdict_of_passed (guest_status no_status) h = absurd (ground arith)
verdict_of_passed (guest_status parse_status) h = absurd (ground arith)
verdict_of_passed start_failure h = absurd (ground arith)
verdict_of_passed wait_failure h = absurd (ground arith)
verdict_of_passed pending h = absurd (ground arith)

Built-passed :
    (m : Built Machine) (r : VmRun)
    → judged r m ≡ passed
    → boot r ≡ guest_status (status_code (pos 0))
Built-passed (built m) r h = verdict_of_passed (boot r) h
Built-passed (refused c) r h = absurd (ground arith)

-- When a build or a boot test passes on the host, and the status file is what the guest's init writes,
-- then in the guest every call that the init needs succeeded, `build.env` was read whole if it could be
-- opened, and bash ended the build script with 0, if the recorded status is in the range of a 64-bit
-- int.
pub boot_and_pass-Passed :
    (works : Vz) (cfg : VmConfig) (r : VmRun) (w : World)
    → InRange (recorded w)
    → r.status_file ≡ some (status_text (recorded w))
    → boot_and_pass works cfg r ≡ passed
    → Passed w (pos 0) (run_init w).1
unfolding boot_and_pass
boot_and_pass-Passed works cfg r w i f h = recorded_zero w (
    ap code_in (
      sym (read_status-status_text (recorded w) i)
      ∙ sym (ap read_status f)
      ∙ read_status-left r (pos 0) ((boot_iff r (pos 0)).0 (Built-passed (new_vm works cfg) r h))))
