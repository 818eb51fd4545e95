-- ===== src/Builder/Guest/Frames.antt =====
-- What a booted machine leaves alone, and when it never passes.
use ossein_kernel.Base.{Bytes, List, Option, [], arith, refl, ◌∷◌, ◌≡◌, ◌≢◌}
use ossein_kernel.System.{
  Fault, M, Node, Result, System, and_then, boot_failed, call, err, fails, ok, stopped, stops,
  works, ◌>>=◌,
}
use ossein_kernel.System.Failing.{Fails}
use ossein_kernel.System.Frame.{Frame, call-Frame}
use ossein_kernel.Vm.{Built, Machine, VmConfig, Vz, built, new_vm, refused}
use ossein_kernel.Builder.Boot.{Verdict, boot_and_pass, passed}
use ossein_kernel.Builder.Guest.{GuestVm, after_guest, boot_guest, booted, cut_boot, events_after}

-- The guest leaves the file at `p` alone.
abbrev pub LeavesAlone : Bytes → GuestVm → Type 0
LeavesAlone p vm = (fs : Bytes → Option Node) → vm.leaves fs p ≡ fs p

pub after_guest-files :
    (p : Bytes) (vm : GuestVm)
    → LeavesAlone p vm
    → (m : Built Machine) (t : System) → (after_guest vm m t).files p ≡ t.files p
after_guest-files p vm alone (refused c) t = refl
after_guest-files p vm alone (built m) t = alone t.files

pub boot_guest-Frame :
    (p : Bytes) (vz : Vz) (cfg : VmConfig) (vm : GuestVm) (share : Bytes)
    → LeavesAlone p vm
    → Frame p (boot_guest vz cfg vm share)
unfolding boot_guest
boot_guest-Frame p vz cfg vm share alone = record {
  frame = λ s.
      call-Frame p (booted vz cfg vm share) (cut_boot vz cfg vm) boot_failed
        (record { frame = after_guest-files p vm alone (new_vm vz cfg) })
        (λ n. after_guest-files p vm alone (new_vm vz cfg)) s.faults s;
}

-- The machine does not pass, whatever stands in the share when its guest has ended.
abbrev pub NeverPasses : Vz → VmConfig → GuestVm → Bytes → Type 0
NeverPasses vz cfg vm share = (t : System) → boot_and_pass vz cfg (events_after vm share t) ≢ passed

module _ (vz : Vz) (cfg : VmConfig) (vm : GuestVm) (share : Bytes)
    (never : NeverPasses vz cfg vm share) where
  call-not_passed :
      (faults : List Fault) (t : System) (v : Verdict)
      → (call (booted vz cfg vm share) (cut_boot vz cfg vm) boot_failed faults t).0 ≡ ok v
      → v ≢ passed
  call-not_passed [] t v e p = never (after_guest vm (new_vm vz cfg) t) (cc)
  call-not_passed (works ∷ rest) t v e p =
      never (after_guest vm (new_vm vz cfg) (record t { faults = rest })) (cc)
  call-not_passed (fails n ∷ rest) t v e p = ground arith
  call-not_passed (stops n ∷ rest) t v e p = ground arith

  not_ok_after :
      (expect : Verdict → M (Unit {0}))
      → ((v : Verdict) → v ≢ passed → Fails (expect v))
      → (r : Result Verdict) (t : System) (u : Unit {0}) → ((v : Verdict) → r ≡ ok v → v ≢ passed)
      → (and_then expect r t).0 ≢ ok u
  not_ok_after expect k (ok v) t u h = (k v (h v refl)).never t u
  not_ok_after expect k (err e) t u h = ground arith
  not_ok_after expect k stopped t u h = ground arith

  -- What wants a machine that never passes to pass never ends well.
  pub boot_guest-Fails :
      (expect : Verdict → M (Unit {0}))
      → ((v : Verdict) → v ≢ passed → Fails (expect v))
      → Fails (boot_guest vz cfg vm share >>= expect)
  unfolding boot_guest
  boot_guest-Fails expect k = record {
    never = λ s u.
        let r = boot_guest vz cfg vm share s in
        not_ok_after expect k r.0 r.1 u (λ v. call-not_passed s.faults s v);
  }
