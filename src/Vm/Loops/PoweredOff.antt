-- ===== src/Vm/Loops/PoweredOff.antt =====
-- When `Wait` of internal/vm/vm.go ends because the machine stopped by itself.
use ossein_kernel.Base.{All, List, [], ap, arith, refl, ◌++◌, ◌↔◌, ◌∙◌, ◌∷◌, ◌≡◌, ◌≢◌}
use ossein_kernel.Vm.Loops.{
  WaitEvent, cancelled, in_error, is_stopped, powered_off, reported, wait_loop,
}

-- An event on which `Wait` goes on waiting.
abbrev pub Unended : WaitEvent → Type 0
Unended (reported s) = (s ≢ is_stopped) × (s ≢ in_error)
Unended (cancelled s can_stop) = ⊥

-- The machine is reported stopped, before any error and any cancellation.
pub record PoweredOff (es : List WaitEvent) : Type 0 where
  pub quiet : List WaitEvent
  pub later : List WaitEvent
  pub order : es ≡ quiet ++ reported is_stopped ∷ later
  pub unended : All Unended quiet

delayed : (e : WaitEvent) (es : List WaitEvent) → Unended e → PoweredOff es → PoweredOff (e ∷ es)
delayed e es u d = record {
  quiet = e ∷ d.quiet;
  later = d.later;
  order = ap (◌∷◌ e) d.order;
  unended = (u, d.unended);
}

wait_loop_sound : (es : List WaitEvent) → wait_loop es ≡ powered_off → PoweredOff es
unfolding wait_loop
wait_loop_sound [] h = absurd (ground arith)
wait_loop_sound (reported is_stopped ∷ es) h = record {
  quiet = [];
  later = es;
  order = refl;
  unended = tt;
}
wait_loop_sound (reported in_error ∷ es) h = absurd (ground arith)
wait_loop_sound (reported s ∷ es) h =
    delayed (reported s) es (ground arith, ground arith) (wait_loop_sound es h)
wait_loop_sound (cancelled s can_stop ∷ es) h = absurd (ground arith)

wait_loop-append :
    (quiet es : List WaitEvent)
    → All Unended quiet
    → wait_loop (quiet ++ reported is_stopped ∷ es) ≡ powered_off
unfolding wait_loop
wait_loop-append [] es u = refl
wait_loop-append (reported is_stopped ∷ quiet) es u = refl
wait_loop-append (reported in_error ∷ quiet) es u = absurd (u.0.1 refl)
wait_loop-append (reported s ∷ quiet) es u = wait_loop-append quiet es u.1
wait_loop-append (cancelled s can_stop ∷ quiet) es u = absurd u.0

-- `Wait` returns no error exactly when the machine is reported stopped, before any error and any
-- cancellation.
pub wait_loop_iff : (es : List WaitEvent) → (wait_loop es ≡ powered_off) ↔ PoweredOff es
wait_loop_iff es =
    (wait_loop_sound es, λ d. ap wait_loop d.order ∙ wait_loop-append d.quiet d.later d.unended)
