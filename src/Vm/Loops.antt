-- ===== src/Vm/Loops.antt =====
-- `Start`, `Wait` and `Stop` of internal/vm/vm.go, which wait for what vz reports: the events are a
-- list, in the order in which the `select` takes them.
pub mod PoweredOff
use ossein_kernel.Base.{
  All, Bool, Bool-cases, List, [], ap, arith, false, if◌then◌else◌, inl, inr, refl, true, ◌++◌, ◌↔◌,
  ◌∙◌, ◌∷◌, ◌≡◌, ◌≢◌,
}

pub data VmState : Type 0 where
  is_stopped is_running is_paused in_error is_starting is_pausing is_resuming is_stopping : VmState
  is_saving is_restoring : VmState

-- The deadline is passed in a state.
pub data StartEvent : Type 0 where
  changed : VmState → StartEvent
  deadline : VmState → StartEvent

pub data Started : Type 0 where
  started : Started
  not_started : VmState → Started
  -- no event has decided yet
  starting_on : Started

abbrev pub running : VmState → Bool
running is_running = true
running _ = false

abbrev pub broken : VmState → Bool
broken in_error = true
broken is_stopped = true
broken _ = false

unfoldable pub start_loop : List StartEvent → Started
start_loop [] = starting_on
start_loop (changed s ∷ es) =
    let rest = start_loop es in
    if running s then started else (if broken s then not_started s else rest)
start_loop (deadline s ∷ es) = if running s then started else not_started s

-- The context is cancelled in a state, and the machine can be stopped or not.
pub data WaitEvent : Type 0 where
  reported : VmState → WaitEvent
  cancelled : VmState → Bool → WaitEvent

-- Whether the machine is told to stop.
unfoldable pub stop : VmState → Bool → Bool
stop is_stopped can_stop = false
stop _ can_stop = can_stop

pub data Waited : Type 0 where
  powered_off run_error : Waited
  -- whether it was told to stop
  wait_cancelled : Bool → Waited
  waiting_on : Waited

unfoldable pub wait_loop : List WaitEvent → Waited
wait_loop [] = waiting_on
wait_loop (reported is_stopped ∷ es) = powered_off
wait_loop (reported in_error ∷ es) = run_error
wait_loop (reported _ ∷ es) = wait_loop es
wait_loop (cancelled s can_stop ∷ es) = wait_cancelled (stop s can_stop)

-- An event on which `Start` goes on waiting: the machine has neither come up, nor failed, nor stopped.
abbrev pub Undecided : StartEvent → Type 0
Undecided (changed s) = (s ≢ is_running) × (s ≢ in_error) × (s ≢ is_stopped)
Undecided (deadline s) = ⊥

abbrev pub state_in : StartEvent → VmState
state_in (changed s) = s
state_in (deadline s) = s

-- The first event that decides is `decider`.
pub record DecidedBy (es : List StartEvent) (P : StartEvent → Type 0) : Type 0 where
  pub quiet : List StartEvent
  pub decider : StartEvent
  pub later : List StartEvent
  pub order : es ≡ quiet ++ decider ∷ later
  pub undecided : All Undecided quiet
  pub decides : P decider

abbrev pub Running : StartEvent → Type 0
Running e = state_in e ≡ is_running

running_sound : (s : VmState) → running s ≡ true → s ≡ is_running
running_sound is_running h = refl
running_sound s h = absurd (ground arith)

not_running : (s : VmState) → s ≢ is_running → running s ≡ false
not_running is_running h = absurd (h refl)
not_running s h = refl

not_broken : (s : VmState) → s ≢ in_error → s ≢ is_stopped → broken s ≡ false
not_broken in_error h k = absurd (h refl)
not_broken is_stopped h k = absurd (k refl)
not_broken s h k = refl

differs : (test : VmState → Bool) (s t : VmState) → test s ≡ false → test t ≡ true → s ≢ t
differs test s t h k e = let f = ap test e in absurd (ground arith)

Undecided-changed : (s : VmState) → running s ≡ false → broken s ≡ false → Undecided (changed s)
Undecided-changed s h k = (
  differs running s is_running h refl,
  differs broken s in_error k refl,
  differs broken s is_stopped k refl,
)

decided :
    {P : StartEvent → Type 0} (e : StartEvent) (es : List StartEvent) → P e → DecidedBy (e ∷ es) P
decided e es p = record {
  quiet = [];
  decider = e;
  later = es;
  order = refl;
  undecided = tt;
  decides = p;
}

delayed :
    {P : StartEvent → Type 0} (e : StartEvent) (es : List StartEvent)
    → Undecided e
    → DecidedBy es P
    → DecidedBy (e ∷ es) P
delayed e es u d = record {
  quiet = e ∷ d.quiet;
  decider = d.decider;
  later = d.later;
  order = ap (◌∷◌ e) d.order;
  undecided = (u, d.undecided);
  decides = d.decides;
}

start_loop_sound : (es : List StartEvent) → start_loop es ≡ started → DecidedBy es Running
unfolding start_loop
start_loop_sound [] h = absurd (ground arith)
start_loop_sound (deadline s ∷ es) h = elim (Bool-cases (running s)) [
  | inl e ↦ decided (deadline s) es (running_sound s e)
  | inr e ↦ absurd (ground arith)
]
start_loop_sound (changed s ∷ es) h = elim (Bool-cases (running s)) [
  | inl e ↦ decided (changed s) es (running_sound s e)
  | inr e ↦ elim (Bool-cases (broken s)) [
    | inl b ↦ absurd (ground arith)
    | inr b ↦ delayed (changed s) es (Undecided-changed s e b) (start_loop_sound es (ground arith))
  ]
]

start_loop-append :
    (quiet : List StartEvent) (e : StartEvent) (es : List StartEvent)
    → All Undecided quiet
    → Running e
    → start_loop (quiet ++ e ∷ es) ≡ started
unfolding start_loop
start_loop-append [] (changed s) es u r = rw (ap running r) refl
start_loop-append [] (deadline s) es u r = rw (ap running r) refl
start_loop-append (changed s ∷ quiet) e es u r =
    rw (not_running s u.0.0) (rw (not_broken s u.0.1 u.0.2) (start_loop-append quiet e es u.1 r))
start_loop-append (deadline s ∷ quiet) e es u r = absurd u.0

-- `Start` succeeds exactly when the first event that decides finds the machine running: before it the
-- machine was neither running nor in error nor stopped, and the deadline had not passed.
pub start_loop_iff : (es : List StartEvent) → (start_loop es ≡ started) ↔ DecidedBy es Running
start_loop_iff es = (
  start_loop_sound es,
  λ d. ap start_loop d.order ∙ start_loop-append d.quiet d.decider d.later d.undecided d.decides,
)

-- Once the deadline is among the events, `Start` has returned.
pub start_loop_returns :
    (front : List StartEvent) (s : VmState) (es : List StartEvent)
    → start_loop (front ++ deadline s ∷ es) ≢ starting_on
unfolding start_loop
start_loop_returns [] s es = ground arith
start_loop_returns (deadline t ∷ front) s es = ground arith
start_loop_returns (changed t ∷ front) s es = ground (arith, start_loop_returns front s es)
