-- ===== src/Vm/Refusals.antt =====
-- A chain of calls of the library vz, internal/vm/vm.go: what was built, or the first call that did not
-- work.
use mathlib.Core.Path.{subst}
use ossein_kernel.Base.{
  All, Bool-cases, List, [], ap, append_assoc, false, inl, inr, refl, sym, true, ◌++◌, ◌∙◌, ◌∷◌,
  ◌≡◌,
}
use ossein_kernel.Vm.{Built, Vz, VzCall, after_calls, built, refused, ◌>>=◌}

abbrev pub Works : Vz → VzCall → Type 0
Works works c = works c ≡ true

-- `c` is the first of the calls that does not work.
pub record FirstRefused (works : Vz) (cs : List VzCall) (c : VzCall) : Type 0 where
  pub before : List VzCall
  pub later : List VzCall
  pub order : cs ≡ before ++ c ∷ later
  pub worked : All (Works works) before
  pub fails : works c ≡ false

-- `a` was built by calls all of which worked, or the first that did not is named.
abbrev pub Builds : {A : Type 0} → Vz → List VzCall → A → Built A → Type 0
Builds works cs a (built b) = (b ≡ a) × All (Works works) cs
Builds works cs a (refused c) = FirstRefused works cs c

refused_later :
    (works : Vz) (d c : VzCall) (cs : List VzCall)
    → Works works d
    → FirstRefused works cs c
    → FirstRefused works (d ∷ cs) c
refused_later works d c cs w f = record {
  before = d ∷ f.before;
  later = f.later;
  order = ap (◌∷◌ d) f.order;
  worked = (w, f.worked);
  fails = f.fails;
}

Builds-cons :
    {A : Type 0} (works : Vz) (d : VzCall) (cs : List VzCall) (a : A) (r : Built A)
    → Works works d
    → Builds works cs a r
    → Builds works (d ∷ cs) a r
Builds-cons works d cs a (built b) w h = (h.0, (w, h.1))
Builds-cons works d cs a (refused c) w h = refused_later works d c cs w h

pub after_calls-Builds :
    {A : Type 0} (works : Vz) (cs : List VzCall) (a : A)
    → Builds works cs a (after_calls works cs a)
unfolding after_calls
after_calls-Builds works [] a = (refl, tt)
after_calls-Builds works (c ∷ cs) a = elim (Bool-cases (works c)) [
  | inl e ↦
      rw e (Builds-cons works c cs a (after_calls works cs a) e (after_calls-Builds works cs a))
  | inr e ↦ rw e (record { before = []; later = cs; order = refl; worked = tt; fails = e })
]

refused_in :
    (works : Vz) (c : VzCall) (cs ds : List VzCall)
    → FirstRefused works cs c
    → FirstRefused works (cs ++ ds) c
refused_in works c cs ds f = record {
  before = f.before;
  later = f.later ++ ds;
  order = ap (λ (l : List VzCall). l ++ ds) f.order ∙ append_assoc f.before (c ∷ f.later) ds;
  worked = f.worked;
  fails = f.fails;
}

Builds-after :
    {A : Type 0} (works : Vz) (cs ds : List VzCall) (a : A) (r : Built A)
    → All (Works works) cs
    → Builds works ds a r
    → Builds works (cs ++ ds) a r
Builds-after works [] ds a r w h = h
Builds-after works (c ∷ cs) ds a r w h =
    Builds-cons works c (cs ++ ds) a r w.0 (Builds-after works cs ds a r w.1 h)

pub Builds-bind :
    {A B : Type 0} (works : Vz) (cs ds : List VzCall) (a : A) (b : B) (r : Built A)
    (f : A → Built B)
    → Builds works cs a r
    → Builds works ds b (f a)
    → Builds works (cs ++ ds) b (r >>= f)
Builds-bind works cs ds a b (built x) f p q =
    Builds-after works cs ds b (f x) p.1 (subst (λ y. Builds works ds b (f y)) (sym p.0) q)
Builds-bind works cs ds a b (refused c) f p q = refused_in works c cs ds p
