-- ===== src/System/Failing.antt =====
-- Steps that never end well, and what follows them.
use ossein_kernel.Base.{Bytes, arith, refl, ◌∙◌, ◌≡◌, ◌≢◌}
use ossein_kernel.System.{M, Result, System, and_then, err, ok, stopped, ◌>>=◌}
use ossein_kernel.System.Frame.{Frame}

failing-files :
    {A B : Type 0} (p : Bytes) (f : A → M B) (r : Result A) (t : System)
    → ((a : A) → r ≢ ok a)
    → (and_then f r t).1.files p ≡ t.files p
failing-files p f (ok a) t h = absurd (h a refl)
failing-files p f (err e) t h = refl
failing-files p f stopped t h = refl

-- `m` never ends well.
pub record Fails {A : Type 0} (m : M A) : Type 0 where
  pub never : (s : System) (a : A) → (m s).0 ≢ ok a

-- What follows a step that never ends well is not done.
pub Frame-failing :
    {A B : Type 0} {p : Bytes} {m : M A} (f : A → M B) → Frame p m → Fails m → Frame p (m >>= f)
Frame-failing {p = p} {m = m} f k h = record {
  frame = λ s. failing-files p f (m s).0 (m s).1 (h.never s) ∙ k.frame s;
}

never-and_then :
    {A B : Type 0} (f : A → M B)
    → ((a : A) → Fails (f a))
    → (r : Result A) (t : System) (b : B) → (and_then f r t).0 ≢ ok b
never-and_then f h (ok a) t b = (h a).never t b
never-and_then f h (err e) t b = ground arith
never-and_then f h stopped t b = ground arith

pub Fails-bind : {A B : Type 0} (m : M A) (f : A → M B) → ((a : A) → Fails (f a)) → Fails (m >>= f)
Fails-bind m f h = record { never = λ s. never-and_then f h (m s).0 (m s).1 }
