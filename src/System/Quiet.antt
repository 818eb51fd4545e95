-- ===== src/System/Quiet.antt =====
-- Triples for runs in which no call fails by a fault: from files with `P`, a run that ends well
-- leaves files with `Q`, and one with an error files with `E`; it is not stopped.
pub mod Calls
use mathlib.Core.Path.{subst}
use ossein_kernel.Base.{List, [], arith, refl, sym, ℕ, ◌∷◌, ◌≡◌}
use ossein_kernel.System.{
  Error, Fault, M, Result, System, and_then, call, catch, err, handle, ok, pure, stopped, throw,
  ◌>>=◌, ◌>>◌,
}
use ossein_kernel.System.Triples.{Files}

abbrev pub Ends :
    {A : Type 0} → (A → Files → Type 0) → (Files → Type 0) → Result A → System → Type 0
Ends Q E (ok a) s = (s.faults ≡ []) × Q a s.files
Ends Q E (err e) s = (s.faults ≡ []) × E s.files
Ends Q E stopped s = ⊥

pub record Quiet {A : Type 0} (P : Files → Type 0) (m : M A) (Q : A → Files → Type 0)
    (E : Files → Type 0) : Type 0 where
  pub run : (s : System) → s.faults ≡ [] → P s.files → Ends Q E (m s).0 (m s).1

Ends-and_then :
    {A B : Type 0} (f : A → M B) (Q : A → Files → Type 0) (R : B → Files → Type 0)
    (E : Files → Type 0)
    → ((a : A) → Quiet (Q a) (f a) R E)
    → (r : Result A) (t : System) → Ends Q E r t
    → Ends R E (and_then f r t).0 (and_then f r t).1
Ends-and_then f Q R E k (ok a) t p = (k a).run t p.0 p.1
Ends-and_then f Q R E k (err e) t p = p
Ends-and_then f Q R E k stopped t p = p

pub Quiet-bind :
    {A B : Type 0} {P : Files → Type 0} {m : M A} {Q : A → Files → Type 0} {R : B → Files → Type 0}
    {E : Files → Type 0} (f : A → M B)
    → Quiet P m Q E
    → ((a : A) → Quiet (Q a) (f a) R E)
    → Quiet P (m >>= f) R E
Quiet-bind {m = m} {Q = Q} {R = R} {E = E} f t k = record {
  run = λ s e p. Ends-and_then f Q R E k (m s).0 (m s).1 (t.run s e p);
}

infixl 5 ◌after◌
pub ◌after◌ :
    {B : Type 0} {P Q : Files → Type 0} {m : M (Unit {0})} {k : M B} {R : B → Files → Type 0}
    {E : Files → Type 0}
    → Quiet P m (λ _. Q) E
    → Quiet Q k R E
    → Quiet P (m >> k) R E
◌after◌ {k = k} t u = Quiet-bind (λ _. k) t (λ _. u)

Ends-handle :
    {A : Type 0} (f : Error → M A) (Q : A → Files → Type 0) (E G : Files → Type 0)
    → ((e : Error) → Quiet E (f e) Q G)
    → (r : Result A) (t : System) → Ends Q E r t
    → Ends Q G (handle f r t).0 (handle f r t).1
Ends-handle f Q E G k (ok a) t p = p
Ends-handle f Q E G k (err e) t p = (k e).run t p.0 p.1
Ends-handle f Q E G k stopped t p = p

pub Quiet-catch :
    {A : Type 0} {P : Files → Type 0} {m : M A} {Q : A → Files → Type 0} {E G : Files → Type 0}
    (f : Error → M A)
    → Quiet P m Q E
    → ((e : Error) → Quiet E (f e) Q G)
    → Quiet P (catch m f) Q G
Quiet-catch {m = m} {Q = Q} {E = E} {G = G} f t k = record {
  run = λ s e p. Ends-handle f Q E G k (m s).0 (m s).1 (t.run s e p);
}

pub Quiet-pure :
    {A : Type 0} {Q : A → Files → Type 0} {E : Files → Type 0} (a : A) → Quiet (Q a) (pure a) Q E
Quiet-pure a = record { run = λ s e p. (e, p) }

pub Quiet-throw :
    {A : Type 0} {Q : A → Files → Type 0} {E : Files → Type 0} (e : Error) → Quiet E (throw e) Q E
Quiet-throw e = record { run = λ s f p. (f, p) }

pub Quiet-from :
    {A : Type 0} {P P' : Files → Type 0} {m : M A} {Q : A → Files → Type 0} {E : Files → Type 0}
    → ((fs : Files) → P' fs → P fs)
    → Quiet P m Q E
    → Quiet P' m Q E
Quiet-from f t = record { run = λ s e p. t.run s e (f s.files p) }

Ends-to :
    {A : Type 0} (Q R : A → Files → Type 0) (E : Files → Type 0)
    → ((a : A) (fs : Files) → Q a fs → R a fs)
    → (r : Result A) (t : System) → Ends Q E r t
    → Ends R E r t
Ends-to Q R E f (ok a) t p = (p.0, f a t.files p.1)
Ends-to Q R E f (err e) t p = p
Ends-to Q R E f stopped t p = p

pub Quiet-to :
    {A : Type 0} {P : Files → Type 0} {m : M A} {Q R : A → Files → Type 0} {E : Files → Type 0}
    → ((a : A) (fs : Files) → Q a fs → R a fs)
    → Quiet P m Q E
    → Quiet P m R E
Quiet-to {m = m} {Q = Q} {R = R} {E = E} f t = record {
  run = λ s e p. Ends-to Q R E f (m s).0 (m s).1 (t.run s e p);
}

quiet_call :
    {A : Type 0} (good : M A) (part : ℕ → System → System) (e : Error) (faults : List Fault)
    (s : System)
    → faults ≡ []
    → call good part e faults s ≡ good s
quiet_call good part e [] s h = refl
quiet_call good part e (f ∷ fs) s h = absurd (ground arith)

-- A call does what it does if it works.
pub Quiet-call :
    {A : Type 0} {P : Files → Type 0} {Q : A → Files → Type 0} {E : Files → Type 0} (good : M A)
    (part : ℕ → System → System) (e : Error)
    → Quiet P good Q E
    → Quiet P (λ s. call good part e s.faults s) Q E
Quiet-call {Q = Q} {E = E} good part e t = record {
  run = λ s h p.
      subst (λ (r : Result _ × System). Ends Q E r.0 r.1)
        (sym (quiet_call good part e s.faults s h)) (t.run s h p);
}
