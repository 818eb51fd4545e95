-- ===== src/System/Triples.antt =====
-- Triples for programs over the file system: from files with `P`, a run that ends well leaves files
-- with `Q`, and one that fails or is stopped leaves files with `E`.
pub mod Calls
pub mod Installed
use ossein_kernel.Base.{
  Bytes, List, Option, [], arith, inl, inr, none, refl, some, sym, ℕ, ◌∙◌, ◌∷◌, ◌≡◌, ◌⊎◌,
}
use ossein_kernel.System.{
  Error, Fault, M, Node, Result, System, and_then, call, catch, close_error, close_file,
  contents_or, err, fails, found, handle, mkdir_all, mkdir_error, ok, pure, read_file, regular,
  stat, stat_error, stopped, stops, symlink, throw, untouched, works, ◌>>=◌, ◌>>◌,
}

abbrev pub Files : Type 0
Files = Bytes → Option Node

abbrev pub After :
    {A : Type 0} → (A → Files → Type 0) → (Files → Type 0) → Result A → System → Type 0
After Q E (ok a) s = Q a s.files
After Q E (err e) s = E s.files
After Q E stopped s = E s.files

pub record Triple {A : Type 0} (P : Files → Type 0) (m : M A) (Q : A → Files → Type 0)
    (E : Files → Type 0) : Type 0 where
  pub run : (s : System) → P s.files → After Q E (m s).0 (m s).1

After-and_then :
    {A B : Type 0} (f : A → M B) (Q : A → Files → Type 0) (R : B → Files → Type 0)
    (E : Files → Type 0)
    → ((a : A) → Triple (Q a) (f a) R E)
    → (r : Result A) (t : System) → After Q E r t
    → After R E (and_then f r t).0 (and_then f r t).1
After-and_then f Q R E k (ok a) t p = (k a).run t p
After-and_then f Q R E k (err e) t p = p
After-and_then f Q R E k stopped t p = p

pub Triple-bind :
    {A B : Type 0} {P : Files → Type 0} {m : M A} {Q : A → Files → Type 0} {R : B → Files → Type 0}
    {E : Files → Type 0} (f : A → M B)
    → Triple P m Q E
    → ((a : A) → Triple (Q a) (f a) R E)
    → Triple P (m >>= f) R E
Triple-bind {m = m} {Q = Q} {R = R} {E = E} f t k = record {
  run = λ s p. After-and_then f Q R E k (m s).0 (m s).1 (t.run s p);
}

infixl 5 ◌and◌
pub ◌and◌ :
    {B : Type 0} {P Q : Files → Type 0} {m : M (Unit {0})} {k : M B} {R : B → Files → Type 0}
    {E : Files → Type 0}
    → Triple P m (λ _. Q) E
    → Triple Q k R E
    → Triple P (m >> k) R E
◌and◌ {k = k} t u = Triple-bind (λ _. k) t (λ _. u)

After-handle :
    {A : Type 0} (f : Error → M A) (Q : A → Files → Type 0) (E : Files → Type 0)
    → ((e : Error) → Triple E (f e) Q E)
    → (r : Result A) (t : System) → After Q E r t
    → After Q E (handle f r t).0 (handle f r t).1
After-handle f Q E k (ok a) t p = p
After-handle f Q E k (err e) t p = (k e).run t p
After-handle f Q E k stopped t p = p

pub Triple-catch :
    {A : Type 0} {P : Files → Type 0} {m : M A} {Q : A → Files → Type 0} {E : Files → Type 0}
    (f : Error → M A)
    → Triple P m Q E
    → ((e : Error) → Triple E (f e) Q E)
    → Triple P (catch m f) Q E
Triple-catch {m = m} {Q = Q} {E = E} f t k = record {
  run = λ s p. After-handle f Q E k (m s).0 (m s).1 (t.run s p);
}

pub Triple-pure :
    {A : Type 0} {Q : A → Files → Type 0} {E : Files → Type 0} (a : A) → Triple (Q a) (pure a) Q E
Triple-pure a = record { run = λ s p. p }

pub Triple-throw :
    {A : Type 0} {Q : A → Files → Type 0} {E : Files → Type 0} (e : Error) → Triple E (throw e) Q E
Triple-throw e = record { run = λ s p. p }

-- What holds before may be weakened, and what holds after an error.
pub Triple-from :
    {A : Type 0} {P P' : Files → Type 0} {m : M A} {Q : A → Files → Type 0} {E : Files → Type 0}
    → ((fs : Files) → P' fs → P fs)
    → Triple P m Q E
    → Triple P' m Q E
Triple-from f t = record { run = λ s p. t.run s (f s.files p) }

After-to :
    {A : Type 0} (Q R : A → Files → Type 0) (E : Files → Type 0)
    → ((a : A) (fs : Files) → Q a fs → R a fs)
    → (r : Result A) (t : System) → After Q E r t
    → After R E r t
After-to Q R E f (ok a) t p = f a t.files p
After-to Q R E f (err e) t p = p
After-to Q R E f stopped t p = p

-- What holds after a run that ends well may be weakened.
pub Triple-to :
    {A : Type 0} {P : Files → Type 0} {m : M A} {Q R : A → Files → Type 0} {E : Files → Type 0}
    → ((a : A) (fs : Files) → Q a fs → R a fs)
    → Triple P m Q E
    → Triple P m R E
Triple-to {m = m} {Q = Q} {R = R} {E = E} f t = record {
  run = λ s p. After-to Q R E f (m s).0 (m s).1 (t.run s p);
}

-- A fact that follows from what holds before may be used.
pub Triple-given :
    {A : Type 0} {P : Files → Type 0} {m : M A} {Q : A → Files → Type 0} {E : Files → Type 0}
    {F : Type 0}
    → ((fs : Files) → P fs → F)
    → (F → Triple P m Q E)
    → Triple P m Q E
Triple-given f t = record { run = λ s p. (t (f s.files p)).run s p }

pub After-call :
    {A : Type 0} (P : Files → Type 0) (Q : A → Files → Type 0) (E : Files → Type 0) (good : M A)
    (part : ℕ → System → System) (e : Error)
    → ((s : System) → P s.files → After Q E (good s).0 (good s).1)
    → ((n : ℕ) (s : System) → P s.files → E (part n s).files)
    → (faults : List Fault) (s : System) → P s.files
    → After Q E (call good part e faults s).0 (call good part e faults s).1
After-call P Q E good part e g k [] s p = g s p
After-call P Q E good part e g k (works ∷ rest) s p = g (record s { faults = rest }) p
After-call P Q E good part e g k (fails n ∷ rest) s p = k n (record s { faults = rest }) p
After-call P Q E good part e g k (stops n ∷ rest) s p = k n (record s { faults = rest }) p

module _ {P E : Files → Type 0} (kept : (fs : Files) → P fs → E fs) where
  pub mkdir_all-Triple : (path : Bytes) → Triple P (mkdir_all path) (λ _. P) E
  unfolding mkdir_all
  mkdir_all-Triple path = record {
    run = λ s p.
        After-call P (λ _. P) E (pure tt) untouched mkdir_error (λ t q. q) (λ n t q. kept t.files q)
          s.faults s p;
  }

  pub close_file-Triple : (path : Bytes) → Triple P (close_file path) (λ _. P) E
  unfolding close_file
  close_file-Triple path = record {
    run = λ s p.
        After-call P (λ _. P) E (pure tt) untouched close_error (λ t q. q) (λ n t q. kept t.files q)
          s.faults s p;
  }

-- What a file holds.
pub record Holds (text : Bytes) (o : Option Node) : Type 0 where
  pub mode : ℕ
  pub is_file : o ≡ some (regular text mode)

pub same_text :
    (s text : Bytes) (mode : ℕ) (o : Option Node)
    → Holds s o
    → o ≡ some (regular text mode)
    → s ≡ text
same_text s text mode o h e = let f = sym h.is_file ∙ e in grind arith

-- What `stat` finds: what is there, or nothing.
abbrev pub Found : Bytes → Option Node → Files → Type 0
Found path o fs = (o ≡ none) ⊎ (o ≡ fs path)

module _ {P E : Files → Type 0} (kept : (fs : Files) → P fs → E fs) where
  abbrev Seen : Bytes → Option Node → Files → Type 0
  Seen path o fs = P fs × Found path o fs

  stat-call :
      (path : Bytes) (faults : List Fault) (s : System)
      → P s.files
      → (let r = call (λ t. (ok (t.files path), t)) untouched stat_error faults s in
          After (Seen path) E (found r.0) r.1)
  stat-call path [] s p = (p, inr refl)
  stat-call path (works ∷ rest) s p = (p, inr refl)
  stat-call path (fails n ∷ rest) s p = (p, inl refl)
  stat-call path (stops n ∷ rest) s p = kept s.files p

  pub stat-Triple : (path : Bytes) → Triple P (stat path) (λ o fs. P fs × Found path o fs) E
  unfolding stat
  stat-Triple path = record { run = λ s p. stat-call path s.faults s p }

  abbrev Read : Bytes → Bytes → Files → Type 0
  Read path text fs = P fs × Holds text (fs path)

  contents-After :
      (e : Error) (path : Bytes) (o : Option Node) (t : System)
      → t.files path ≡ o
      → P t.files
      → After (Read path) E (contents_or e o) t
  contents-After e path none t f p = kept t.files p
  contents-After e path (some (regular text mode)) t f p = (p, record { mode = mode; is_file = f })
  contents-After e path (some (symlink link)) t f p = kept t.files p

  pub read_file-Triple :
      (e : Error) (path : Bytes)
      → Triple P (read_file e path) (λ text fs. P fs × Holds text (fs path)) E
  unfolding read_file
  read_file-Triple e path = record {
    run = λ s p.
        After-call P (Read path) E (λ t. (contents_or e (t.files path), t)) untouched e
          (λ t q. contents-After e path (t.files path) t refl q) (λ n t q. kept t.files q) s.faults
          s p;
  }
