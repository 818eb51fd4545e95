-- ===== src/Builder/Stamp/Vouching.antt =====
-- When a stamp vouches for a key, and what keeps one from coming to vouch.
use mathlib.Core.Path.{subst}
use ossein_kernel.Base.{
  Bool, Bool-cases, Bytes, List, Option, [], arith, equal, false, inl, inr, none, refl, some, true,
  ℕ, ◌&&◌, ◌∙◌, ◌∷◌, ◌≡◌, ◌⊎◌,
}
use ossein_kernel.Strings.{trim_space}
use ossein_kernel.System.{
  Fault, M, Node, Result, System, and_then, at_or_under, call, contents_or, err, fails, handle, ok,
  pure, quiet, read_error, read_file, regular, remove_all, remove_error, removed_tree, stopped,
  stops, symlink, untouched, without_tree, works, ◌>>=◌,
}
use ossein_kernel.System.Frame.{Frame, Frame-bind, Frame-catch, Frame-pure, read_file-Frame}
use ossein_kernel.Builder.Stamp.{stamp_says}

-- The file is there and says `key`.
abbrev pub Vouches : Bytes → Option Node → Type 0
Vouches key none = ⊥
Vouches key (some (symlink link)) = ⊥
Vouches key (some (regular s mode)) = equal (trim_space s) key ≡ true

-- `m` leaves the file at `p` as it was, or removes it.
pub record Drops {A : Type 0} (p : Bytes) (m : M A) : Type 0 where
  pub drops : (s : System) → ((m s).1.files p ≡ s.files p) ⊎ ((m s).1.files p ≡ none)

pub Drops-of_Frame : {A : Type 0} {p : Bytes} {m : M A} → Frame p m → Drops p m
Drops-of_Frame f = record { drops = λ s. inl (f.frame s) }

abbrev Dropped : Option Node → Option Node → Type 0
Dropped was now = (now ≡ was) ⊎ (now ≡ none)

Dropped-trans : (a b c : Option Node) → Dropped a b → Dropped b c → Dropped a c
Dropped-trans a b c (inl e) (inl f) = inl (f ∙ e)
Dropped-trans a b c (inr e) (inl f) = inr (f ∙ e)
Dropped-trans a b c d (inr f) = inr f

and_then-Dropped :
    {A B : Type 0} (p : Bytes) (f : A → M B) (was : Option Node)
    → ((a : A) → Drops p (f a))
    → (r : Result A) (t : System) → Dropped was (t.files p)
    → Dropped was ((and_then f r t).1.files p)
and_then-Dropped p f was k (ok a) t d =
    Dropped-trans was (t.files p) ((f a t).1.files p) d ((k a).drops t)
and_then-Dropped p f was k (err e) t d = d
and_then-Dropped p f was k stopped t d = d

pub Drops-bind :
    {A B : Type 0} {p : Bytes} {m : M A} (f : A → M B)
    → Drops p m
    → ((a : A) → Drops p (f a))
    → Drops p (m >>= f)
Drops-bind {p = p} {m = m} f d k = record {
  drops = λ s. and_then-Dropped p f (s.files p) k (m s).0 (m s).1 (d.drops s);
}

without_tree-Dropped :
    (chosen : Bytes → Bool) (directory p : Bytes) (t : System)
    → Dropped (t.files p) ((without_tree chosen directory t).files p)
without_tree-Dropped chosen directory p t =
    elim (Bool-cases (at_or_under directory p && chosen p)) [
      | inl e ↦ rw e (inr refl)
      | inr e ↦ rw e (inl refl)
    ]

remove_all-call :
    (taken : ℕ → Bytes → Bool) (directory p : Bytes) (fs : List Fault) (t : System)
    → Dropped (t.files p) (
        (call
            (removed_tree directory)
            (λ n. without_tree (taken n) directory)
            remove_error
            fs
            t).1.files
          p)
remove_all-call taken directory p [] t = without_tree-Dropped (λ _. true) directory p t
remove_all-call taken directory p (works ∷ fs) t = without_tree-Dropped (λ _. true) directory p t
remove_all-call taken directory p (fails n ∷ fs) t = without_tree-Dropped (taken n) directory p t
remove_all-call taken directory p (stops n ∷ fs) t = without_tree-Dropped (taken n) directory p t

pub remove_all-Drops :
    (taken : ℕ → Bytes → Bool) (directory p : Bytes) → Drops p (remove_all taken directory)
unfolding remove_all
remove_all-Drops taken directory p = record {
  drops = λ s. remove_all-call taken directory p s.faults s;
}

-- What does not vouch still does not.
pub silent :
    (key : Bytes) (was now : Option Node) → Dropped was now → ¬ Vouches key was → ¬ Vouches key now
silent key was now (inl e) n v = n (subst (Vouches key) e v)
silent key was now (inr e) n v = subst (Vouches key) e v

abbrev says_key : Bytes → Bytes → M Bool
says_key key s = pure (equal (trim_space s) key)

abbrev read_stamp : Bytes → Option Node → System → Result Bool × System
read_stamp key o t =
    let m = and_then (says_key key) (contents_or read_error o) t in handle (λ _. pure false) m.0 m.1

read_stamp-true :
    (key : Bytes) (o : Option Node) (t : System) → (read_stamp key o t).0 ≡ ok true → Vouches key o
read_stamp-true key none t h = absurd (ground arith)
read_stamp-true key (some (symlink link)) t h = absurd (ground arith)
read_stamp-true key (some (regular s mode)) t h = ground arith

read_stamp-Vouches :
    (key : Bytes) (o : Option Node) (t : System) → Vouches key o → read_stamp key o t ≡ (ok true, t)
read_stamp-Vouches key none t v = absurd v
read_stamp-Vouches key (some (symlink link)) t v = absurd v
read_stamp-Vouches key (some (regular s mode)) t v = rw v refl

stamp-call :
    (stamp key : Bytes) (fs : List Fault) (t : System)
    → (let r = call (λ u. (contents_or read_error (u.files stamp), u)) untouched read_error fs t in
        let m = and_then (says_key key) r.0 r.1 in handle (λ _. pure false) m.0 m.1).0
      ≡ ok true
    → Vouches key (t.files stamp)
stamp-call stamp key [] t h = read_stamp-true key (t.files stamp) t h
stamp-call stamp key (works ∷ fs) t h =
    read_stamp-true key (t.files stamp) (record t { faults = fs }) h
stamp-call stamp key (fails n ∷ fs) t h = absurd (ground arith)
stamp-call stamp key (stops n ∷ fs) t h = absurd (ground arith)

-- A stamp that is found to say the key does.
pub stamp_says-Vouches :
    (stamp key : Bytes) (s : System)
    → (stamp_says stamp key s).0 ≡ ok true
    → Vouches key (s.files stamp)
unfolding stamp_says read_file
stamp_says-Vouches stamp key s h = stamp-call stamp key s.faults s h

pub stamp_says-Frame : (stamp key p : Bytes) → Frame p (stamp_says stamp key)
unfolding stamp_says
stamp_says-Frame stamp key p =
    Frame-catch (λ _. pure false)
      (Frame-bind (says_key key) (read_file-Frame read_error stamp p)
        (λ s. Frame-pure p (equal (trim_space s) key)))
      (λ _. Frame-pure p false)

-- Without a fault, a stamp that vouches is found to.
pub stamp_says-true :
    (stamp key : Bytes) (s : System)
    → Vouches key (s.files stamp)
    → stamp_says stamp key (quiet s) ≡ (ok true, quiet s)
unfolding stamp_says read_file
stamp_says-true stamp key s v = read_stamp-Vouches key (s.files stamp) (quiet s) v
