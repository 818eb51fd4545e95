-- ===== src/System/Links.antt =====
-- Which calls put no link at a path.
use ossein_kernel.Base.{
  Bool, Bool-cases, Bytes, List, Option, [], equal, equal_iff, false, inl, inr, none, refl, some,
  suc, take, true, zero, ℕ, ◌∷◌, ◌≡◌,
}
use ossein_kernel.System.{
  Error, Fault, M, Node, Result, System, and_then, append_file, append_part, appended, appending,
  call, catch, create_error, err, fails, handle, ok, open_empty, opened, regular, remove,
  remove_error, removed, maybe_removed, stopped, stops, symlink, untouched, update, works,
  write_error, ◌>>=◌, ◌>>◌,
}
use ossein_kernel.System.Frame.{Frame}

abbrev pub is_link : Option Node → Bool
is_link none = false
is_link (some (regular s mode)) = false
is_link (some (symlink link)) = true

-- If no link stands at `p`, `m` puts none there, however it ends.
pub record NoLink {A : Type 0} (p : Bytes) (m : M A) : Type 0 where
  pub unlinked : (s : System) → is_link (s.files p) ≡ false → is_link ((m s).1.files p) ≡ false

-- What leaves the file alone puts no link there.
pub NoLink-of_Frame : {A : Type 0} {p : Bytes} {m : M A} → Frame p m → NoLink p m
NoLink-of_Frame f = record { unlinked = λ s h. rw (f.frame s) h }

NoLink-and_then :
    {A B : Type 0} (p : Bytes) (f : A → M B)
    → ((a : A) → NoLink p (f a))
    → (r : Result A) (s : System) → is_link (s.files p) ≡ false
    → is_link ((and_then f r s).1.files p) ≡ false
NoLink-and_then p f k (ok a) s h = (k a).unlinked s h
NoLink-and_then p f k (err e) s h = h
NoLink-and_then p f k stopped s h = h

pub NoLink-bind :
    {A B : Type 0} {p : Bytes} {m : M A} (f : A → M B)
    → NoLink p m
    → ((a : A) → NoLink p (f a))
    → NoLink p (m >>= f)
NoLink-bind {p = p} {m = m} f k kf = record {
  unlinked = λ s h. NoLink-and_then p f kf (m s).0 (m s).1 (k.unlinked s h);
}

infixl 5 ◌unlinked_then◌
pub ◌unlinked_then◌ :
    {B : Type 0} {p : Bytes} {m : M (Unit {0})} {k : M B}
    → NoLink p m
    → NoLink p k
    → NoLink p (m >> k)
◌unlinked_then◌ {k = k} km kk = NoLink-bind (λ _. k) km (λ _. kk)

NoLink-handle :
    {A : Type 0} (p : Bytes) (f : Error → M A)
    → ((e : Error) → NoLink p (f e))
    → (r : Result A) (s : System) → is_link (s.files p) ≡ false
    → is_link ((handle f r s).1.files p) ≡ false
NoLink-handle p f k (ok a) s h = h
NoLink-handle p f k (err e) s h = (k e).unlinked s h
NoLink-handle p f k stopped s h = h

pub NoLink-catch :
    {A : Type 0} {p : Bytes} {m : M A} (f : Error → M A)
    → NoLink p m
    → ((e : Error) → NoLink p (f e))
    → NoLink p (catch m f)
NoLink-catch {p = p} {m = m} f k kf = record {
  unlinked = λ s h. NoLink-handle p f kf (m s).0 (m s).1 (k.unlinked s h);
}

NoLink-call :
    {A : Type 0} (p : Bytes) (good : M A) (part : ℕ → System → System) (e : Error)
    → NoLink p good
    → ((n : ℕ) (s : System) → is_link (s.files p) ≡ false → is_link ((part n s).files p) ≡ false)
    → (fs : List Fault) (s : System) → is_link (s.files p) ≡ false
    → is_link ((call good part e fs s).1.files p) ≡ false
NoLink-call p good part e g k [] s h = g.unlinked s h
NoLink-call p good part e g k (works ∷ rest) s h = g.unlinked (record s { faults = rest }) h
NoLink-call p good part e g k (fails n ∷ rest) s h = k n (record s { faults = rest }) h
NoLink-call p good part e g k (stops n ∷ rest) s h = k n (record s { faults = rest }) h

unlinked-update :
    (files : Bytes → Option Node) (path p : Bytes) (new : Option Node)
    → is_link new ≡ false
    → is_link (files p) ≡ false
    → is_link (update files path new p) ≡ false
unfolding update
unlinked-update files path p new n h = elim (Bool-cases (equal path p)) [
  | inl e ↦ rw e n
  | inr e ↦ rw e h
]

opened-unlinked :
    (path p : Bytes) (mode : ℕ) (o : Option Node) (t : System)
    → is_link (t.files p) ≡ false
    → is_link ((opened path mode o t).1.files p) ≡ false
opened-unlinked path p mode none t h =
    unlinked-update t.files path p (some (regular [] mode)) refl h
opened-unlinked path p mode (some (regular text old)) t h =
    unlinked-update t.files path p (some (regular [] old)) refl h
opened-unlinked path p mode (some (symlink link)) t h = h

pub open_empty-NoLink : (path p : Bytes) (mode : ℕ) → NoLink p (open_empty path mode)
unfolding open_empty
open_empty-NoLink path p mode = record {
  unlinked = λ s h.
      NoLink-call p (λ t. opened path mode (t.files path) t) untouched create_error
        (record { unlinked = λ t. opened-unlinked path p mode (t.files path) t }) (λ n t k. k)
        s.faults s h;
}

-- An open file that is written to is as much of a link as it was.
appended-unlinked :
    (files : Bytes → Option Node) (path p more : Bytes)
    → is_link (files p) ≡ false
    → is_link (update files path (appended (files path) more) p) ≡ false
unfolding update
appended-unlinked files path p more h = elim (Bool-cases (equal path p)) [
  | inl e ↦ rw e (same_kind (files path) (rw ((equal_iff path p).0 e) h))
  | inr e ↦ rw e h
]
  where
    same_kind : (o : Option Node) → is_link o ≡ false → is_link (appended o more) ≡ false
    same_kind none k = refl
    same_kind (some (regular s mode)) k = refl
    same_kind (some (symlink link)) k = k

pub append_file-NoLink : (path more p : Bytes) → NoLink p (append_file path more)
unfolding append_file
append_file-NoLink path more p = record {
  unlinked = λ s h.
      NoLink-call p (appending path more) (append_part path more) write_error
        (record { unlinked = λ t. appended-unlinked t.files path p more })
        (λ n t. appended-unlinked t.files path p (take n more)) s.faults s h;
}

maybe_removed-unlinked :
    (path p : Bytes) (n : ℕ) (t : System)
    → is_link (t.files p) ≡ false
    → is_link ((maybe_removed path n t).files p) ≡ false
maybe_removed-unlinked path p zero t h = h
maybe_removed-unlinked path p (suc n) t h = unlinked-update t.files path p none refl h

pub remove-NoLink : (path p : Bytes) → NoLink p (remove path)
unfolding remove
remove-NoLink path p = record {
  unlinked = λ s h.
      NoLink-call p (removed path) (maybe_removed path) remove_error
        (record { unlinked = λ t. unlinked-update t.files path p none refl })
        (λ n t. maybe_removed-unlinked path p n t) s.faults s h;
}
