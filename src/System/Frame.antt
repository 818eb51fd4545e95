-- ===== src/System/Frame.antt =====
-- Which files a call leaves as they were, whatever fails.
use ossein_kernel.Base.{
  Bool, Bool-cases, Bytes, List, Option, [], equal, equal_iff, equal_refl, false, inl, inr, none,
  refl, some, suc, take, zero, ℕ, ◌∙◌, ◌∷◌, ◌≡◌, ◌≢◌,
}
use ossein_kernel.System.{
  Error, Fault, M, Node, Result, System, and_then, append_file, append_part, appended, appending,
  at_or_under, call, catch, chmod, chmod_error, close_error, close_file, create, create_error, err,
  fails, file_mode, handle, linked, make_symlink, maybe_linked, maybe_moved, maybe_removed,
  mkdir_all, mkdir_error, ok, open_empty, opened, pure, read_file, regular, remoded, remove,
  remove_all, remove_error, removed, removed_tree, rename, rename_error, renamed, stat, stat_error,
  stopped, stops, symlink, symlink_error, throw, untouched, update, with_mode, without_tree, works,
  write_error, ◌>>=◌, ◌>>◌,
}

-- `m` leaves the file at `p` as it was, however it ends.
pub record Frame {A : Type 0} (p : Bytes) (m : M A) : Type 0 where
  pub frame : (s : System) → (m s).1.files p ≡ s.files p

Frame-and_then :
    {A B : Type 0} (p : Bytes) (f : A → M B)
    → ((a : A) → Frame p (f a))
    → (r : Result A) (s : System) → (and_then f r s).1.files p ≡ s.files p
Frame-and_then p f k (ok a) s = (k a).frame s
Frame-and_then p f k (err e) s = refl
Frame-and_then p f k stopped s = refl

pub Frame-bind :
    {A B : Type 0} {p : Bytes} {m : M A} (f : A → M B)
    → Frame p m
    → ((a : A) → Frame p (f a))
    → Frame p (m >>= f)
Frame-bind {p = p} {m = m} f k kf = record {
  frame = λ s. Frame-and_then p f kf (m s).0 (m s).1 ∙ k.frame s;
}

infixl 5 ◌then◌
pub ◌then◌ :
    {B : Type 0} {p : Bytes} {m : M (Unit {0})} {k : M B} → Frame p m → Frame p k → Frame p (m >> k)
◌then◌ {k = k} km kk = Frame-bind (λ _. k) km (λ _. kk)

pub Frame-pure : {A : Type 0} (p : Bytes) (a : A) → Frame p (pure a)
Frame-pure p a = record { frame = λ s. refl }

pub Frame-throw : {A : Type 0} (p : Bytes) (e : Error) → Frame {A = A} p (throw e)
Frame-throw p e = record { frame = λ s. refl }

handle-Frame :
    {A : Type 0} (p : Bytes) (f : Error → M A)
    → ((e : Error) → Frame p (f e))
    → (r : Result A) (s : System) → (handle f r s).1.files p ≡ s.files p
handle-Frame p f k (ok a) s = refl
handle-Frame p f k (err e) s = (k e).frame s
handle-Frame p f k stopped s = refl

pub Frame-catch :
    {A : Type 0} {p : Bytes} {m : M A} (f : Error → M A)
    → Frame p m
    → ((e : Error) → Frame p (f e))
    → Frame p (catch m f)
Frame-catch {p = p} {m = m} f k kf = record {
  frame = λ s. handle-Frame p f kf (m s).0 (m s).1 ∙ k.frame s;
}

pub call-Frame :
    {A : Type 0} (p : Bytes) (good : M A) (part : ℕ → System → System) (e : Error)
    → Frame p good
    → ((n : ℕ) (s : System) → (part n s).files p ≡ s.files p)
    → (fs : List Fault) (s : System) → (call good part e fs s).1.files p ≡ s.files p
call-Frame p good part e g k [] s = g.frame s
call-Frame p good part e g k (works ∷ rest) s = g.frame (record s { faults = rest })
call-Frame p good part e g k (fails n ∷ rest) s = k n (record s { faults = rest })
call-Frame p good part e g k (stops n ∷ rest) s = k n (record s { faults = rest })

pub update-other :
    (files : Bytes → Option Node) (path p : Bytes) (new : Option Node)
    → path ≢ p
    → update files path new p ≡ files p
unfolding update
update-other files path p new h = elim (Bool-cases (equal path p)) [
  | inl e ↦ absurd (h ((equal_iff path p).0 e))
  | inr e ↦ rw e refl
]

pub update-same :
    (files : Bytes → Option Node) (path : Bytes) (new : Option Node)
    → update files path new path ≡ new
unfolding update
update-same files path new = rw (equal_refl path) refl

opened-files :
    (path p : Bytes) (mode : ℕ) (o : Option Node) (t : System)
    → path ≢ p
    → (opened path mode o t).1.files p ≡ t.files p
opened-files path p mode none t h = update-other t.files path p (some (regular [] mode)) h
opened-files path p mode (some (regular text old)) t h =
    update-other t.files path p (some (regular [] old)) h
opened-files path p mode (some (symlink link)) t h = refl

pub open_empty-Frame : (path p : Bytes) (mode : ℕ) → path ≢ p → Frame p (open_empty path mode)
unfolding open_empty
open_empty-Frame path p mode h = record {
  frame = λ s.
      call-Frame p (λ t. opened path mode (t.files path) t) untouched create_error
        (record { frame = λ t. opened-files path p mode (t.files path) t h }) (λ n t. refl) s.faults
        s;
}

pub create-Frame : (path p : Bytes) → path ≢ p → Frame p (create path)
unfolding create
create-Frame path p h = open_empty-Frame path p file_mode h

pub append_file-Frame : (path more p : Bytes) → path ≢ p → Frame p (append_file path more)
unfolding append_file
append_file-Frame path more p h = record {
  frame = λ s.
      call-Frame p (appending path more) (append_part path more) write_error
        (record { frame = λ t. update-other t.files path p (appended (t.files path) more) h })
        (λ n t. update-other t.files path p (appended (t.files path) (take n more)) h) s.faults s;
}

pub close_file-Frame : (path p : Bytes) → Frame p (close_file path)
unfolding close_file
close_file-Frame path p = record {
  frame =
      λ s. call-Frame p (pure tt) untouched close_error (Frame-pure p tt) (λ n t. refl) s.faults s;
}

pub mkdir_all-Frame : (path p : Bytes) → Frame p (mkdir_all path)
unfolding mkdir_all
mkdir_all-Frame path p = record {
  frame =
      λ s. call-Frame p (pure tt) untouched mkdir_error (Frame-pure p tt) (λ n t. refl) s.faults s;
}

pub read_file-Frame : (e : Error) (path p : Bytes) → Frame p (read_file e path)
unfolding read_file
read_file-Frame e path p = record {
  frame = λ s. call-Frame p _ untouched e (record { frame = λ t. refl }) (λ n t. refl) s.faults s;
}

pub stat-Frame : (path p : Bytes) → Frame p (stat path)
unfolding stat
stat-Frame path p = record {
  frame = λ s.
      call-Frame p (λ t. (ok (t.files path), t)) untouched stat_error (record { frame = λ t. refl })
        (λ n t. refl) s.faults s;
}

renamed-files :
    (from to p : Bytes) (o : Option Node) (s : System)
    → from ≢ p
    → to ≢ p
    → (renamed from to o s).1.files p ≡ s.files p
renamed-files from to p none s hf ht = refl
renamed-files from to p (some new) s hf ht =
    update-other (update s.files to (some new)) from p none hf
    ∙ update-other s.files to p (some new) ht

maybe_moved-files :
    (from to p : Bytes) (n : ℕ) (s : System)
    → from ≢ p
    → to ≢ p
    → (maybe_moved from to n s).files p ≡ s.files p
maybe_moved-files from to p zero s hf ht = refl
maybe_moved-files from to p (suc n) s hf ht = renamed-files from to p (s.files from) s hf ht

pub rename-Frame : (from to p : Bytes) → from ≢ p → to ≢ p → Frame p (rename from to)
unfolding rename
rename-Frame from to p hf ht = record {
  frame = λ s.
      call-Frame p (λ t. renamed from to (t.files from) t) (maybe_moved from to) rename_error
        (record { frame = λ t. renamed-files from to p (t.files from) t hf ht })
        (λ n t. maybe_moved-files from to p n t hf ht) s.faults s;
}

maybe_removed-files :
    (path p : Bytes) (n : ℕ) (t : System) → path ≢ p → (maybe_removed path n t).files p ≡ t.files p
maybe_removed-files path p zero t h = refl
maybe_removed-files path p (suc n) t h = update-other t.files path p none h

pub remove-Frame : (path p : Bytes) → path ≢ p → Frame p (remove path)
unfolding remove
remove-Frame path p h = record {
  frame = λ s.
      call-Frame p (removed path) (maybe_removed path) remove_error
        (record { frame = λ t. update-other t.files path p none h })
        (λ n t. maybe_removed-files path p n t h) s.faults s;
}

linked-files :
    (link path p : Bytes) (o : Option Node) (t : System)
    → path ≢ p
    → (linked link path o t).1.files p ≡ t.files p
linked-files link path p none t h = update-other t.files path p (some (symlink link)) h
linked-files link path p (some node) t h = refl

maybe_linked-files :
    (link path p : Bytes) (n : ℕ) (t : System)
    → path ≢ p
    → (maybe_linked link path n t).files p ≡ t.files p
maybe_linked-files link path p zero t h = refl
maybe_linked-files link path p (suc n) t h = linked-files link path p (t.files path) t h

pub make_symlink-Frame : (link path p : Bytes) → path ≢ p → Frame p (make_symlink link path)
unfolding make_symlink
make_symlink-Frame link path p h = record {
  frame = λ s.
      call-Frame p (λ t. linked link path (t.files path) t) (maybe_linked link path) symlink_error
        (record { frame = λ t. linked-files link path p (t.files path) t h })
        (λ n t. maybe_linked-files link path p n t h) s.faults s;
}

pub chmod-Frame : (path p : Bytes) (mode : ℕ) → path ≢ p → Frame p (chmod path mode)
unfolding chmod
chmod-Frame path p mode h = record {
  frame = λ s.
      call-Frame p (remoded path mode) untouched chmod_error
        (record { frame = λ t. update-other t.files path p (with_mode mode (t.files path)) h })
        (λ n t. refl) s.faults s;
}

pub remove_all-Frame :
    (taken : ℕ → Bytes → Bool) (directory p : Bytes)
    → at_or_under directory p ≡ false
    → Frame p (remove_all taken directory)
unfolding remove_all
remove_all-Frame taken directory p h = record {
  frame = λ s.
      call-Frame p (removed_tree directory) (λ n. without_tree (taken n) directory) remove_error
        (record { frame = λ t. rw h refl }) (λ n t. rw h refl) s.faults s;
}
