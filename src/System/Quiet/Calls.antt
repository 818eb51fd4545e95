-- ===== src/System/Quiet/Calls.antt =====
-- The calls that downloads make, when no fault comes.
use ossein_kernel.Base.{Bytes, List, Option, [], arith, none, refl, some, ℕ, ◌∷◌, ◌≡◌}
use ossein_kernel.System.{
  Error, Fault, Node, System, append_file, append_part, appended, appending, call, close_error,
  close_file, contents_or, create, create_error, file_mode, found, maybe_moved, mkdir_all,
  mkdir_error, ok, open_empty, opened, pure, read_file, regular, rename, rename_error, renamed,
  stat, stat_error, symlink, untouched, update, write_error,
}
use ossein_kernel.System.Triples.{Files, Holds}
use ossein_kernel.System.Triples.Calls.{moved_files}
use ossein_kernel.System.Quiet.{Ends, Quiet, Quiet-call}

-- No link stands there.
abbrev pub IsPlain : Option Node → Type 0
IsPlain none = Unit
IsPlain (some (regular s mode)) = Unit
IsPlain (some (symlink link)) = ⊥

stat-Ends :
    (P E : Files → Type 0) (path : Bytes) (faults : List Fault) (s : System)
    → faults ≡ []
    → s.faults ≡ []
    → P s.files
    → (let r = call (λ t. (ok (t.files path), t)) untouched stat_error faults s in
        Ends (λ o fs. P fs × (o ≡ fs path)) E (found r.0) r.1)
stat-Ends P E path [] s h e p = (e, (p, refl))
stat-Ends P E path (f ∷ fs) s h e p = absurd (ground arith)

contents-Ends :
    (P E : Files → Type 0) (x : Error) (path text : Bytes) (o : Option Node) (t : System)
    → Holds text o
    → t.faults ≡ []
    → P t.files
    → Ends (λ a fs. P fs × (a ≡ text)) E (contents_or x o) t
contents-Ends P E x path text none t h e p = let f = h.is_file in absurd (ground arith)
contents-Ends P E x path text (some (symlink link)) t h e p =
    let f = h.is_file in absurd (ground arith)
contents-Ends P E x path text (some (regular s mode)) t h e p =
    (e, (p, (let f = h.is_file in grind arith)))

any-Ends :
    (P : Files → Type 0) (x : Error) (o : Option Node) (t : System)
    → t.faults ≡ []
    → P t.files
    → Ends (λ _. P) P (contents_or x o) t
any-Ends P x none t e p = (e, p)
any-Ends P x (some (symlink link)) t e p = (e, p)
any-Ends P x (some (regular s mode)) t e p = (e, p)

module _ {P E : Files → Type 0} where
  pub mkdir_all-Quiet : (path : Bytes) → Quiet P (mkdir_all path) (λ _. P) E
  unfolding mkdir_all
  mkdir_all-Quiet path =
      Quiet-call (pure tt) untouched mkdir_error (record { run = λ s e p. (e, p) })

  pub close_file-Quiet : (path : Bytes) → Quiet P (close_file path) (λ _. P) E
  unfolding close_file
  close_file-Quiet path =
      Quiet-call (pure tt) untouched close_error (record { run = λ s e p. (e, p) })

  pub stat-Quiet : (path : Bytes) → Quiet P (stat path) (λ o fs. P fs × (o ≡ fs path)) E
  unfolding stat
  stat-Quiet path = record { run = λ s e p. stat-Ends P E path s.faults s e e p }

  pub read_file-Quiet :
      (x : Error) (path text : Bytes)
      → ((fs : Files) → P fs → Holds text (fs path))
      → Quiet P (read_file x path) (λ a fs. P fs × (a ≡ text)) E
  unfolding read_file
  read_file-Quiet x path text h =
      Quiet-call (λ t. (contents_or x (t.files path), t)) untouched x
        (record { run = λ s e p. contents-Ends P E x path text (s.files path) s (h s.files p) e p })

module _ {P : Files → Type 0} where
  -- A file that may not be there.
  pub read_any-Quiet : (x : Error) (path : Bytes) → Quiet P (read_file x path) (λ _. P) P
  unfolding read_file
  read_any-Quiet x path =
      Quiet-call (λ t. (contents_or x (t.files path), t)) untouched x
        (record { run = λ s e p. any-Ends P x (s.files path) s e p })

opened-Ends :
    (Q E : Files → Type 0) (path : Bytes) (mode : ℕ) (o : Option Node) (t : System)
    → IsPlain o
    → t.faults ≡ []
    → ((m : ℕ) → Q (update t.files path (some (regular [] m))))
    → Ends (λ _. Q) E (opened path mode o t).0 (opened path mode o t).1
opened-Ends Q E path mode none t h e q = (e, q mode)
opened-Ends Q E path mode (some (regular s old)) t h e q = (e, q old)
opened-Ends Q E path mode (some (symlink link)) t h e q = absurd h

renamed-Ends :
    (Q E : Files → Type 0) (from to : Bytes) (o : Option Node) (file : Node) (t : System)
    → o ≡ some file
    → t.faults ≡ []
    → Q (moved_files from to file t.files)
    → Ends (λ _. Q) E (renamed from to o t).0 (renamed from to o t).1
renamed-Ends Q E from to o file t h e q = rw h (e, q)

module _ {P Q E : Files → Type 0} where
  pub create-Quiet :
      (path : Bytes)
      → ((fs : Files) → P fs → IsPlain (fs path))
      → ((fs : Files) (m : ℕ) → P fs → Q (update fs path (some (regular [] m))))
      → Quiet P (create path) (λ _. Q) E
  unfolding create open_empty
  create-Quiet path plain made =
      Quiet-call (λ t. opened path file_mode (t.files path) t) untouched create_error
        (record {
          run = λ s e p.
              opened-Ends Q E path file_mode (s.files path) s (plain s.files p) e
                (λ m. made s.files m p);
        })

  pub append_file-Quiet :
      (path more : Bytes)
      → ((fs : Files) → P fs → Q (update fs path (appended (fs path) more)))
      → Quiet P (append_file path more) (λ _. Q) E
  unfolding append_file
  append_file-Quiet path more made =
      Quiet-call (appending path more) (append_part path more) write_error
        (record { run = λ s e p. (e, made s.files p) })

  pub rename-Quiet :
      (from to : Bytes)
      → ((fs : Files)
          → P fs
          → (file : Node) × (fs from ≡ some file) × Q (moved_files from to file fs))
      → Quiet P (rename from to) (λ _. Q) E
  unfolding rename
  rename-Quiet from to done =
      Quiet-call (λ t. renamed from to (t.files from) t) (maybe_moved from to) rename_error
        (record {
          run = λ s e p.
              let (file, f, q) = done s.files p in
              renamed-Ends Q E from to (s.files from) file s f e q;
        })
