-- ===== src/System/Triples/Calls.antt =====
-- Triples for the calls that change files.
use ossein_kernel.Base.{Bytes, Option, [], none, refl, some, suc, take, zero, ℕ, ◌≡◌}
use ossein_kernel.System.{
  Node, Result, System, append_file, append_part, appended, appending, create_error, err,
  maybe_moved, ok, open_empty, opened, regular, rename, rename_error, renamed, stopped, symlink,
  untouched, update, write_error,
}
use ossein_kernel.System.Triples.{After, After-call, Files, Triple}

opened-After :
    (Q E : Files → Type 0) (path : Bytes) (mode : ℕ) (o : Option Node) (t : System)
    → ((m : ℕ) → Q (update t.files path (some (regular [] m))))
    → E t.files
    → After (λ _. Q) E (opened path mode o t).0 (opened path mode o t).1
opened-After Q E path mode none t q e = q mode
opened-After Q E path mode (some (regular text old)) t q e = q old
opened-After Q E path mode (some (symlink link)) t q e = e

-- A call that changes the file at one path: `Q` after it, and `E` after a part of it.
module _ {P Q E : Files → Type 0} (path : Bytes) where
  pub open_empty-Triple :
      (mode : ℕ)
      → ((fs : Files) → P fs → E fs)
      → ((fs : Files) (m : ℕ) → P fs → Q (update fs path (some (regular [] m))))
      → Triple P (open_empty path mode) (λ _. Q) E
  unfolding open_empty
  open_empty-Triple mode kept made = record {
    run = λ s p.
        After-call P (λ _. Q) E (λ t. opened path mode (t.files path) t) untouched create_error
          (λ t q.
            opened-After Q E path mode (t.files path) t (λ m. made t.files m q) (kept t.files q))
          (λ n t q. kept t.files q) s.faults s p;
  }

  pub append_file-Triple :
      (more : Bytes)
      → ((fs : Files) → P fs → Q (update fs path (appended (fs path) more)))
      → ((fs : Files) (n : ℕ) → P fs → E (update fs path (appended (fs path) (take n more))))
      → Triple P (append_file path more) (λ _. Q) E
  unfolding append_file
  append_file-Triple more made part = record {
    run = λ s p.
        After-call P (λ _. Q) E (appending path more) (append_part path more) write_error
          (λ t q. made t.files q) (λ n t q. part t.files n q) s.faults s p;
  }

abbrev pub moved_files : Bytes → Bytes → Node → Files → Files
moved_files from to file fs = update (update fs to (some file)) from none

module _ {P Q E : Files → Type 0} (from to : Bytes) (kept : (fs : Files) → P fs → E fs)
    (done : (fs : Files) (file : Node)
      → P fs
      → fs from ≡ some file
      → Q (moved_files from to file fs))
    (half : (fs : Files) → Q fs → E fs) where
  renamed-After :
      (o : Option Node) (t : System)
      → t.files from ≡ o
      → P t.files
      → After (λ _. Q) E (renamed from to o t).0 (renamed from to o t).1
  renamed-After none t e p = kept t.files p
  renamed-After (some file) t e p = done t.files file p e

  settled : (r : Result (Unit {0})) (t : System) → After (λ _. Q) E r t → E t.files
  settled (ok u) t a = half t.files a
  settled (err e) t a = a
  settled stopped t a = a

  maybe_moved-E : (n : ℕ) (t : System) → P t.files → E (maybe_moved from to n t).files
  maybe_moved-E zero t p = kept t.files p
  maybe_moved-E (suc n) t p =
      settled (renamed from to (t.files from) t).0 (renamed from to (t.files from) t).1
        (renamed-After (t.files from) t refl p)

  pub rename-Triple : Triple P (rename from to) (λ _. Q) E
  unfolding rename
  rename-Triple = record {
    run = λ s p.
        After-call P (λ _. Q) E (λ t. renamed from to (t.files from) t) (maybe_moved from to)
          rename_error (λ t q. renamed-After (t.files from) t refl q) maybe_moved-E s.faults s p;
  }
