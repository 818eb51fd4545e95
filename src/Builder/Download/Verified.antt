-- ===== src/Builder/Download/Verified.antt =====
-- What it is for a file to have been fetched: it holds what it held, or has the digest that is
-- wanted. The steps of `fetchFile` that verify and rename.
use mathlib.Core.Path.{subst}
use ossein_kernel.Base.{
  Bool, Bool-cases, Bytes, List, Option, [], false, inl, inr, none, refl, some, suc, sym, true,
  zero, ℕ, ◌∙◌, ◌∷◌, ◌≡◌, ◌≢◌, ◌⊎◌,
}
use ossein_kernel.System.{
  Fault, M, Node, Result, System, and_then, call, contents_or, err, fails, handle, maybe_moved, ok,
  pure, read_error, read_file, regular, rename, rename_error, renamed, stopped, stops, symlink,
  untouched, update, works, ◌>>=◌,
}
use ossein_kernel.System.Frame.{Frame, update-other, update-same}
use ossein_kernel.Builder.Download.{check_sha, equal_fold, verify_sha}

module _ (sha256 : Bytes → Bytes) (want : Bytes) where
  -- A file whose digest is the one that is wanted.
  abbrev pub Verified : Option Node → Type 0
  Verified none = ⊥
  Verified (some (symlink link)) = ⊥
  Verified (some (regular s mode)) = equal_fold (sha256 s) want ≡ true

  abbrev pub OnOk : {A : Type 0} → Type 0 → Result A → Type 0
  OnOk P (ok a) = P
  OnOk P _ = Unit

  OnOk-check_sha :
      (s : Bytes) (mode : ℕ) (t : System)
      → OnOk (Verified (some (regular s mode))) (check_sha sha256 want s t).0
  OnOk-check_sha s mode t = elim (Bool-cases (equal_fold (sha256 s) want)) [
    | inl e ↦ rw e refl
    | inr e ↦ rw e tt
  ]

  OnOk-read :
      (o : Option Node) (t : System)
      → OnOk (Verified o) (and_then (check_sha sha256 want) (contents_or read_error o) t).0
  OnOk-read none t = tt
  OnOk-read (some (symlink link)) t = tt
  OnOk-read (some (regular s mode)) t = OnOk-check_sha s mode t

  verify-call :
      (file : Bytes) (fs : List Fault) (s : System)
      → OnOk
          (Verified (s.files file))
          (let r =
              call (λ t. (contents_or read_error (t.files file), t)) untouched read_error fs s in
            and_then (check_sha sha256 want) r.0 r.1).0
  verify-call file [] s = OnOk-read (s.files file) s
  verify-call file (works ∷ rest) s = OnOk-read (s.files file) (record s { faults = rest })
  verify-call file (fails n ∷ rest) s = tt
  verify-call file (stops n ∷ rest) s = tt

  pub verify_sha-OnOk :
      (file : Bytes) (s : System) → OnOk (Verified (s.files file)) (verify_sha sha256 file want s).0
  unfolding verify_sha read_file
  verify_sha-OnOk file s = verify-call file s.faults s

  -- The file at `dest` is what it was, or has the digest that is wanted; and it has it if there is no
  -- error.
  pub record Fetched {A : Type 0} (was : Option Node) (r : Result A) (now : Option Node)
      : Type 0 where
    pub safe : (now ≡ was) ⊎ Verified now
    pub on_ok : OnOk (Verified now) r

  pub untouched_by :
      {A : Type 0} {r : Result A} (was now : Option Node)
      → now ≡ was
      → OnOk (Verified now) r
      → Fetched was r now
  untouched_by was now e o = record { safe = inl e; on_ok = o }

  Fetched-and_then :
      {A B : Type 0} (dest : Bytes) (was : Option Node) (f : A → M B) (r : Result A) (t : System)
      → t.files dest ≡ was
      → ((a : A) → r ≡ ok a → Fetched (t.files dest) (f a t).0 ((f a t).1.files dest))
      → Fetched was (and_then f r t).0 ((and_then f r t).1.files dest)
  Fetched-and_then dest was f (ok a) t e k =
      subst (λ o. Fetched o (f a t).0 ((f a t).1.files dest)) e (k a refl)
  Fetched-and_then dest was f (err x) t e k = untouched_by was (t.files dest) e tt
  Fetched-and_then dest was f stopped t e k = untouched_by was (t.files dest) e tt

  -- A step that leaves the file alone, before one that fetches.
  pub Fetched-after :
      {A B : Type 0} (dest : Bytes) (m : M A) (f : A → M B) (s : System)
      → Frame dest m
      → ((a : A)
          → (m s).0 ≡ ok a
          → Fetched ((m s).1.files dest) (f a (m s).1).0 ((f a (m s).1).1.files dest))
      → Fetched (s.files dest) ((m >>= f) s).0 (((m >>= f) s).1.files dest)
  Fetched-after dest m f s fr k =
      Fetched-and_then dest (s.files dest) f (m s).0 (m s).1 (fr.frame s) k

  Fetched-renamed :
      (from dest : Bytes) (o : Option Node) (t : System)
      → from ≢ dest
      → Verified o
      → Fetched (t.files dest) (renamed from dest o t).0 ((renamed from dest o t).1.files dest)
  Fetched-renamed from dest none t h v = absurd v
  Fetched-renamed from dest (some new) t h v = record { safe = inr w; on_ok = w }
    where
      w : Verified ((renamed from dest (some new) t).1.files dest)
      w =
          subst Verified
            (sym (
              update-other (update t.files dest (some new)) from dest none h
              ∙ update-same t.files dest (some new)))
            v

  rename-call :
      (from dest : Bytes) (fs : List Fault) (t : System)
      → from ≢ dest
      → Verified (t.files from)
      → Fetched
          (t.files dest)
          (call
            (λ u. renamed from dest (u.files from) u)
            (maybe_moved from dest)
            rename_error
            fs
            t).0
          ((call
              (λ u. renamed from dest (u.files from) u)
              (maybe_moved from dest)
              rename_error
              fs
              t).1.files
            dest)
  rename-call from dest [] t h v = Fetched-renamed from dest (t.files from) t h v
  rename-call from dest (works ∷ rest) t h v =
      Fetched-renamed from dest (t.files from) (record t { faults = rest }) h v
  rename-call from dest (fails zero ∷ rest) t h v =
      untouched_by (t.files dest) (t.files dest) refl tt
  rename-call from dest (fails (suc n) ∷ rest) t h v = record {
    safe = (Fetched-renamed from dest (t.files from) (record t { faults = rest }) h v).safe;
    on_ok = tt;
  }
  rename-call from dest (stops zero ∷ rest) t h v =
      untouched_by (t.files dest) (t.files dest) refl tt
  rename-call from dest (stops (suc n) ∷ rest) t h v = record {
    safe = (Fetched-renamed from dest (t.files from) (record t { faults = rest }) h v).safe;
    on_ok = tt;
  }

  pub rename-Fetched :
      (from dest : Bytes) (t : System)
      → from ≢ dest
      → Verified (t.files from)
      → Fetched (t.files dest) (rename from dest t).0 ((rename from dest t).1.files dest)
  unfolding rename
  rename-Fetched from dest t h v = rename-call from dest t.faults t h v

  abbrev pub OnTrue : Type 0 → Result Bool → Type 0
  OnTrue P (ok true) = P
  OnTrue P _ = Unit

  pub OnTrue-verified :
      (P : Type 0) (r : Result (Unit {0})) (t : System)
      → OnOk P r
      → OnTrue P
          (handle
            (λ _. pure false)
            (and_then (λ _. pure true) r t).0
            (and_then (λ _. pure true) r t).1).0
  OnTrue-verified P (ok u) t p = p
  OnTrue-verified P (err e) t p = tt
  OnTrue-verified P stopped t p = tt
