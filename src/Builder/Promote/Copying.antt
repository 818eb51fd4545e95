-- ===== src/Builder/Promote/Copying.antt =====
-- What `copyFile`, cmd/ossein-kernel/main.go, leaves when it returns no error.
use mathlib.Core.Path.{subst}
use ossein_kernel.Base.{Bytes, refl, some, sym, ℕ, ◌∙◌, ◌≡◌, ◌≢◌}
use ossein_kernel.Paths.{dir}
use ossein_kernel.System.{M, Result, System, err, mkdir_all, ok, read_error, regular, stopped, ◌>>◌}
use ossein_kernel.System.Frame.{Frame}
use ossein_kernel.System.Triples.{
  After, Files, Holds, Triple, Triple-bind, Triple-from, Triple-given, mkdir_all-Triple,
  read_file-Triple, same_text, ◌and◌,
}
use ossein_kernel.Builder.Promote.{copy_file}
use ossein_kernel.Builder.Promote.OnlyTested.{WritesOnly}
use ossein_kernel.Builder.Toolchain.Stamped.{WritesWhole}

kept-After :
    (P : Files → Type 0) (r : Result (Unit {0})) (t : System)
    → P t.files
    → After (λ _. P) (λ fs. Unit) r t
kept-After P (ok u) t p = p
kept-After P (err e) t p = tt
kept-After P stopped t p = tt

module _ (write_file : Bytes → Bytes → M (Unit {0})) (only : WritesOnly write_file)
    (whole : WritesWhole write_file) (src dst text : Bytes) (mode : ℕ) where
  abbrev There : Files → Type 0
  There fs = fs src ≡ some (regular text mode)

  abbrev Copied : Files → Type 0
  Copied fs = There fs × Holds text (fs dst)

  abbrev Any : Files → Type 0
  Any fs = Unit

  pub There-Triple : {m : M (Unit {0})} → Frame src m → Triple There m (λ _. There) Any
  There-Triple {m} f = record { run = λ s p. kept-After There (m s).0 (m s).1 (f.frame s ∙ p) }

  pub Copied-Triple :
      {m : M (Unit {0})} → Frame src m → Frame dst m → Triple Copied m (λ _. Copied) Any
  Copied-Triple {m} f g = record {
    run = λ s p.
        kept-After Copied (m s).0 (m s).1
          (f.frame s ∙ p.0, subst (Holds text) (sym (g.frame s)) p.1);
  }

  written-After :
      (r : Result (Unit {0})) (t : System)
      → There t.files
      → (r ≡ ok tt → Holds text (t.files dst))
      → After (λ _. Copied) Any r t
  written-After (ok u) t p h = (p, h refl)
  written-After (err e) t p h = tt
  written-After stopped t p h = tt

  write-Triple :
      (s : Bytes) → s ≡ text → dst ≢ src → Triple There (write_file dst s) (λ _. Copied) Any
  write-Triple s e ne = record {
    run = λ t p.
        let m = write_file dst s t in
        written-After m.0 m.1 ((only dst s src ne).frame t ∙ p) (λ f.
          let (mode, g) = whole dst s t f in
          subst (λ a. Holds a (m.1.files dst)) e (record { mode = mode; is_file = g }));
  }

  pub copy_file-Triple : dst ≢ src → Triple There (copy_file write_file src dst) (λ _. Copied) Any
  unfolding copy_file
  copy_file-Triple ne =
      Triple-bind (λ s. mkdir_all (dir dst) >> write_file dst s)
        (read_file-Triple (λ fs p. tt) read_error src)
        (λ s.
          Triple-given (λ fs p. same_text s text mode (fs src) p.1 p.0)
            (λ e.
              Triple-from (λ fs p. p.0)
                (mkdir_all-Triple (λ fs p. tt) (dir dst) and write-Triple s e ne)))
