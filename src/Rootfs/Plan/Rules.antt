-- ===== src/Rootfs/Plan/Rules.antt =====
-- The rules for a program that executes a list of calls.
use mathlib.Core.Path.{subst}
use ossein_kernel.Base.{
  Bool, Bool-cases, List, [], ap, arith, false, inl, inr, refl, sym, true, ◌++◌, ◌∙◌, ◌∷◌, ◌≡◌,
}
use ossein_kernel.Rootfs.Writer.{
  Call, Failure, History, M, Result, World, after_error, and_then, attempt, err, ok, on_error, pure,
  require, ◌>>◌,
}
use ossein_kernel.Rootfs.Plan.{
  AllWork, AllWork-append, AllWork-split, Executes, OnOk, onto, onto-append,
}

OnOk-map : (P Q : Type 0) (r : Result (Unit {0})) → (P → Q) → OnOk P r → OnOk Q r
OnOk-map P Q (ok u) f p = f p
OnOk-map P Q (err e) f p = tt

abbrev Made : World → History → List Call → Type 0 → Result (Unit {0}) → History → Type 0
Made w h cs R r h' = OnOk ((h' ≡ onto cs h) × AllWork w h cs × R) r

pub attempted : (c : Call) → Executes (attempt c) (c ∷ []) (Unit {0})
attempted c = record {
  made = λ w h. elim (Bool-cases (w h c)) [ inl e ↦ rw e (refl, (refl, tt), tt) | inr e ↦ rw e tt ];
  succeeds = λ w h u p. rw p.0 refl;
}

pub required : (b : Bool) (e : Failure) → Executes (require b e) [] (b ≡ true)
required true e = record { made = λ w h. (refl, tt, refl); succeeds = λ w h r p. refl }
required false e = record { made = λ w h. tt; succeeds = λ w h r p. absurd (ground arith) }

pub nothing_done : Executes (pure tt) [] (Unit {0})
nothing_done = record { made = λ w h. (refl, tt, tt); succeeds = λ w h r p. refl }

module _ (k : M (Unit {0})) (cs ds : List Call) (R S : Type 0) where
  moved_on :
      (w : World) (h h' : History)
      → h' ≡ onto cs h
      → AllWork w h cs
      → R
      → Executes k ds S
      → Made w h (cs ++ ds) (R × S) (k w h').0 (k w h').1
  moved_on w h h' e a r x =
      OnOk-map _ _ (k w h').0
        (λ (p : ((k w h').1 ≡ onto ds h') × AllWork w h' ds × S). (
          p.0 ∙ ap (onto ds) e ∙ sym (onto-append cs ds h),
          AllWork-append w h cs ds a (subst (λ g. AllWork w g ds) e p.1),
          (r, p.2),
        ))
        (x.made w h')

  then-Made :
      (w : World) (h : History) (r : Result (Unit {0})) (h' : History)
      → Made w h cs R r h'
      → Executes k ds S
      → Made w h (cs ++ ds) (R × S) (and_then (λ _. k) r w h').0 (and_then (λ _. k) r w h').1
  then-Made w h (ok u) h' p x = moved_on w h h' p.0 p.1 p.2 x
  then-Made w h (err e) h' p x = tt

  then_succeeds :
      (w : World) (h : History) (r : Result (Unit {0})) (h' : History)
      → Made w h cs R r h'
      → r ≡ ok tt
      → Executes k ds S
      → S
      → AllWork w (onto cs h) ds
      → (and_then (λ _. k) r w h').0 ≡ ok tt
  then_succeeds w h (ok u) h' p e x s a =
      x.succeeds w h' s (subst (λ g. AllWork w g ds) (sym p.0) a)
  then_succeeds w h (err f) h' p e x s a = absurd (ground arith)

infixl 5 ◌next◌
pub ◌next◌ :
    {m k : M (Unit {0})} {cs ds : List Call} {R S : Type 0}
    → Executes m cs R
    → Executes k ds S
    → Executes (m >> k) (cs ++ ds) (R × S)
◌next◌ {m} {k} {cs} {ds} {R} {S} p q = record {
  made = λ w h. then-Made k cs ds R S w h (m w h).0 (m w h).1 (p.made w h) q;
  succeeds = λ w h r a.
      let (b, c) = AllWork-split w h cs ds a in
      then_succeeds k cs ds R S w h (m w h).0 (m w h).1 (p.made w h) (p.succeeds w h r.0 b) q r.1 c;
}

module _ (cs : List Call) (R : Type 0) where
  error-Made :
      (es : List Call) (w : World) (h : History) (r : Result (Unit {0})) (h' : History)
      → Made w h cs R r h'
      → Made w h cs R (after_error es r h').0 (after_error es r h').1
  error-Made [] w h r h' p = p
  error-Made (e ∷ es) w h (ok u) h' p = p
  error-Made (e ∷ es) w h (err f) h' p = error-Made es w h (err f) (e ∷ h') tt

  error_succeeds :
      (es : List Call) (r : Result (Unit {0})) (h : History)
      → r ≡ ok tt
      → (after_error es r h).0 ≡ ok tt
  error_succeeds [] r h e = e
  error_succeeds (c ∷ es) (ok u) h e = e
  error_succeeds (c ∷ es) (err f) h e = absurd (ground arith)

-- What is done after an error does not matter to a run without one.
pub guarded :
    {m : M (Unit {0})} {cs : List Call} {R : Type 0} (es : List Call)
    → Executes m cs R
    → Executes (on_error m es) cs R
guarded {m} {cs} {R} es p = record {
  made = λ w h. error-Made cs R es w h (m w h).0 (m w h).1 (p.made w h);
  succeeds = λ w h r a. error_succeeds cs R es (m w h).0 (m w h).1 (p.succeeds w h r a);
}

pub readied :
    {m : M (Unit {0})} {cs ds : List Call} {R S : Type 0}
    → cs ≡ ds
    → (R → S)
    → (S → R)
    → Executes m cs R
    → Executes m ds S
readied {m} {cs} {ds} {R} {S} e f g p =
    subst (λ es. Executes m es S) e
      (record {
        made = λ w h.
            OnOk-map _ _ (m w h).0
              (λ (q : ((m w h).1 ≡ onto cs h) × AllWork w h cs × R). (q.0, q.1, f q.2))
              (p.made w h);
        succeeds = λ w h s a. p.succeeds w h (g s) a;
      })
