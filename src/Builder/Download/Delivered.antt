-- ===== src/Builder/Download/Delivered.antt =====
-- A download that the server delivers within the attempts succeeds.
use mathlib.Core.Path.{subst}
use ossein_kernel.Base.{
  Bytes, List, [], ap, append-nil, append_assoc, arith, false, inl, inr, ltb, refl, some, suc, sym,
  zero, ℕ, ◌&&◌, ◌++◌, ◌∙◌, ◌∷◌, ◌≡◌, ◌≢◌, ◌⊎◌,
}
use ossein_kernel.System.{Error, M, appended, pure, regular, update}
use ossein_kernel.System.Frame.{update-same}
use ossein_kernel.System.Triples.{Files, Holds}
use ossein_kernel.System.Quiet.{
  Quiet, Quiet-catch, Quiet-from, Quiet-pure, Quiet-throw, Quiet-to, ◌after◌,
}
use ossein_kernel.System.Quiet.Calls.{IsPlain, append_file-Quiet, close_file-Quiet, create-Quiet}
use ossein_kernel.Builder.Download.{
  Ending, Network, Reply, attempts_from, bad_status, body, broken, close_anyway, closed_after,
  copied, copy_body, download_attempt, eof, no_reply, received, stalled, write_chunk,
}

-- The pieces of a body, one after another.
abbrev pub joined : List Bytes → Bytes
joined [] = []
joined (s ∷ ss) = s ++ joined ss

-- A body that ends well, and has this text.
abbrev pub Whole : Bytes → Reply → Type 0
Whole text (body ss eof) = joined ss ≡ text
Whole text r = ⊥

abbrev pub Broken : Reply → Type 0
Broken (body ss eof) = ⊥
Broken r = Unit

-- The first of the attempts from `n` on that is not broken off gives this text, and the run is not
-- interrupted up to it.
abbrev pub Delivers : Network → Bytes → ℕ → ℕ → Type 0
Delivers net text zero n = ⊥
Delivers net text (suc left) n =
    ((ltb 1 n && net.interrupted_before n) ≡ false)
    × (Whole text (net.reply n)
        ⊎ (Broken (net.reply n) × (net.interrupted_in n ≡ false) × Delivers net text left (suc n)))

-- What no files have.
abbrev pub Never : Files → Type 0
Never fs = ⊥

module _ (tmp : Bytes) where
  abbrev Plain : Files → Type 0
  Plain fs = IsPlain (fs tmp)

  abbrev At : Bytes → Files → Type 0
  At text fs = Holds text (fs tmp)

  Plain-At : (text : Bytes) (fs : Files) → At text fs → Plain fs
  Plain-At text fs h = rw h.is_file tt

  started_file : (fs : Files) (m : ℕ) → At [] (update fs tmp (some (regular [] m)))
  started_file fs m = record { mode = m; is_file = update-same fs tmp (some (regular [] m)) }

  grown :
      (text more : Bytes) (fs : Files)
      → At text fs
      → At (text ++ more) (update fs tmp (appended (fs tmp) more))
  grown text more fs h = record {
    mode = h.mode;
    is_file = update-same fs tmp (appended (fs tmp) more) ∙ ap (λ o. appended o more) h.is_file;
  }

  write_chunk-Quiet :
      {E : Files → Type 0} (text s : Bytes)
      → Quiet (At text) (write_chunk tmp s) (λ _. At (text ++ s)) E
  write_chunk-Quiet text [] =
      Quiet-from (λ fs h. subst (λ t. At t fs) (sym (append-nil text)) h) (Quiet-pure tt)
  write_chunk-Quiet text (c ∷ s) = append_file-Quiet tmp (c ∷ s) (grown text (c ∷ s))

  copy_whole-Quiet :
      {E : Files → Type 0} (text : Bytes) (ss : List Bytes)
      → Quiet (At text) (copy_body tmp ss eof) (λ _. At (text ++ joined ss)) E
  unfolding copy_body
  copy_whole-Quiet {E} text [] =
      Quiet-from (λ fs h. subst (λ t. At t fs) (sym (append-nil text)) h) (Quiet-pure tt)
  copy_whole-Quiet {E} text (s ∷ ss) =
      write_chunk-Quiet text s
      after subst (λ t. Quiet (At (text ++ s)) (copy_body tmp ss eof) (λ _. At t) E)
          (append_assoc text s (joined ss)) (copy_whole-Quiet (text ++ s) ss)

  cut_off-Quiet :
      (ending : Ending) (text : Bytes)
      → ending ≢ eof
      → Quiet (At text) (copied ending) (λ _. Never) Plain
  cut_off-Quiet eof text ne = absurd (ne refl)
  cut_off-Quiet broken text ne = record { run = λ s e h. (e, Plain-At text s.files h) }
  cut_off-Quiet stalled text ne = record { run = λ s e h. (e, Plain-At text s.files h) }

  copy_cut-Quiet :
      (ending : Ending) (text : Bytes) (ss : List Bytes)
      → ending ≢ eof
      → Quiet (At text) (copy_body tmp ss ending) (λ _. Never) Plain
  unfolding copy_body
  copy_cut-Quiet ending text [] ne = cut_off-Quiet ending text ne
  copy_cut-Quiet ending text (s ∷ ss) ne =
      write_chunk-Quiet text s after copy_cut-Quiet ending (text ++ s) ss ne

  closed_after-Quiet :
      {P Q E : Files → Type 0} {m : M (Unit {0})}
      → Quiet P m (λ _. Q) E
      → Quiet P (closed_after tmp m) (λ _. Q) E
  closed_after-Quiet {Q = Q} {E = E} t =
      Quiet-catch (close_anyway tmp) t (λ e.
        Quiet-catch {G = E} (λ _. pure tt) (close_file-Quiet {P = E} {E = E} tmp)
          (λ _. Quiet-pure {Q = λ _. E} tt)
        after Quiet-throw {Q = λ _. Q} e)
      after close_file-Quiet tmp

  received-Whole :
      {E : Files → Type 0} (text : Bytes) (r : Reply)
      → Whole text r
      → Quiet Plain (received tmp r) (λ _. At text) E
  received-Whole {E} text no_reply w = absurd w
  received-Whole {E} text bad_status w = absurd w
  received-Whole {E} text (body ss broken) w = absurd w
  received-Whole {E} text (body ss stalled) w = absurd w
  received-Whole {E} text (body ss eof) w =
      create-Quiet {Q = At []} tmp (λ fs p. p) (λ fs m p. started_file fs m)
      after closed_after-Quiet (
          subst (λ t. Quiet (At []) (copy_body tmp ss eof) (λ _. At t) E) w
            (copy_whole-Quiet [] ss))

  received_cut : (r : Reply) → Broken r → Quiet Plain (received tmp r) (λ _. Never) Plain
  received_cut no_reply b = record { run = λ s e p. (e, p) }
  received_cut bad_status b = record { run = λ s e p. (e, p) }
  received_cut (body ss eof) b = absurd b
  received_cut (body ss broken) b =
      create-Quiet {Q = At []} tmp (λ fs p. p) (λ fs m p. started_file fs m)
      after closed_after-Quiet (copy_cut-Quiet broken [] ss (ground arith))
  received_cut (body ss stalled) b =
      create-Quiet {Q = At []} tmp (λ fs p. p) (λ fs m p. started_file fs m)
      after closed_after-Quiet (copy_cut-Quiet stalled [] ss (ground arith))

  pub attempts-Quiet :
      (net : Network) (text : Bytes) (left n : ℕ) (e : Error)
      → Delivers net text left n
      → Quiet Plain (attempts_from net tmp left n e) (λ _. At text) Never
  unfolding attempts_from download_attempt
  attempts-Quiet net text zero n e d = absurd d
  attempts-Quiet net text (suc left) n e (b, inl w) = rw b (
      Quiet-catch _ (received-Whole {E = Never} text (net.reply n) w)
        (λ f. record { run = λ s h p. absurd p }))
  attempts-Quiet net text (suc left) n e (b, inr (c, i, d)) = rw b (
      Quiet-catch _ (Quiet-to (λ u fs q. absurd q) (received_cut (net.reply n) c))
        (λ f. rw i (attempts-Quiet net text left (suc n) f d)))
