-- ===== src/Builder/Download/Succeeds.antt =====
-- `fetchFile` succeeds when the server delivers the file.
use ossein_kernel.Base.{
  Bool, Bytes, Option, [], ap, arith, codes, false, if◌then◌else◌, none, refl, some, true, ◌++◌,
  ◌∙◌, ◌∷◌, ◌≡◌, ◌≢◌,
}
use ossein_kernel.System.{
  Node, Result, System, download_error, err, ok, pure, quiet, read_error, regular, sha_mismatch,
  stopped, symlink, throw,
}
use ossein_kernel.System.Triples.{Files, Holds}
use ossein_kernel.System.Quiet.{
  Ends, Quiet, Quiet-bind, Quiet-catch, Quiet-from, Quiet-pure, Quiet-throw, ◌after◌,
}
use ossein_kernel.System.Quiet.Calls.{
  IsPlain, mkdir_all-Quiet, read_any-Quiet, read_file-Quiet, rename-Quiet, stat-Quiet,
}
use ossein_kernel.Builder.Download.{
  Network, cached_artifact_ok, cached_file, check_sha, download_attempts, download_with_retries,
  equal_fold, fetch_file, fetch_unless, partial_path, verified_unless_empty, verify_pinned,
  verify_sha,
}
use ossein_kernel.Builder.Download.Delivered.{Delivers, Never, attempts-Quiet}
use ossein_kernel.Paths.{dir}

module _ (sha256 : Bytes → Bytes) (net : Network) (dest want : Bytes) where
  abbrev tmp : Bytes
  tmp = dest ++ codes ".part"

  abbrev Free : Files → Type 0
  Free fs = IsPlain (fs (dest ++ codes ".part"))

  checked : (b : Bool) → Quiet Free (if b then pure tt else throw sha_mismatch) (λ _. Free) Free
  checked true = Quiet-pure {Q = λ _. Free} tt
  checked false = Quiet-throw {Q = λ _. Free} sha_mismatch

  verify_any-Quiet : (w : Bytes) → Quiet Free (verify_sha sha256 dest w) (λ _. Free) Free
  unfolding verify_sha
  verify_any-Quiet w =
      Quiet-bind (check_sha sha256 w) (read_any-Quiet read_error dest)
        (λ s. checked (equal_fold (sha256 s) w))

  unless_empty-Quiet :
      (w : Bytes) → Quiet Free (verified_unless_empty sha256 dest w) (λ _. Free) Never
  unless_empty-Quiet [] = Quiet-pure {Q = λ _. Free} true
  unless_empty-Quiet (c ∷ w) =
      Quiet-catch (λ _. pure false) (verify_any-Quiet (c ∷ w) after Quiet-pure {Q = λ _. Free} true)
        (λ e. Quiet-pure {Q = λ _. Free} false)

  cached_file-Quiet :
      (o : Option Node) → Quiet Free (cached_file sha256 dest want o) (λ _. Free) Never
  cached_file-Quiet none = Quiet-pure {Q = λ _. Free} false
  cached_file-Quiet (some (symlink link)) = Quiet-pure {Q = λ _. Free} false
  cached_file-Quiet (some (regular [] mode)) = Quiet-pure {Q = λ _. Free} false
  cached_file-Quiet (some (regular (c ∷ s) mode)) = unless_empty-Quiet want

  pinned-Quiet :
      (w text : Bytes)
      → (w ≢ [] → equal_fold (sha256 text) w ≡ true)
      → Quiet
          (λ fs. Holds text (fs tmp))
          (verify_pinned sha256 tmp w)
          (λ _ fs. Holds text (fs tmp))
          Never
  unfolding verify_sha
  pinned-Quiet [] text e = Quiet-pure {Q = λ _ fs. Holds text (fs tmp)} tt
  pinned-Quiet (c ∷ w) text e =
      Quiet-bind (check_sha sha256 (c ∷ w)) (read_file-Quiet read_error tmp text (λ fs h. h)) (λ s.
        record {
          run = λ t f p.
              rw (ap (λ a. equal_fold (sha256 a) (c ∷ w)) p.1 ∙ e (λ n. ground arith)) (f, p.0);
        })

  fetch_unless-Quiet :
      (text : Bytes) (b : Bool)
      → Delivers net text download_attempts 1
      → (want ≢ [] → equal_fold (sha256 text) want ≡ true)
      → Quiet Free (fetch_unless sha256 net dest want b) (λ _ fs. Unit) Never
  unfolding download_with_retries
  fetch_unless-Quiet text true d e = record { run = λ s f p. (f, tt) }
  fetch_unless-Quiet text false d e =
      mkdir_all-Quiet (dir dest)
      after attempts-Quiet tmp net text download_attempts 1 download_error d
      after (pinned-Quiet want text e
          after rename-Quiet {Q = λ fs. Unit} tmp dest
              (λ fs h. (regular text h.mode, h.is_file, tt)))

  Ends-ok :
      (Q : Unit {0} → Files → Type 0) (r : Result (Unit {0})) (t : System)
      → Ends Q Never r t
      → r ≡ ok tt
  Ends-ok Q (ok u) t p = refl
  Ends-ok Q (err e) t p = absurd p.1
  Ends-ok Q stopped t p = absurd p

  -- `fetchFile` succeeds if no call fails, and one of the three attempts gets a whole body with the
  -- digest that is wanted, or any if none is wanted, after attempts that broke off, and the run is not
  -- interrupted until then; whatever the cache holds, if no link stands where the download is written.
  pub fetch_file_succeeds :
      (text : Bytes) (s : System)
      → IsPlain (s.files (partial_path sha256 dest))
      → Delivers net text 3 1
      → (want ≢ [] → equal_fold (sha256 text) want ≡ true)
      → (fetch_file sha256 net dest want (quiet s)).0 ≡ ok tt
  unfolding fetch_file cached_artifact_ok
  fetch_file_succeeds text s p d e =
      let q : Quiet Free (fetch_file sha256 net dest want) (λ _ fs. Unit) Never =
        Quiet-bind (fetch_unless sha256 net dest want)
          (Quiet-bind (cached_file sha256 dest want) (stat-Quiet dest)
            (λ o. Quiet-from (λ fs h. h.0) (cached_file-Quiet o)))
          (λ b. fetch_unless-Quiet text b d e) in
      Ends-ok _ (fetch_file sha256 net dest want (quiet s)).0
        (fetch_file sha256 net dest want (quiet s)).1 (q.run (quiet s) refl p)
