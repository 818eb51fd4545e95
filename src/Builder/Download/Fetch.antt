-- ===== src/Builder/Download/Fetch.antt =====
-- `fetchFile`, cmd/ossein-kernel/main.go: its destination never holds a file that was not verified.
use mathlib.Core.Path.{subst}
use ossein_kernel.Base.{Bool, Bytes, Option, [], false, none, refl, some, sym, true, ◌∷◌, ◌≢◌}
use ossein_kernel.System.{
  Node, Result, System, and_then, err, mkdir_all, ok, pure, read_error, regular, rename,
  sha_mismatch, stat, stopped, symlink, ◌>>◌,
}
use ossein_kernel.System.Frame.{
  Frame, Frame-bind, Frame-catch, Frame-pure, Frame-throw, mkdir_all-Frame, read_file-Frame,
  rename-Frame, stat-Frame, ◌then◌,
}
use ossein_kernel.Builder.Download.{
  Network, cached_artifact_ok, cached_file, check_sha, download_with_retries, equal_fold,
  fetch_file, fetch_unless, partial_path, verified_unless_empty, verify_pinned, verify_sha,
}
use ossein_kernel.Builder.Download.Elsewhere.{
  Frame-if, download_with_retries-Frame, partial_path-ne,
}
use ossein_kernel.Builder.Download.Verified.{
  Fetched, Fetched-after, OnOk, OnTrue, OnTrue-verified, Verified, rename-Fetched, untouched_by,
  verify_sha-OnOk,
}
use ossein_kernel.Paths.{dir}

module _ (sha256 : Bytes → Bytes) where
  verify_sha-Frame : (file p want : Bytes) → Frame p (verify_sha sha256 file want)
  unfolding verify_sha
  verify_sha-Frame file p want =
      Frame-bind (check_sha sha256 want) (read_file-Frame read_error file p)
        (λ s. Frame-if (equal_fold (sha256 s) want) (Frame-pure p tt) (Frame-throw p sha_mismatch))

  verified_unless_empty-Frame :
      (file want p : Bytes) → Frame p (verified_unless_empty sha256 file want)
  verified_unless_empty-Frame file [] p = Frame-pure p true
  verified_unless_empty-Frame file (c ∷ want) p =
      Frame-catch (λ _. pure false) (verify_sha-Frame file p (c ∷ want) then Frame-pure p true)
        (λ _. Frame-pure p false)

  cached_file-Frame :
      (dest want : Bytes) (o : Option Node) (p : Bytes) → Frame p (cached_file sha256 dest want o)
  cached_file-Frame dest want none p = Frame-pure p false
  cached_file-Frame dest want (some (symlink link)) p = Frame-pure p false
  cached_file-Frame dest want (some (regular [] mode)) p = Frame-pure p false
  cached_file-Frame dest want (some (regular (c ∷ s) mode)) p =
      verified_unless_empty-Frame dest want p

  cached_artifact_ok-Frame : (dest want p : Bytes) → Frame p (cached_artifact_ok sha256 dest want)
  unfolding cached_artifact_ok
  cached_artifact_ok-Frame dest want p =
      Frame-bind (cached_file sha256 dest want) (stat-Frame dest p)
        (λ o. cached_file-Frame dest want o p)

  verified_unless_empty-OnTrue :
      (dest want : Bytes) (t : System)
      → want ≢ []
      → OnTrue sha256 want
          (Verified sha256 want (t.files dest))
          (verified_unless_empty sha256 dest want t).0
  verified_unless_empty-OnTrue dest [] t ne = absurd (ne refl)
  verified_unless_empty-OnTrue dest (c ∷ want) t ne =
      OnTrue-verified sha256 (c ∷ want) (Verified sha256 (c ∷ want) (t.files dest))
        (verify_sha sha256 dest (c ∷ want) t).0 (verify_sha sha256 dest (c ∷ want) t).1
        (verify_sha-OnOk sha256 (c ∷ want) dest t)

  cached_file-OnTrue :
      (dest want : Bytes) (o : Option Node) (t : System)
      → want ≢ []
      → OnTrue sha256 want
          (Verified sha256 want (t.files dest))
          (cached_file sha256 dest want o t).0
  cached_file-OnTrue dest want none t ne = tt
  cached_file-OnTrue dest want (some (symlink link)) t ne = tt
  cached_file-OnTrue dest want (some (regular [] mode)) t ne = tt
  cached_file-OnTrue dest want (some (regular (c ∷ s) mode)) t ne =
      verified_unless_empty-OnTrue dest want t ne

  cached-and_then :
      (dest want : Bytes) (r : Result (Option Node)) (t : System)
      → want ≢ []
      → OnTrue sha256 want
          (Verified sha256 want ((and_then (cached_file sha256 dest want) r t).1.files dest))
          (and_then (cached_file sha256 dest want) r t).0
  cached-and_then dest want (ok o) t ne =
      subst (λ n. OnTrue sha256 want (Verified sha256 want n) (cached_file sha256 dest want o t).0)
        (sym ((cached_file-Frame dest want o dest).frame t)) (cached_file-OnTrue dest want o t ne)
  cached-and_then dest want (err e) t ne = tt
  cached-and_then dest want stopped t ne = tt

  cached_artifact_ok-OnTrue :
      (dest want : Bytes) (s : System)
      → want ≢ []
      → OnTrue sha256 want
          (Verified sha256 want ((cached_artifact_ok sha256 dest want s).1.files dest))
          (cached_artifact_ok sha256 dest want s).0
  unfolding cached_artifact_ok
  cached_artifact_ok-OnTrue dest want s ne =
      cached-and_then dest want (stat dest s).0 (stat dest s).1 ne

  verify_pinned-OnOk :
      (file want : Bytes) (s : System)
      → want ≢ []
      → OnOk sha256 want (Verified sha256 want (s.files file)) (verify_pinned sha256 file want s).0
  verify_pinned-OnOk file [] s ne = absurd (ne refl)
  verify_pinned-OnOk file (c ∷ want) s ne = verify_sha-OnOk sha256 (c ∷ want) file s

  verify_pinned-Frame : (file want p : Bytes) → Frame p (verify_pinned sha256 file want)
  verify_pinned-Frame file [] p = Frame-pure p tt
  verify_pinned-Frame file (c ∷ want) p = verify_sha-Frame file p (c ∷ want)

  install-Fetched :
      (tmp dest want : Bytes) (t : System)
      → tmp ≢ dest
      → want ≢ []
      → Fetched sha256 want
          (t.files dest)
          ((verify_pinned sha256 tmp want >> rename tmp dest) t).0
          (((verify_pinned sha256 tmp want >> rename tmp dest) t).1.files dest)
  install-Fetched tmp dest want t h ne =
      Fetched-after sha256 want dest (verify_pinned sha256 tmp want) (λ _. rename tmp dest) t
        (verify_pinned-Frame tmp want dest)
        (λ u e. rename-Fetched sha256 want tmp dest (verify_pinned sha256 tmp want t).1 h (
          subst (Verified sha256 want) (sym ((verify_pinned-Frame tmp want tmp).frame t)) (
            subst (OnOk sha256 want (Verified sha256 want (t.files tmp))) e
              (verify_pinned-OnOk tmp want t ne))))

  fetch_unless-Fetched :
      (net : Network) (dest want : Bytes) (b : Bool) (t : System)
      → want ≢ []
      → OnTrue sha256 want (Verified sha256 want (t.files dest)) (ok b)
      → Fetched sha256 want
          (t.files dest)
          (fetch_unless sha256 net dest want b t).0
          ((fetch_unless sha256 net dest want b t).1.files dest)
  fetch_unless-Fetched net dest want true t ne v =
      untouched_by sha256 want (t.files dest) (t.files dest) refl v
  fetch_unless-Fetched net dest want false t ne v =
      Fetched-after sha256 want dest
        (mkdir_all (dir dest) >> download_with_retries net (partial_path sha256 dest))
        (λ _.
          verify_pinned sha256 (partial_path sha256 dest) want
          >> rename (partial_path sha256 dest) dest)
        t
        (mkdir_all-Frame (dir dest) dest
          then download_with_retries-Frame net dest (partial_path sha256 dest)
              (partial_path-ne dest))
        (λ u e.
          install-Fetched (partial_path sha256 dest) dest want
            ((mkdir_all (dir dest) >> download_with_retries net (partial_path sha256 dest)) t).1
            (partial_path-ne dest) ne)

  -- Whatever fails, and wherever the process is stopped, `fetchFile` leaves at its destination what
  -- stood there, or a file with the digest that is wanted; and such a file if it returns no error. A
  -- digest is wanted.
  pub fetch_file-Fetched :
      (net : Network) (dest want : Bytes) (s : System)
      → want ≢ []
      → Fetched sha256 want
          (s.files dest)
          (fetch_file sha256 net dest want s).0
          ((fetch_file sha256 net dest want s).1.files dest)
  unfolding fetch_file
  fetch_file-Fetched net dest want s ne =
      Fetched-after sha256 want dest (cached_artifact_ok sha256 dest want)
        (fetch_unless sha256 net dest want) s (cached_artifact_ok-Frame dest want dest)
        (λ b e. fetch_unless-Fetched net dest want b (cached_artifact_ok sha256 dest want s).1 ne (
          subst
            (OnTrue sha256 want
              (Verified sha256 want ((cached_artifact_ok sha256 dest want s).1.files dest)))
            e (cached_artifact_ok-OnTrue dest want s ne)))

  fetch_unless-Frame :
      (net : Network) (dest want : Bytes) (b : Bool) (p : Bytes)
      → dest ≢ p
      → partial_path sha256 dest ≢ p
      → Frame p (fetch_unless sha256 net dest want b)
  fetch_unless-Frame net dest want true p hd hp = Frame-pure p tt
  fetch_unless-Frame net dest want false p hd hp =
      mkdir_all-Frame (dir dest) p
      then download_with_retries-Frame net p (partial_path sha256 dest) hp
      then (verify_pinned-Frame (partial_path sha256 dest) want p
          then rename-Frame (partial_path sha256 dest) dest p hp hd)

  -- `fetchFile` changes no file but its destination and the one beside it that ends in `.part`,
  -- whatever fails.
  pub fetch_file-Frame :
      (net : Network) (dest want p : Bytes)
      → dest ≢ p
      → partial_path sha256 dest ≢ p
      → Frame p (fetch_file sha256 net dest want)
  unfolding fetch_file
  fetch_file-Frame net dest want p hd hp =
      Frame-bind (fetch_unless sha256 net dest want) (cached_artifact_ok-Frame dest want p)
        (λ b. fetch_unless-Frame net dest want b p hd hp)
