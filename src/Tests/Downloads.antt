-- ===== src/Tests/Downloads.antt =====
-- A download whose first attempt breaks off, and a cache that holds a damaged file. A file is its own
-- digest here.
use ossein_kernel.Base.{
  Bytes, [], arith, codes, equal, false, if◌then◌else◌, inl, inr, none, refl, some, true, ℕ, ◌==◌,
  ◌∷◌, ◌≡◌, ◌≢◌,
}
use ossein_kernel.Strings.{find_cut}
use ossein_kernel.Paths.{clean, join_path, split_path}
use ossein_kernel.System.{
  Result, System, append_file, close_file, create, file_mode, mkdir_all, ok, quiet, read_file,
  regular, rename, stat, update,
}
use ossein_kernel.System.Frame.{Frame, ◌then◌}
use ossein_kernel.Builder.Download.{
  Network, Reply, attempts_from, body, broken, cache_path, cached_artifact_ok, copy_body,
  download_attempt, download_with_retries, eof, equal_fold, fetch_file, partial_path, verify_sha,
}
use ossein_kernel.Builder.Download.Succeeds.{fetch_file_succeeds}
use ossein_kernel.Builder.Download.Delivered.{Delivers}
use ossein_kernel.System.Quiet.Calls.{IsPlain}
use ossein_kernel.Builder.Download.Verified.{Fetched}
use ossein_kernel.Builder.Download.Fetch.{fetch_file-Fetched, fetch_file-Frame}

keyed :
    (cache_path (codes "w/source.tar.xz") (codes "039aef84f2b0ffff")
      ≡ codes "w/source-039aef84f2b0.tar.xz")
    × (cache_path (codes "w/source.tar.xz") [] ≡ codes "w/source.tar.xz")
unfolding cache_path split_path join_path clean find_cut codes
keyed = (refl, refl)

abbrev itself : Bytes → Bytes
itself s = s

abbrev second_works : ℕ → Reply
second_works n =
    if n == 1 then body (codes "ab" ∷ []) broken else body (codes "ab" ∷ codes "cd" ∷ []) eof

abbrev flaky : Network
flaky = record {
  reply = second_works;
  interrupted_in = λ n. false;
  interrupted_before = λ n. false;
}

abbrev seed_path : Bytes
seed_path = codes "seed"

abbrev damaged_cache : System
damaged_cache = record {
  files = λ p. if equal p seed_path then some (regular (codes "ab") 0o644) else none;
  faults = [];
}

abbrev after_fetch : Result (Unit {0}) × System
after_fetch = fetch_file itself flaky seed_path (codes "ABCD") damaged_cache

fetched :
    (after_fetch.0 ≡ ok tt)
    × (after_fetch.1.files seed_path ≡ some (regular (codes "abcd") file_mode))
unfolding fetch_file cached_artifact_ok verify_sha read_file stat mkdir_all create append_file
    close_file rename update equal codes equal_fold download_with_retries attempts_from
    download_attempt copy_body
fetched = (refl, refl)

wanted-ne-nil : codes "ABCD" ≢ []
unfolding codes
wanted-ne-nil = ground arith

fetch_file-Fetched_example :
    Fetched itself
      (codes "ABCD")
      (damaged_cache.files seed_path)
      after_fetch.0
      (after_fetch.1.files seed_path)
fetch_file-Fetched_example =
    fetch_file-Fetched itself flaky seed_path (codes "ABCD") damaged_cache wanted-ne-nil

other-ne-seed : (seed_path ≢ codes "other") × (partial_path itself seed_path ≢ codes "other")
unfolding codes
other-ne-seed = (ground arith, ground arith)

fetch_file-Frame_example : Frame (codes "other") (fetch_file itself flaky seed_path (codes "ABCD"))
fetch_file-Frame_example =
    fetch_file-Frame itself flaky seed_path (codes "ABCD") (codes "other") other-ne-seed.0
      other-ne-seed.1

no_link : IsPlain (damaged_cache.files (partial_path itself seed_path))
unfolding codes equal
no_link = tt

second-Delivers : Delivers flaky (codes "abcd") 3 1
unfolding codes
second-Delivers = (refl, inr (tt, refl, (refl, inl refl)))

same_digest : codes "ABCD" ≢ [] → equal_fold (itself (codes "abcd")) (codes "ABCD") ≡ true
unfolding codes equal_fold
same_digest n = refl

fetch_file_succeeds_example :
    (fetch_file itself flaky seed_path (codes "ABCD") (quiet damaged_cache)).0 ≡ ok tt
fetch_file_succeeds_example =
    fetch_file_succeeds itself flaky seed_path (codes "ABCD") (codes "abcd") damaged_cache no_link
      second-Delivers same_digest
