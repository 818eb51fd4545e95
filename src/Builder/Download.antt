-- ===== src/Builder/Download.antt =====
-- Downloads into a cache, cmd/ossein-kernel/main.go: `cachePath`, `cachedArtifactOK`,
-- `downloadAttempt`, `downloadWithRetries`, `verifySHA` and `fetchFile`. What the server sends and
-- when the run is interrupted is a parameter; so is the SHA-256 digest of a file.
pub mod Elsewhere
pub mod Verified
pub mod Fetch
pub mod Closing
pub mod Delivered
pub mod Succeeds
use ossein_kernel.Base.{
  Bool, Bytes, List, Option, [], codes, false, if◌then◌else◌, leb, length, ltb, none, some, suc,
  take, true, zero, ℕ, ◌&&◌, ◌++◌, ◌+◌, ◌==◌, ◌∷◌,
}
use ossein_kernel.Strings.{cut}
use ossein_kernel.Paths.{dir, join_path, split_path}
use ossein_kernel.System.{
  Error, M, Node, append_file, catch, close_file, create, download_error, download_http,
  download_stall, interrupted, mkdir_all, pure, read_error, read_file, regular, rename,
  sha_mismatch, stat, symlink, throw, ◌>>=◌, ◌>>◌,
}

abbrev pub cache_key_len : ℕ
cache_key_len = 12

abbrev keyed_name : Bytes × Bytes × Bool → Bytes → Bytes
keyed_name (stem, ext, found) want = stem ++ (b'-' ∷ (take cache_key_len want ++ (b'.' ∷ ext)))

-- The digest that is wanted keys the path.
unfoldable pub cache_path : Bytes → Bytes → Bytes
cache_path path want =
    if ltb (length want) cache_key_len
    then path
    else (let parts = split_path path in
        join_path parts.0 (keyed_name (cut parts.1 (b'.' ∷ [])) want))

-- How a body ends: at its end, by an error, or by the watchdog for a stalled one.
pub data Ending : Type 0 where
  eof broken stalled : Ending

pub data Reply : Type 0 where
  no_reply bad_status : Reply
  body : List Bytes → Ending → Reply

-- What each attempt gets, and whether the run was interrupted by the end of it or while the next
-- one was waited for.
pub record Network : Type 0 where
  pub reply : ℕ → Reply
  pub interrupted_in : ℕ → Bool
  pub interrupted_before : ℕ → Bool

abbrev pub copied : Ending → M (Unit {0})
copied eof = pure tt
copied broken = throw read_error
copied stalled = throw download_stall

abbrev pub write_chunk : Bytes → Bytes → M (Unit {0})
write_chunk tmp [] = pure tt
write_chunk tmp (c ∷ s) = append_file tmp (c ∷ s)

-- `copyWithProgress`, without its log.
unfoldable pub copy_body : Bytes → List Bytes → Ending → M (Unit {0})
copy_body tmp [] ending = copied ending
copy_body tmp (s ∷ ss) ending = write_chunk tmp s >> copy_body tmp ss ending

-- The file is closed in any case, and the first error counts.
abbrev pub close_anyway : Bytes → Error → M (Unit {0})
close_anyway tmp e = catch (close_file tmp) (λ _. pure tt) >> throw e

abbrev pub closed_after : Bytes → M (Unit {0}) → M (Unit {0})
closed_after tmp m = catch m (close_anyway tmp) >> close_file tmp

abbrev pub received : Bytes → Reply → M (Unit {0})
received tmp no_reply = throw download_error
received tmp bad_status = throw download_http
received tmp (body ss ending) = create tmp >> closed_after tmp (copy_body tmp ss ending)

unfoldable pub download_attempt : Network → Bytes → ℕ → M (Unit {0})
download_attempt net tmp n = received tmp (net.reply n)

abbrev pub download_attempts : ℕ
download_attempts = 3

-- The attempts that are left, the number of the next one, and the error of the one before.
unfoldable pub attempts_from : Network → Bytes → ℕ → ℕ → Error → M (Unit {0})
attempts_from net tmp zero n e = throw e
attempts_from net tmp (suc left) n e =
    let again = attempts_from net tmp left (suc n) in
    if ltb 1 n && net.interrupted_before n
    then throw interrupted
    else catch (download_attempt net tmp n)
        (λ f. if net.interrupted_in n then throw interrupted else again f)

unfoldable pub download_with_retries : Network → Bytes → M (Unit {0})
download_with_retries net tmp = attempts_from net tmp download_attempts 1 download_error

abbrev pub lower_case : ℕ → ℕ
lower_case c = if leb b'A' c && leb c b'Z' then c + 32 else c

-- `strings.EqualFold`, which `verifySHA` calls with a string of hexadecimal digits.
unfoldable pub equal_fold : Bytes → Bytes → Bool
equal_fold [] [] = true
equal_fold [] (d ∷ t) = false
equal_fold (c ∷ s) [] = false
equal_fold (c ∷ s) (d ∷ t) = lower_case c == lower_case d && equal_fold s t

module _ (sha256 : Bytes → Bytes) where
  abbrev pub check_sha : Bytes → Bytes → M (Unit {0})
  check_sha want s = if equal_fold (sha256 s) want then pure tt else throw sha_mismatch

  unfoldable pub verify_sha : Bytes → Bytes → M (Unit {0})
  verify_sha file want = read_file read_error file >>= check_sha want

  abbrev pub verified_unless_empty : Bytes → Bytes → M Bool
  verified_unless_empty file [] = pure true
  verified_unless_empty file (c ∷ want) =
      catch (verify_sha file (c ∷ want) >> pure true) (λ _. pure false)

  abbrev pub cached_file : Bytes → Bytes → Option Node → M Bool
  cached_file dest want none = pure false
  cached_file dest want (some (symlink link)) = pure false
  cached_file dest want (some (regular [] mode)) = pure false
  cached_file dest want (some (regular (c ∷ s) mode)) = verified_unless_empty dest want

  unfoldable pub cached_artifact_ok : Bytes → Bytes → M Bool
  cached_artifact_ok dest want = stat dest >>= cached_file dest want

  abbrev pub verify_pinned : Bytes → Bytes → M (Unit {0})
  verify_pinned tmp [] = pure tt
  verify_pinned tmp (c ∷ want) = verify_sha tmp (c ∷ want)

  abbrev pub partial_path : Bytes → Bytes
  partial_path dest = dest ++ codes ".part"

  abbrev pub fetch_unless : Network → Bytes → Bytes → Bool → M (Unit {0})
  fetch_unless net dest want true = pure tt
  fetch_unless net dest want false =
      mkdir_all (dir dest)
      >> download_with_retries net (partial_path dest)
      >> (verify_pinned (partial_path dest) want >> rename (partial_path dest) dest)

  unfoldable pub fetch_file : Network → Bytes → Bytes → M (Unit {0})
  fetch_file net dest want = cached_artifact_ok dest want >>= fetch_unless net dest want
