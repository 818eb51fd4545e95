-- ===== src/Tests/Seed.antt =====
-- A cold start with an archive of three entries, and a start with another pin. A file is its own
-- digest, and the archive is always the same.
use ossein_kernel.Tests.Patches.{unequal}
use ossein_kernel.Base.{
  Bytes, Option, [], arith, codes, equal, false, none, refl, some, true, ◌∷◌, ◌≡◌, ◌≢◌,
}
use ossein_kernel.Paths.{base, clean, dir, join_path, nonempty, split_path}
use ossein_kernel.Strings.{after_prefix, find_cut}
use ossein_kernel.System.{
  Result, System, append_file, close_file, create, file_mode, mkdir_all, ok, open_empty, quiet,
  read_file, regular, rename, stat, update,
}
use ossein_kernel.System.Triples.{Triple}
use ossein_kernel.Tar.{TarEntry, TarKind, TarStream, regular_file, symbolic_link}
use ossein_kernel.Builder.Download.{
  Network, attempts_from, body, cache_path, cached_artifact_ok, copy_body, download_attempt,
  download_with_retries, eof, equal_fold, fetch_file, partial_path, verify_sha,
}
use ossein_kernel.Builder.Seed.{
  SeedConfig, extract_seed_kernel, fetch_seed_kernel, is_seed_kernel, resolve_bootstrap, seed_cache,
  seed_from, seed_tarball, write_seed_kernel,
}
use ossein_kernel.Builder.Seed.Cached.{CacheIs, CacheIsSafe, IsApart}
use ossein_kernel.Builder.Seed.Resolved.{Resolved, resolve_bootstrap-Triple}

abbrev itself : Bytes → Bytes
itself s = s

abbrev entry : Bytes → TarKind → Bytes → TarEntry
entry name kind text = record {
  entry_name = name;
  kind = kind;
  link_name = [];
  mode = 0o644;
  uid = 0;
  gid = 0;
  contents = text;
  readable = true;
}

abbrev kata_archive : TarStream
kata_archive = record {
  entries =
      entry (codes "opt/vmlinux.container") symbolic_link []
      ∷ entry (codes "opt/vmlinuz-6.1") regular_file (codes "packed")
      ∷ entry (codes "opt/vmlinux-6.1") regular_file (codes "kernel")
      ∷ [];
  complete = true;
}

abbrev read_archive : Bytes → Option TarStream
read_archive s = some kata_archive

abbrev server : Network
server = record {
  reply = λ n. body (codes "ab" ∷ []) eof;
  interrupted_in = λ n. false;
  interrupted_before = λ n. false;
}

abbrev seed_config : SeedConfig
seed_config = record { scratch = codes "w"; out = codes "o"; kata_sha = codes "ab" }

abbrev cold : System
cold = record { files = λ p. none; faults = [] }

abbrev started : Result Bytes × System
started = resolve_bootstrap read_archive itself server seed_config cold

cold_start :
    (started.0 ≡ ok (codes "w/bootstrap-kernel-arm64"))
    × (started.1.files (codes "w/bootstrap-kernel-arm64")
        ≡ some (regular (codes "kernel") file_mode))
unfolding resolve_bootstrap fetch_seed_kernel extract_seed_kernel seed_from is_seed_kernel
    write_seed_kernel base nonempty fetch_file cached_artifact_ok verify_sha read_file stat
    mkdir_all create open_empty append_file close_file rename update equal codes equal_fold
    download_with_retries attempts_from download_attempt copy_body cache_path join_path clean
    find_cut split_path dir after_prefix
cold_start = (refl, refl)

abbrev repinned : Result Bytes × System
repinned =
    resolve_bootstrap read_archive itself server (record seed_config { kata_sha = codes "cd" })
      (quiet started.1)

-- With another digest pinned, the kernel of the old archive is booted.
other_pin : repinned.0 ≡ ok (codes "w/bootstrap-kernel-arm64")
unfolding resolve_bootstrap fetch_seed_kernel extract_seed_kernel seed_from is_seed_kernel
    write_seed_kernel base nonempty fetch_file cached_artifact_ok verify_sha read_file stat
    mkdir_all create open_empty append_file close_file rename update equal codes equal_fold
    download_with_retries attempts_from download_attempt copy_body cache_path join_path clean
    find_cut split_path dir after_prefix
other_pin = refl

apart : IsApart itself read_archive server seed_config
unfolding cache_path join_path clean codes split_path find_cut equal
apart = (
  unequal (seed_tarball seed_config) (seed_cache seed_config) refl,
  unequal (partial_path itself (seed_tarball seed_config)) (seed_cache seed_config) refl,
)

pinned : codes "ab" ≢ []
unfolding codes
pinned = ground arith

resolve_bootstrap-Triple_example :
    Triple
      (CacheIs itself read_archive server seed_config none)
      (resolve_bootstrap read_archive itself server seed_config)
      (Resolved itself read_archive server seed_config none)
      (CacheIsSafe itself read_archive server seed_config none)
resolve_bootstrap-Triple_example =
    resolve_bootstrap-Triple itself read_archive server seed_config none apart pinned
