-- ===== src/Tests/Run.antt =====
-- A run of the builder from nothing, and one whose boot test fails. A file is its own digest here.
mod Untested
mod Delivered
use ossein_kernel.Base.{
  Bytes, Option, [], codes, equal, false, if◌then◌else◌, none, refl, some, true, ◌||◌, ◌∷◌, ◌≡◌,
}
use ossein_kernel.Numbers.{atoi, value}
use ossein_kernel.Paths.{base, clean, dir, join_path, nonempty, split_path}
use ossein_kernel.Strings.{
  after_prefix, before_suffix, find_cut, join, split, trim_left, space_width, trim_from,
  trim_space_right,
}
use ossein_kernel.Sorting.{bytes_le, insert_sorted, sort}
use ossein_kernel.System.{
  M, Node, Result, System, append_file, chmod, close_file, create, file_mode, mkdir_all, ok,
  open_empty, read_file, regular, remove, remove_all, rename, stat, update, ◌>>◌,
}
use ossein_kernel.System.Frame.{append_file-Frame, create-Frame, ◌then◌}
use ossein_kernel.Rootfs.{disk_path}
use ossein_kernel.Rootfs.Writer.{History, disk_write}
use ossein_kernel.Rootfs.Unpack.{
  build, build_image, embed_init, fill_image, unpack_entries, unpack_tar, write_reg,
}
use ossein_kernel.Rootfs.Image.{image_after}
use ossein_kernel.Tar.{TarStream, regular_file}
use ossein_kernel.Vm.{
  after_calls, cmdline, configure_console, configure_nat, configure_shares, configure_storage,
  new_vm, share_devices,
}
use ossein_kernel.Vm.Loops.{
  changed, is_running, is_starting, is_stopped, is_stopping, reported, start_loop, wait_loop,
}
use ossein_kernel.Builder.Stamp.{stamp_says}
use ossein_kernel.Builder.Boot.{VmRun, boot, boot_and_pass, read_status}
use ossein_kernel.Builder.Download.{
  Network, attempts_from, body, cache_path, cached_artifact_ok, copy_body, download_attempt,
  download_with_retries, eof, equal_fold, fetch_file, verify_sha,
}
use ossein_kernel.Builder.Seed.{
  extract_seed_kernel, fetch_seed_kernel, is_seed_kernel, resolve_bootstrap, seed_from,
  write_seed_kernel,
}
use ossein_kernel.Builder.Disk.{build_disk, prepare_rootfs, renew_rootfs, rootfs_cache_key}
use ossein_kernel.Builder.Promote.{copy_executable, copy_file, promote, smoke_test}
use ossein_kernel.Builder.Guest.{boot_guest}
use ossein_kernel.Builder.Promote.OnlyTested.{WritesOnly}
use ossein_kernel.Builder.Run.{Around, RunConfig, build_kernel, run_builder, stat_directory}
use ossein_kernel.Builder.Stage.{build_env, source_tarball}
use ossein_kernel.Builder.Toolchain.{
  count, entry_target, llvm_entry_target, prune_llvm_path, root_of,
}
use ossein_kernel.Builder.Toolchain.Extract.{
  extract_entries, extract_llvm, prepare_llvm, renew_llvm, write_llvm_entry, write_llvm_file,
}
use ossein_kernel.Builder.Workdir.{copy_patches, stage_patches, stage_workdir}

abbrev pub itself : Bytes → Bytes
itself s = s

abbrev pub overwrite : Bytes → Bytes → M (Unit {0})
overwrite path s = create path >> append_file path s

pub overwrite-WritesOnly : WritesOnly overwrite
overwrite-WritesOnly path s p h = create-Frame path p h then append_file-Frame path s p h

abbrev pub archive : Bytes → TarStream
archive name = record {
  entries =
      record {
        entry_name = name;
        kind = regular_file;
        link_name = [];
        mode = 0o755;
        uid = 0;
        gid = 0;
        contents = codes "x";
        readable = true;
      }
      ∷ [];
  complete = true;
}

abbrev pub unzstd : Bytes → Option TarStream
unzstd s = some (archive (codes "opt/vmlinux-6.1"))

abbrev pub unxz : Bytes → Option TarStream
unxz s = some (archive (codes "L/clang"))

pub written_last : History → Bytes
written_last [] = []
written_last (disk_write path s ∷ h) = s
written_last (c ∷ h) = written_last h

abbrev pub serving : Bytes → Network
serving s = record {
  reply = λ n. body (s ∷ []) eof;
  interrupted_in = λ n. false;
  interrupted_before = λ n. false;
}

abbrev pub passing : VmRun
passing = record {
  starts = true;
  start_events = changed is_starting ∷ changed is_running ∷ [];
  wait_events = reported is_stopping ∷ reported is_stopped ∷ [];
  status_file = some (codes "0");
  last_state = is_stopped;
  can_stop = false;
}

abbrev pub stalled_vm : VmRun
stalled_vm = record passing { starts = false }

abbrev pub guest_output : (Bytes → Option Node) → Bytes → Option Node
guest_output fs p =
    if equal p (codes "k/kernel/kernel-arm64")
    then some (regular (codes "new") 0o600)
    else if equal p (codes "k/kernel/perf-arm64")
    then some (regular (codes "perf") 0o755)
    else if equal p (codes "k/kernel/status")
    then some (regular (codes "0") 0o600)
    else fs p

-- The guest of the boot test leaves its log too.
abbrev pub smoke_output : (Bytes → Option Node) → Bytes → Option Node
smoke_output fs p =
    if equal p (codes "k/smoke/build.log")
    then some (regular (codes "log") 0o600)
    else if equal p (codes "k/smoke/status")
    then some (regular (codes "0") 0o600)
    else fs p

abbrev pub around : VmRun → Around
around smoke = record {
  absolute = some (codes "out");
  seed_net = serving (codes "ab");
  source_net = serving (codes "cd");
  llvm_net = serving (codes "ef");
  surroundings = record {
    pinned = true;
    pulled = some (record { entries = []; complete = true });
    init_whole = true;
    world = λ h c. true;
    disk = written_last;
    image_mode = 0o666;
  };
  taken = λ n p. false;
  build_script = codes "make";
  cpus = 4;
  works = λ c. true;
  build_vm = record { events = passing; leaves = guest_output };
  smoke_vm = record { events = smoke; leaves = smoke_output };
}

abbrev pub config : RunConfig
config = record {
  scratch = codes "k";
  init = codes "i";
  image = codes "d";
  kata_sha = codes "ab";
  llvm_sha = codes "ef";
  kernel_patches = codes "p";
  inputs = record {
    kernel_config = codes "c";
    patches = some (codes "p/2.patch" ∷ codes "p/1.patch" ∷ []);
  };
  build = record {
    local_ver = codes "v";
    debian_suite = codes "s";
    apt_snapshot = codes "t";
    source_sha = codes "cd";
  };
}

abbrev checkout : System
checkout = record {
  files = λ p.
      if equal p (codes "out")
      then some (regular (codes "old") 0o600)
      else if equal p (codes "p/1.patch")
          || equal p (codes "p/2.patch")
          || equal p (codes "i")
          || equal p (codes "c")
      then some (regular p 0o600)
      else none;
  faults = [];
}

abbrev cold_run : Result (Unit {0}) × System
cold_run = run_builder itself unzstd unxz overwrite (around passing) config checkout

cold :
    (cold_run.0 ≡ ok tt)
    × (cold_run.1.files (codes "out") ≡ some (regular (codes "new") 0o600))
    × (cold_run.1.files (codes "perf-arm64") ≡ some (regular (codes "perf") 0o755))
    × (cold_run.1.files (codes "k/kernel/patches/1.patch")
        ≡ some (regular (codes "p/1.patch") file_mode))
unfolding run_builder stat_directory build_kernel boot_guest stage_workdir stage_patches
    copy_patches sort insert_sorted bytes_le build_env source_tarball join trim_left promote
    smoke_test copy_file copy_executable chmod remove remove_all prepare_rootfs rootfs_cache_key
    stamp_says renew_rootfs build_disk image_after build build_image fill_image unpack_tar
    unpack_entries embed_init write_reg disk_path clean join_path find_cut read_file stat mkdir_all
    create open_empty append_file close_file rename update equal codes written_last trim_space_right
    trim_from space_width resolve_bootstrap fetch_seed_kernel extract_seed_kernel seed_from
    is_seed_kernel write_seed_kernel base nonempty split fetch_file cached_artifact_ok verify_sha
    equal_fold download_with_retries attempts_from download_attempt copy_body cache_path split_path
    dir after_prefix before_suffix prepare_llvm renew_llvm extract_llvm extract_entries
    llvm_entry_target entry_target prune_llvm_path count root_of write_llvm_entry write_llvm_file
    boot_and_pass new_vm after_calls configure_storage configure_console configure_nat
    configure_shares share_devices boot start_loop wait_loop read_status atoi value cmdline
cold = (refl, refl, refl, refl)
