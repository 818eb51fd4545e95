-- ===== src/Init/Build.antt =====
-- `runBuild` and `readEnvFile`, cmd/ossein-kernel/init/main.go.
use ossein_kernel.Base.{
  Bool, Bytes, List, Option, [], codes, if◌then◌else◌, none, some, true, ◌==◌, ◌∷◌,
}
use ossein_kernel.Init.{
  Answer, Call, M, attempt, bash, call_failed, close, create, done, exited, failed, not_exist,
  open_file, pure, read_file, request, sync, text, throw, ◌>>=◌, ◌>>◌,
}
use ossein_kernel.Init.Mounts.{kernel_share}
use ossein_kernel.Init.Network.{finally}
use ossein_kernel.Strings.{scan_lines, trim_space}
use ossein_kernel.Numbers.{pos, ℤ}

abbrev pub env_file : Bytes
env_file = codes "/kernel/build.env"

abbrev pub build_log : Bytes
build_log = codes "/kernel/build.log"

abbrev pub build_script_path : Bytes
build_script_path = codes "/kernel/build.sh"

abbrev pub minimal_path : Bytes
minimal_path = codes "PATH=/usr/local/sbin:/usr/local/bin:/usr/sbin:/usr/bin:/sbin:/bin"

abbrev pub skipped_line : Bytes → Bool
skipped_line [] = true
skipped_line (c ∷ s) = c == b'#'

unfoldable pub env_lines : List Bytes → List Bytes
env_lines [] = []
env_lines (l ∷ ls) =
    let rest = env_lines ls in if skipped_line (trim_space l) then rest else trim_space l ∷ rest

abbrev pub scanned_lines : Option (List Bytes) → M (List Bytes)
scanned_lines none = throw (call_failed (read_file env_file))
scanned_lines (some ls) = pure (minimal_path ∷ env_lines ls)

abbrev pub scanned : Answer → M (List Bytes)
scanned (text s) = scanned_lines (scan_lines s)
scanned _ = throw (call_failed (read_file env_file))

abbrev pub opened_env : Answer → M (List Bytes)
opened_env done = finally (request (read_file env_file) >>= scanned) (close env_file)
opened_env (failed not_exist) = pure (minimal_path ∷ [])
opened_env _ = throw (call_failed (open_file env_file))

unfoldable pub read_env_file : M (List Bytes)
read_env_file = request (open_file env_file) >>= opened_env

abbrev pub ended : Call → Answer → M ℤ
ended c (exited code) = pure code
ended c done = pure (pos 0)
ended c _ = throw (call_failed c)

-- The build's exit code. Its output goes to the console and to the log.
unfoldable pub run_build : M ℤ
run_build = read_env_file >>= λ env.
    attempt (create build_log)
    >> finally
        (finally (let c = bash build_script_path env kernel_share in request c >>= ended c)
          (sync build_log))
        (close build_log)
