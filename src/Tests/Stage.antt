-- ===== src/Tests/Stage.antt =====
-- The environment that is staged for a build.
use mathlib.Core.Path.{subst}
use ossein_kernel.Strings.Fields.{Word-of_no_space, no_space}
use ossein_kernel.Base.{All, Bytes, [], arith, codes, false, length, refl, sym, true, ◌<◌, ◌∷◌, ◌≡◌}
use ossein_kernel.Strings.{max_token, trim_left}
use ossein_kernel.Paths.{base, clean, join_path}
use ossein_kernel.Init.{Answer, Call, World, done, ok, read_file, text}
use ossein_kernel.Init.Build.{minimal_path, read_env_file, skipped_line}
use ossein_kernel.Builder.Download.{cache_path}
use ossein_kernel.Builder.Stage.{BuildConfig, build_env, env_vars, source_tarball}
use ossein_kernel.Builder.Stage.ReadBack.{Plain, read_env_file-build_env}

abbrev pinned : BuildConfig
pinned = record {
  local_ver = codes "-v";
  debian_suite = codes "sid";
  apt_snapshot = codes "2026Z";
  source_sha = [];
}

abbrev staged_answer : Call → Answer
staged_answer (read_file path) = text (build_env (codes "w") pinned)
staged_answer c = done

abbrev staged_world : World
staged_world h c = staged_answer c

variables :
    env_vars (codes "w") pinned
    ≡ codes "LOCALVERSION=-v"
      ∷ codes "OSSEIN_DEBIAN_SUITE=sid"
      ∷ codes "OSSEIN_APT_SNAPSHOT=2026Z"
      ∷ codes "OSSEIN_SOURCE_TARBALL=source.tar.xz"
      ∷ []
unfolding codes trim_left base source_tarball cache_path join_path clean
variables = refl

plain : (s : Bytes) → no_space s ≡ true → skipped_line s ≡ false → length s < max_token → Plain s
plain [] n k l = absurd (ground arith)
plain (c ∷ s) n k l = record {
  word = Word-of_no_space (c ∷ s) (ground arith) n;
  kept = k;
  short = l;
}

variables-Plain : All Plain (env_vars (codes "w") pinned)
unfolding codes no_space
variables-Plain = subst (All Plain) (sym variables) (
  plain (codes "LOCALVERSION=-v") refl refl (omega arith),
  (
    plain (codes "OSSEIN_DEBIAN_SUITE=sid") refl refl (omega arith),
    (
      plain (codes "OSSEIN_APT_SNAPSHOT=2026Z") refl refl (omega arith),
      (plain (codes "OSSEIN_SOURCE_TARBALL=source.tar.xz") refl refl (omega arith), tt),
    ),
  ),
)

read_env_file-build_env_example :
    (read_env_file staged_world []).0 ≡ ok (minimal_path ∷ env_vars (codes "w") pinned)
read_env_file-build_env_example =
    read_env_file-build_env (codes "w") pinned staged_world [] variables-Plain
      (record { opens = λ h. refl; reads = λ h. refl })
