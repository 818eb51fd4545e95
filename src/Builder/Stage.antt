-- ===== src/Builder/Stage.antt =====
-- The environment that the host stages for the build: `sourceTarball` and the `build.env` of
-- `stageWorkdir`, cmd/ossein-kernel/main.go.
pub mod ReadBack
use ossein_kernel.Base.{Bytes, List, [], codes, ◌++◌, ◌∷◌}
use ossein_kernel.Strings.{join, trim_left}
use ossein_kernel.Paths.{base, join_path}
use ossein_kernel.Builder.Download.{cache_path}

-- The fields of `config` that name the build.
pub record BuildConfig : Type 0 where
  pub local_ver : Bytes
  pub debian_suite : Bytes
  pub apt_snapshot : Bytes
  pub source_sha : Bytes

unfoldable pub source_tarball : Bytes → BuildConfig → Bytes
source_tarball workdir cfg = cache_path (join_path workdir (codes "source.tar.xz")) cfg.source_sha

abbrev pub env_vars : Bytes → BuildConfig → List Bytes
env_vars workdir cfg =
    (codes "LOCALVERSION=-" ++ trim_left cfg.local_ver b'-')
    ∷ (codes "OSSEIN_DEBIAN_SUITE=" ++ cfg.debian_suite)
    ∷ (codes "OSSEIN_APT_SNAPSHOT=" ++ cfg.apt_snapshot)
    ∷ (codes "OSSEIN_SOURCE_TARBALL=" ++ base (source_tarball workdir cfg))
    ∷ []

-- The text of `build.env`.
unfoldable pub build_env : Bytes → BuildConfig → Bytes
build_env workdir cfg = join (env_vars workdir cfg) b'\n' ++ (b'\n' ∷ [])
