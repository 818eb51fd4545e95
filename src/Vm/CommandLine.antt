-- ===== src/Vm/CommandLine.antt =====
-- The host's command line as the guest's init reads it: `cmdline` of internal/vm/vm.go and
-- `cmdlineHas` of cmd/ossein-kernel/init/main.go.
use ossein_kernel.Base.{
  All, All-append, Bytes, List, [], ap, arith, codes, equal, refl, ◌++◌, ◌∙◌, ◌∷◌, ◌≡◌,
}
use ossein_kernel.Init.{History, World, ok, read_file, text}
use ossein_kernel.Init.Mounts.{cmdline_has, cmdline_path, has_field, llvm_token}
use ossein_kernel.Init.Main.{net_token}
use ossein_kernel.Strings.{join}
use ossein_kernel.Strings.Fields.{
  NoSpace, NoSpace-append, Word, Word-of_no_space, fields-join, no_space, no_space_sound,
}
use ossein_kernel.Vm.{VmConfig, boot_args, cmdline}

-- What the guest reads is the command line and a newline.
abbrev pub Presents : Bytes → World → Type 0
Presents line w = (h : History) → w h (read_file cmdline_path) ≡ text (line ++ (b'\n' ∷ []))

abbrev fixed_args : List Bytes
fixed_args =
    codes "console=hvc0"
    ∷ codes "panic=-1"
    ∷ codes "mitigations=off"
    ∷ codes "root=/dev/vda"
    ∷ codes "ro"
    ∷ codes "rootfstype=ext4"
    ∷ []

fixed_args-Word : All Word fixed_args
unfolding no_space codes
fixed_args-Word = (
  Word-of_no_space (codes "console=hvc0") (ground arith) refl,
  (
    Word-of_no_space (codes "panic=-1") (ground arith) refl,
    (
      Word-of_no_space (codes "mitigations=off") (ground arith) refl,
      (
        Word-of_no_space (codes "root=/dev/vda") (ground arith) refl,
        (
          Word-of_no_space (codes "ro") (ground arith) refl,
          (Word-of_no_space (codes "rootfstype=ext4") (ground arith) refl, tt),
        ),
      ),
    ),
  ),
)

boot_args-Word : (cfg : VmConfig) → NoSpace cfg.init → All Word cfg.extra → All Word (boot_args cfg)
unfolding no_space codes
boot_args-Word cfg i e =
    All-append Word fixed_args ((codes "init=" ++ cfg.init) ∷ cfg.extra) fixed_args-Word (
      (
        ground arith,
        NoSpace-append (codes "init=") cfg.init (no_space_sound (codes "init=") refl) i,
      ),
      e,
    )

cmdline_has-presented :
    (args : List Bytes) (token : Bytes) (w : World) (h : History)
    → All Word args
    → Presents (join args b' ') w
    → (cmdline_has token w h).0 ≡ ok (has_field args token)
unfolding cmdline_has
cmdline_has-presented args token w h a p =
    rw (p h) (ap (λ l. ok (has_field l token)) (fields-join args b'\n' a refl))

-- What the guest finds declared of the network and of the toolchain.
pub record Declares (w : World) (h : History) (extra : List Bytes) : Type 0 where
  pub net : (cmdline_has net_token w h).0 ≡ ok (has_field extra net_token)
  pub llvm : (cmdline_has llvm_token w h).0 ≡ ok (has_field extra llvm_token)

-- The guest finds `ossein.net=1` or `ossein.llvm=1` on its command line exactly when the host's
-- configuration has it among its extra arguments, if it reads the host's command line and a newline,
-- the path of the init has no white space in it, and no extra argument is empty or has any.
pub cmdline_has-cmdline :
    (cfg : VmConfig) (w : World) (h : History)
    → NoSpace cfg.init
    → All Word cfg.extra
    → Presents (cmdline cfg) w
    → Declares w h cfg.extra
unfolding cmdline
cmdline_has-cmdline cfg w h i e p = record {
  net =
      cmdline_has-presented (boot_args cfg) net_token w h (boot_args-Word cfg i e) p
      ∙ unfold has_field equal codes in refl;
  llvm =
      cmdline_has-presented (boot_args cfg) llvm_token w h (boot_args-Word cfg i e) p
      ∙ unfold has_field equal codes in refl;
}
