-- ===== src/Builder/Seed/First.antt =====
-- The entry of the archive that the seed kernel is extracted from.
use ossein_kernel.Base.{
  All, Bool, Bool-cases, Bytes, List, Option, [], ap, false, inl, inr, none, refl, some, true, ◌++◌,
  ◌∷◌, ◌≡◌,
}
use ossein_kernel.System.{Node}
use ossein_kernel.System.Triples.{Triple}
use ossein_kernel.Tar.{TarEntry, TarStream}
use ossein_kernel.Builder.Seed.{is_seed_kernel, seed_from, seed_stream}
use ossein_kernel.Builder.Seed.Installed.{New, Old, Safe, write_seed_kernel-Triple}

-- The first entry that is a regular file named `vmlinux…` can be read, and has these contents.
pub record IsFirst (entries : List TarEntry) (kernel : Bytes) : Type 0 where
  pub before : List TarEntry
  pub hdr : TarEntry
  pub after : List TarEntry
  pub order : entries ≡ before ++ (hdr ∷ after)
  pub skipped : All (λ h. is_seed_kernel h ≡ false) before
  pub chosen : is_seed_kernel hdr ≡ true
  pub readable : hdr.readable ≡ true
  pub same : hdr.contents ≡ kernel

later :
    (hdr : TarEntry) (hdrs : List TarEntry) (kernel : Bytes)
    → is_seed_kernel hdr ≡ false
    → IsFirst hdrs kernel
    → IsFirst (hdr ∷ hdrs) kernel
later hdr hdrs kernel n f = record {
  before = hdr ∷ f.before;
  hdr = f.hdr;
  after = f.after;
  order = ap (λ es. hdr ∷ es) f.order;
  skipped = (n, f.skipped);
  chosen = f.chosen;
  readable = f.readable;
  same = f.same;
}

foremost :
    (hdr : TarEntry) (hdrs : List TarEntry)
    → is_seed_kernel hdr ≡ true
    → hdr.readable ≡ true
    → IsFirst (hdr ∷ hdrs) hdr.contents
foremost hdr hdrs e r = record {
  before = [];
  hdr = hdr;
  after = hdrs;
  order = refl;
  skipped = tt;
  chosen = e;
  readable = r;
  same = refl;
}

module _ (cache : Bytes) (was : Option Node) (Good : Bytes → Type 0) where
  seed_from-Triple :
      (complete : Bool) (entries : List TarEntry)
      → ((kernel : Bytes) → IsFirst entries kernel → Good kernel)
      → Triple
          (Old cache was Good)
          (seed_from cache complete entries)
          (λ _. New cache was Good)
          (Safe cache was Good)
  unfolding seed_from
  seed_from-Triple true [] good = record { run = λ s p. inl p }
  seed_from-Triple false [] good = record { run = λ s p. inl p }
  seed_from-Triple complete (hdr ∷ hdrs) good = elim (Bool-cases (is_seed_kernel hdr)) [
    | inl e ↦ rw e (
        write_seed_kernel-Triple cache was Good hdr
          (λ r. good hdr.contents (foremost hdr hdrs e r)))
    | inr e ↦ rw e (seed_from-Triple complete hdrs (λ k f. good k (later hdr hdrs k e f)))
  ]

  pub seed_stream-Triple :
      (o : Option TarStream)
      → ((stream : TarStream) (kernel : Bytes)
          → o ≡ some stream
          → IsFirst stream.entries kernel
          → Good kernel)
      → Triple
          (Old cache was Good)
          (seed_stream cache o)
          (λ _. New cache was Good)
          (Safe cache was Good)
  seed_stream-Triple none good = record { run = λ s p. inl p }
  seed_stream-Triple (some stream) good =
      seed_from-Triple stream.complete stream.entries (λ k f. good stream k refl f)
