-- ===== src/Builder/Seed/Installed.antt =====
-- The seed kernel in the cache is whole, and comes from an archive with the digest that is wanted.
use ossein_kernel.Base.{
  Bool, Bytes, Option, [], ap, codes, false, inl, inr, refl, some, take, true, ℕ, ◌++◌, ◌∙◌, ◌≡◌,
  ◌⊎◌,
}
use ossein_kernel.Paths.{dir}
use ossein_kernel.System.{Node, appended, create, file_mode, regular, update}
use ossein_kernel.System.Frame.{update-other, update-same}
use ossein_kernel.System.Triples.{Files, Holds, Triple, mkdir_all-Triple, ◌and◌}
use ossein_kernel.Tar.{TarEntry}
use ossein_kernel.System.Triples.Installed.{Installed, moved-Installed}
use ossein_kernel.System.Triples.Calls.{
  append_file-Triple, moved_files, open_empty-Triple, rename-Triple,
}
use ossein_kernel.Builder.Seed.{write_seed_kernel}
use ossein_kernel.Builder.Download.Closing.{closed_after-Triple}
use ossein_kernel.Builder.Download.Elsewhere.{partial_path-ne}
use ossein_kernel.Builder.Toolchain.Extract.{whole_or_error}

module _ (cache : Bytes) (was : Option Node) (Good : Bytes → Type 0) where
  abbrev pub Old : Files → Type 0
  Old fs = fs cache ≡ was

  abbrev pub New : Files → Type 0
  New fs = Installed Good (fs cache)

  abbrev pub Safe : Files → Type 0
  Safe fs = Old fs ⊎ New fs

  abbrev partial : Bytes
  partial = cache ++ codes ".part"

  abbrev Begun : Files → Type 0
  Begun fs = Old fs × Holds [] (fs partial)

  abbrev Wrote : Bytes → Files → Type 0
  Wrote text fs = Old fs × Holds text (fs partial)

  abbrev Whole : TarEntry → Files → Type 0
  Whole hdr fs = Wrote hdr.contents fs × (hdr.readable ≡ true)

  begun : (fs : Files) (m : ℕ) → Old fs → Begun (update fs partial (some (regular [] m)))
  begun fs m p = (
    update-other fs partial cache (some (regular [] m)) (partial_path-ne cache) ∙ p,
    record { mode = m; is_file = update-same fs partial (some (regular [] m)) },
  )

  wrote :
      (text more : Bytes) (fs : Files)
      → Wrote text fs
      → Wrote (text ++ more) (update fs partial (appended (fs partial) more))
  wrote text more fs (o, h) = (
    update-other fs partial cache (appended (fs partial) more) (partial_path-ne cache) ∙ o,
    record {
      mode = h.mode;
      is_file =
          update-same fs partial (appended (fs partial) more) ∙ ap (λ n. appended n more) h.is_file;
    },
  )

  still_old :
      (text : Bytes) (fs : Files) (n : ℕ)
      → Begun fs
      → Safe (update fs partial (appended (fs partial) (take n text)))
  still_old text fs n p = inl (wrote [] (take n text) fs p).0

  whole_or_error-Triple :
      (text : Bytes) (b : Bool)
      → Triple (Wrote text) (whole_or_error b) (λ _ fs. Wrote text fs × (b ≡ true)) Safe
  whole_or_error-Triple text true = record { run = λ s p. (p, refl) }
  whole_or_error-Triple text false = record { run = λ s p. inl p.0 }

  installed :
      (hdr : TarEntry) (fs : Files) (file : Node)
      → (hdr.readable ≡ true → Good hdr.contents)
      → Whole hdr fs
      → fs partial ≡ some file
      → New (moved_files partial cache file fs)
  installed hdr fs file good ((o, h), e) f =
      moved-Installed partial cache file fs (partial_path-ne cache) f
        (record { text = hdr.contents; good = good e; holds = h })

  pub write_seed_kernel-Triple :
      (hdr : TarEntry)
      → (hdr.readable ≡ true → Good hdr.contents)
      → Triple Old (write_seed_kernel cache hdr) (λ _. New) Safe
  unfolding write_seed_kernel create
  write_seed_kernel-Triple hdr good =
      mkdir_all-Triple (λ fs p. inl p) (dir cache)
      and open_empty-Triple {P = Old} {Q = Begun} partial file_mode (λ fs p. inl p) begun
      and closed_after-Triple partial (λ fs p. inl p.0.0)
          (append_file-Triple partial hdr.contents (wrote [] hdr.contents) (still_old hdr.contents)
            and whole_or_error-Triple hdr.contents hdr.readable)
      and rename-Triple partial cache (λ fs p. inl p.0.0)
          (λ fs file p. installed hdr fs file good p) (λ fs p. inr p)
