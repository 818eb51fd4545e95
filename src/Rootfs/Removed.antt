-- ===== src/Rootfs/Removed.antt =====
-- `Build` leaves no image behind when it fails.
use ossein_kernel.Base.{
  Bool, Bool-cases, Option, [], false, inl, inr, none, refl, some, true, ℕ, ◌∷◌, ◌≡◌, ◌⊎◌,
}
use ossein_kernel.Rootfs.Writer.{
  History, M, Result, World, after_error, and_then, attempt, close_image, create_image, err, ok,
  on_error, remove_image,
}
use ossein_kernel.Rootfs.Unpack.{Source, build, build_image, fill_image, written_image}
use ossein_kernel.Tar.{TarStream}

-- The last two calls close the image and remove it.
pub record IsRemoved (h : History) : Type 0 where
  pub before : History
  pub last_calls : h ≡ remove_image ∷ close_image ∷ before

-- The last call closed the image, and worked.
pub record IsClosed (w : World) (h : History) : Type 0 where
  pub before : History
  pub last_call : h ≡ close_image ∷ before
  pub worked : w before close_image ≡ true

-- What is left after a result: a closed image; or none, which was never created, or could not be, or
-- was removed.
abbrev pub Leaves : World → ℕ → Result (Unit {0}) → History → Type 0
Leaves w size (ok u) h = IsClosed w h
Leaves w size (err e) h = (h ≡ []) ⊎ (h ≡ create_image size ∷ remove_image ∷ []) ⊎ IsRemoved h

closing-Leaves :
    (w : World) (size : ℕ) (h : History)
    → Leaves w size
        (on_error (attempt close_image) (remove_image ∷ []) w h).0
        (on_error (attempt close_image) (remove_image ∷ []) w h).1
closing-Leaves w size h = elim (Bool-cases (w h close_image)) [
  | inl e ↦ rw e (record { before = h; last_call = refl; worked = e })
  | inr e ↦ rw e (inr (inr (record { before = h; last_calls = refl })))
]

abbrev after_filling : M (Unit {0})
after_filling = on_error (attempt close_image) (remove_image ∷ [])

filled-Leaves :
    (w : World) (size : ℕ) (r : Result (Unit {0})) (h : History)
    → Leaves w size
        (and_then
          (λ _. after_filling)
          (after_error (close_image ∷ remove_image ∷ []) r h).0
          w
          (after_error (close_image ∷ remove_image ∷ []) r h).1).0
        (and_then
          (λ _. after_filling)
          (after_error (close_image ∷ remove_image ∷ []) r h).0
          w
          (after_error (close_image ∷ remove_image ∷ []) r h).1).1
filled-Leaves w size (ok u) h = closing-Leaves w size h
filled-Leaves w size (err e) h = inr (inr (record { before = h; last_calls = refl }))

fill_image-Leaves :
    (stream : TarStream) (src : Source) (size : ℕ) (w : World) (h : History)
    → Leaves w size (fill_image stream src size w h).0 (fill_image stream src size w h).1
unfolding fill_image
fill_image-Leaves stream src size w h =
    filled-Leaves w size (written_image stream src size w h).0 (written_image stream src size w h).1

build_image-Leaves :
    (stream : TarStream) (src : Source) (size : ℕ) (w : World)
    → Leaves w size (build_image stream src size w []).0 (build_image stream src size w []).1
unfolding build_image
build_image-Leaves stream src size w =
    elim (Bool-cases (w (remove_image ∷ []) (create_image size))) [
      | inl e ↦ rw e (fill_image-Leaves stream src size w (create_image size ∷ remove_image ∷ []))
      | inr e ↦ rw e (inr (inl refl))
    ]

-- After an error `Build` has not created an image, or has closed and removed it; after a success it
-- has closed it without an error. Whether a removal works is not known.
pub build-Leaves :
    (pinned : Bool) (pulled : Option TarStream) (src : Source) (size : ℕ) (w : World)
    → Leaves w size (build pinned pulled src size w []).0 (build pinned pulled src size w []).1
unfolding build
build-Leaves false pulled src size w = inl refl
build-Leaves true none src size w = inl refl
build-Leaves true (some stream) src size w = build_image-Leaves stream src size w
