-- ===== src/RichMenu/Scans.antt =====
-- backend/internal/services/rich_menu_service.go: reading the header of an image ends, and reads no byte
-- that is not there.
use line_stock_alert.Common.{
  ℕ, zero, suc, ◌+◌, ◌*◌, ◌≤◌, ◌<◌, ◌≡◌, refl, Bool, true, false, List, [], ◌∷◌, length, leb, ltb,
  ◌==◌, arith, get_elem?, some, ◌||◌, if◌then◌else◌, subst, sym,
}
use line_stock_alert.RichMenu.Image.{
  Scan, image, malformed, ImageType, with_byte, with_uint16, with_uint32, scan_segments, is_png,
  rich_menu_image_info, png, jpeg, is_standalone, is_frame, read_byte, sized, segment, round,
  first_byte, second_byte,
}

-- The header has been read, or refused.
pub data IsRead : Scan → Type 0 where
  names_image : (type : ImageType) (width height : ℕ) → IsRead (image type width height)
  is_refused : IsRead malformed

in_range : (bytes : List ℕ) (i : ℕ) → i < length bytes → (b : ℕ) × (get_elem? bytes i ≡ some b)
in_range [] i h = ground arith
in_range (x ∷ xs) zero h = (x, refl)
in_range (x ∷ xs) (suc i) h = in_range xs i (omega (arith, h))

with_byte-IsRead :
    (bytes : List ℕ) (i : ℕ) (k : ℕ → Scan)
    → i < length bytes
    → ((b : ℕ) → IsRead (k b))
    → IsRead (with_byte bytes i k)
unfolding with_byte
with_byte-IsRead bytes i k h f =
    let e = in_range bytes i h in subst (λ o. IsRead (read_byte o k)) (sym e.1) (f e.0)

with_uint16-IsRead :
    (bytes : List ℕ) (i : ℕ) (k : ℕ → Scan)
    → i + 1 < length bytes
    → ((b : ℕ) → IsRead (k b))
    → IsRead (with_uint16 bytes i k)
unfolding with_uint16
with_uint16-IsRead bytes i k h f =
    with_byte-IsRead bytes i _ (omega (arith, h))
      λ high. with_byte-IsRead bytes (i + 1) _ h λ low. f (high * 256 + low)

with_uint32-IsRead :
    (bytes : List ℕ) (i : ℕ) (k : ℕ → Scan)
    → i + 3 < length bytes
    → ((b : ℕ) → IsRead (k b))
    → IsRead (with_uint32 bytes i k)
unfolding with_uint32
with_uint32-IsRead bytes i k h f =
    with_uint16-IsRead bytes i _ (omega (arith, h))
      λ high. with_uint16-IsRead bytes (i + 2) _ (omega (arith, h)) λ low. f (high * 65536 + low)

if-IsRead :
    (b : Bool) {x y : Scan}
    → (b ≡ true → IsRead x)
    → (b ≡ false → IsRead y)
    → IsRead (if b then x else y)
if-IsRead true f g = f refl
if-IsRead false f g = g refl

module _ (again : ℕ → Scan) (bytes : List ℕ) (offset : ℕ) (inside : offset + 9 < length bytes)
    (later : (n : ℕ) → IsRead (again (offset + suc n))) where
  sized-IsRead : (marker size : ℕ) → IsRead (sized again bytes offset marker size)
  sized-IsRead marker size =
      if-IsRead (ltb size 2 || ltb (length bytes) (offset + 2 + size)) (λ _. is_refused)
        λ _.
          if-IsRead (is_frame marker size)
            (λ _. with_uint16-IsRead bytes (offset + 7) _ (omega (arith, inside)) λ width.
              with_uint16-IsRead bytes (offset + 5) _ (omega (arith, inside))
                (names_image jpeg width))
            (λ _.
              let e : offset + suc (size + 1) ≡ offset + 2 + size = omega arith in
              subst (λ n. IsRead (again n)) e (later (size + 1)))

  segment-IsRead : (marker : ℕ) → IsRead (segment again bytes offset marker)
  segment-IsRead marker =
      if-IsRead (is_standalone marker) (λ _. later 1)
        λ _.
          if-IsRead (ltb (length bytes) (offset + 4)) (λ _. is_refused)
            λ _.
              with_uint16-IsRead bytes (offset + 2) _ (omega (arith, inside)) (sized-IsRead marker)

  round-IsRead : (first : ℕ) → IsRead (round again bytes offset first)
  round-IsRead first =
      if-IsRead (first == 255)
        (λ _. with_byte-IsRead bytes (offset + 1) _ (omega (arith, inside)) segment-IsRead)
        (λ _. later 0)

scan_segments-IsRead :
    (rounds : ℕ) (bytes : List ℕ) (offset : ℕ)
    → length bytes < rounds + offset
    → IsRead (scan_segments rounds bytes offset)
unfolding scan_segments
scan_segments-IsRead zero bytes offset h =
    let e : ltb (offset + 9) (length bytes) ≡ false = ground (arith, h) in rw e is_refused
scan_segments-IsRead (suc rounds) bytes offset h =
    if-IsRead (ltb (offset + 9) (length bytes))
      (λ e.
        let inside : offset + 9 < length bytes = ground (arith, e) in
        with_byte-IsRead bytes offset _ (omega (arith, inside)) (
          round-IsRead (scan_segments rounds bytes) bytes offset inside
            λ n. scan_segments-IsRead rounds bytes (offset + suc n) (omega (arith, h))))
      (λ _. is_refused)

module _ (bytes : List ℕ) where
  second_byte-IsRead : (second : ℕ) → IsRead (second_byte bytes second)
  second_byte-IsRead second =
      if-IsRead (second == 216) (λ _. scan_segments-IsRead (length bytes) bytes 2 (omega arith))
        (λ _. is_refused)

  first_byte-IsRead : 4 ≤ length bytes → (first : ℕ) → IsRead (first_byte bytes first)
  first_byte-IsRead long first =
      if-IsRead (first == 255)
        (λ _. with_byte-IsRead bytes 1 _ (omega (arith, long)) second_byte-IsRead) (λ _. is_refused)

  -- Whatever the bytes are, reading the header ends within as many rounds as there are bytes, and reads no
  -- byte past the end.
  pub rich_menu_image_info-IsRead : IsRead (rich_menu_image_info bytes)
  unfolding rich_menu_image_info
  rich_menu_image_info-IsRead =
      if-IsRead (is_png bytes)
        (λ is.
          let long : 24 ≤ length bytes = ground (arith, is) in
          with_uint32-IsRead bytes 16 _ (omega (arith, long))
            λ width. with_uint32-IsRead bytes 20 _ (omega (arith, long)) (names_image png width))
        λ _.
          if-IsRead (leb 4 (length bytes))
            (λ long.
              with_byte-IsRead bytes 0 _ (ground (arith, long))
                (first_byte-IsRead (ground (arith, long))))
            (λ _. is_refused)
