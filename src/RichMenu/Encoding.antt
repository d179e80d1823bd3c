-- ===== src/RichMenu/Encoding.antt =====
-- backend/internal/services/rich_menu_service.go: what the reader finds in the header of a PNG, and in that
-- of a JPEG behind any segments that it has to skip.
use line_stock_alert.Text.{text_eq}
use mathlib.Core.List.{append_assoc}
use line_stock_alert.Common.{
  ℕ, zero, suc, ◌+◌, ◌*◌, ◌/◌, ◌%◌, ◌≤◌, ◌<◌, ◌≡◌, refl, sym, ap, ◌∙◌, Bool, true, false, List, [],
  ◌∷◌, ◌++◌, length, length-append, leb, ltb, arith, get_elem?, some, ◌||◌, if◌then◌else◌, All,
  Bool-cases, inl, inr,
}
use line_stock_alert.RichMenu.Image.{
  Scan, image, malformed, png, jpeg, read_byte, with_byte, with_uint16, with_uint32, sized, segment,
  round, scan_segments, is_standalone, is_frame, is_png, png_signature, png_header,
  rich_menu_image_info, with_height,
}

get_elem?-append :
    (pre suf : List ℕ) (k : ℕ) → get_elem? (pre ++ suf) (length pre + k) ≡ get_elem? suf k
get_elem?-append [] suf k = ap (get_elem? suf) (omega arith)
get_elem?-append (x ∷ pre) suf k =
    let e : suc (length pre) + k ≡ suc (length pre + k) = omega arith in
    rw e (get_elem?-append pre suf k)

module _ (pre suf : List ℕ) where
  with_byte-at :
      (k b i : ℕ) (f : ℕ → Scan)
      → i ≡ length pre + k
      → get_elem? suf k ≡ some b
      → with_byte (pre ++ suf) i f ≡ f b
  unfolding with_byte
  with_byte-at k b i f e h =
      ap (λ o. read_byte o f) (ap (get_elem? (pre ++ suf)) e ∙ get_elem?-append pre suf k ∙ h)

  with_uint16-at :
      (k high low i : ℕ) (f : ℕ → Scan)
      → i ≡ length pre + k
      → get_elem? suf k ≡ some high
      → get_elem? suf (k + 1) ≡ some low
      → with_uint16 (pre ++ suf) i f ≡ f (high * 256 + low)
  unfolding with_uint16
  with_uint16-at k high low i f e h h' =
      with_byte-at k high i _ e h ∙ with_byte-at (k + 1) low (i + 1) _ (omega (arith, e)) h'

pub record Segment : Type 0 where
  pub marker : ℕ
  pub payload : List ℕ

abbrev pub size : Segment → ℕ
size s = length s.payload + 2

-- A segment that the reader goes past.
pub record IsSkipped (s : Segment) : Type 0 where
  pub goes_on : is_standalone s.marker ≡ false
  pub no_frame : is_frame s.marker (size s) ≡ false
  pub fits : size s < 65536

abbrev pub header : ℕ → ℕ → List ℕ → List ℕ
header marker n rest = 255 ∷ marker ∷ n / 256 ∷ n % 256 ∷ rest

abbrev pub encode : List Segment → List ℕ → List ℕ
encode [] rest = rest
encode (s ∷ ss) rest = header s.marker (size s) (s.payload ++ encode ss rest)

-- The frame header of a JPEG.
pub record Frame : Type 0 where
  pub marker : ℕ
  pub precision : ℕ
  pub width : ℕ
  pub height : ℕ
  pub components : ℕ
  pub more : List ℕ

abbrev pub frame : Frame → List ℕ → List ℕ
frame f rest = header f.marker (8 + length f.more) (
    f.precision
    ∷ f.height / 256
    ∷ f.height % 256
    ∷ f.width / 256
    ∷ f.width % 256
    ∷ f.components
    ∷ (f.more ++ rest))

pub record IsFrame (f : Frame) : Type 0 where
  pub marker_is : (192 ≤ f.marker) × (f.marker ≤ 195)
  pub fits : 8 + length f.more < 65536

if_true : {b : Bool} {x : Scan} (y : Scan) → b ≡ true → (if b then x else y) ≡ x
if_true y e = rw e refl

if_false : {b : Bool} (x : Scan) {y : Scan} → b ≡ false → (if b then x else y) ≡ y
if_false x e = rw e refl

-- Up to the size of the segment at the end of `pre`.
module _ (again : ℕ → Scan) (pre : List ℕ) (marker n : ℕ) (rest : List ℕ)
    (goes_on : is_standalone marker ≡ false) where
  to_size :
      4 ≤ length (header marker n rest)
      → round again (pre ++ header marker n rest) (length pre) 255
        ≡ sized again (pre ++ header marker n rest) (length pre) marker n
  to_size long =
      let suf = header marker n rest in
      let bytes = pre ++ suf in
      let off = length pre in
      let room : ltb (length bytes) (off + 4) ≡ false =
        ground (arith, length-append pre suf, long) in
      let joined : n / 256 * 256 + n % 256 ≡ n = omega arith in
      with_byte-at pre suf 1 marker (off + 1) (segment again bytes off) refl refl
      ∙ (if_false (again (off + 2)) goes_on
          ∙ (if_false malformed room
              ∙ (with_uint16-at pre suf 2 (n / 256) (n % 256) (off + 2)
                    (sized again bytes off marker) refl refl refl
                  ∙ ap (sized again bytes off marker) joined)))

module _ (rounds : ℕ) (pre rest : List ℕ) where
  scan-frame :
      (f : Frame)
      → IsFrame f
      → scan_segments (suc rounds) (pre ++ frame f rest) (length pre) ≡ image jpeg f.width f.height
  unfolding scan_segments
  scan-frame f h =
      let suf = frame f rest in
      let bytes = pre ++ suf in
      let off = length pre in
      let n = 8 + length f.more in
      let long = length-append pre suf in
      let more = length-append f.more rest in
      let again = scan_segments rounds bytes in
      let room : ltb (off + 9) (length bytes) ≡ true = ground (arith, long) in
      let goes_on : is_standalone f.marker ≡ false = ground (arith, h.marker_is) in
      let fits : (ltb n 2 || ltb (length bytes) (off + 2 + n)) ≡ false =
        ground (arith, long, more) in
      let is : is_frame f.marker n ≡ true = ground (arith, h.marker_is) in
      let wide : f.width / 256 * 256 + f.width % 256 ≡ f.width = omega arith in
      let high : f.height / 256 * 256 + f.height % 256 ≡ f.height = omega arith in
      if_true malformed room
      ∙ (with_byte-at pre suf 0 255 off (round again bytes off) (omega arith) refl
          ∙ (to_size again pre f.marker n _ goes_on (omega arith)
              ∙ (if_false malformed fits
                  ∙ (if_true (again (off + 2 + n)) is
                      ∙ (with_uint16-at pre suf 7 (f.width / 256) (f.width % 256) (off + 7)
                            (with_height bytes (off + 5)) refl refl refl
                          ∙ (with_uint16-at pre suf 5 (f.height / 256) (f.height % 256) (off + 5)
                                (image jpeg (f.width / 256 * 256 + f.width % 256)) refl refl refl
                              ∙ (ap (λ w. image jpeg w (f.height / 256 * 256 + f.height % 256)) wide
                                  ∙ ap (image jpeg f.width) high)))))))

  scan-segment :
      (s : Segment)
      → IsSkipped s
      → 6 ≤ length rest
      → scan_segments
          (suc rounds)
          (pre ++ header s.marker (size s) (s.payload ++ rest))
          (length pre)
        ≡ scan_segments rounds
            (pre ++ header s.marker (size s) (s.payload ++ rest))
            (length pre + 2 + size s)
  unfolding scan_segments
  scan-segment s h behind =
      let suf = header s.marker (size s) (s.payload ++ rest) in
      let bytes = pre ++ suf in
      let off = length pre in
      let n = size s in
      let long = length-append pre suf in
      let more = length-append s.payload rest in
      let again = scan_segments rounds bytes in
      let room : ltb (off + 9) (length bytes) ≡ true = ground (arith, long, more, behind) in
      let fits : (ltb n 2 || ltb (length bytes) (off + 2 + n)) ≡ false =
        ground (arith, long, more) in
      if_true malformed room
      ∙ (with_byte-at pre suf 0 255 off (round again bytes off) (omega arith) refl
          ∙ (to_size again pre s.marker n _ h.goes_on (omega arith)
              ∙ (if_false malformed fits ∙ if_false _ h.no_frame)))

frame-long : (f : Frame) (rest : List ℕ) → 10 ≤ length (frame f rest)
frame-long f rest = omega arith

encode-long :
    (ss : List Segment) (rest : List ℕ) → length ss + length rest ≤ length (encode ss rest)
encode-long [] rest = omega arith
encode-long (s ∷ ss) rest =
    omega (arith, encode-long ss rest, length-append s.payload (encode ss rest))

scan-encode :
    (ss : List Segment) (f : Frame) (pre rest : List ℕ) (rounds : ℕ)
    → All IsSkipped ss
    → IsFrame f
    → length ss < rounds
    → scan_segments rounds (pre ++ encode ss (frame f rest)) (length pre)
      ≡ image jpeg f.width f.height
scan-encode ss f pre rest zero hs hf r = ground (arith, r)
scan-encode [] f pre rest (suc rounds) hs hf r = scan-frame rounds pre rest f hf
scan-encode (s ∷ ss) f pre rest (suc rounds) hs hf r =
    let tail = encode ss (frame f rest) in
    let head = header s.marker (size s) s.payload in
    let behind : 6 ≤ length tail =
      omega (arith, encode-long ss (frame f rest), frame-long f rest) in
    let past : length pre + 2 + size s ≡ length (pre ++ head) =
      omega (arith, length-append pre head) in
    let joined : pre ++ head ++ tail ≡ pre ++ (head ++ tail) = append_assoc pre head tail in
    scan-segment rounds pre tail s hs.0 behind
    ∙ (ap (scan_segments rounds (pre ++ (head ++ tail))) past
        ∙ (ap (λ bytes. scan_segments rounds bytes (length (pre ++ head))) (sym joined)
            ∙ scan-encode ss f (pre ++ head) rest rounds hs.1 hf (omega (arith, r))))

no_png : (rest : List ℕ) → is_png (255 ∷ rest) ≡ false
unfolding text_eq
no_png rest = elim (Bool-cases (leb 24 (suc (length rest)))) [
  | inl e ↦ rw e refl
  | inr e ↦ rw e refl
]

-- The dimensions of a JPEG are those of its first frame header, whatever segments stand before it, as long
-- as none of them is a frame header or standalone, and whatever follows.
pub read_jpeg :
    (ss : List Segment) (f : Frame) (rest : List ℕ)
    → All IsSkipped ss
    → IsFrame f
    → rich_menu_image_info (255 ∷ 216 ∷ encode ss (frame f rest)) ≡ image jpeg f.width f.height
unfolding rich_menu_image_info with_byte
read_jpeg ss f rest hs hf =
    let body = encode ss (frame f rest) in
    let bytes = 255 ∷ 216 ∷ body in
    let long = encode-long ss (frame f rest) in
    let enough : leb 4 (length bytes) ≡ true = ground (arith, long, frame-long f rest) in
    if_false _ (no_png (216 ∷ body))
    ∙ (if_true malformed enough
        ∙ scan-encode ss f (255 ∷ 216 ∷ []) rest (length bytes) hs hf (omega (arith, long)))

abbrev pub uint32 : ℕ → List ℕ → List ℕ
uint32 n rest = n / 16777216 ∷ n / 65536 % 256 ∷ n / 256 % 256 ∷ n % 256 ∷ rest

-- A PNG file up to the dimensions: the signature, the length and the type of the first chunk.
abbrev pub png_file : (a b c d width height : ℕ) → List ℕ → List ℕ
png_file a b c d width height rest =
    png_signature ++ (a ∷ b ∷ c ∷ d ∷ []) ++ png_header ++ uint32 width (uint32 height rest)

png_file-is_png :
    (a b c d : ℕ) (tail : List ℕ)
    → 8 ≤ length tail
    → is_png (png_signature ++ (a ∷ b ∷ c ∷ d ∷ []) ++ png_header ++ tail) ≡ true
unfolding text_eq
png_file-is_png a b c d tail long =
    let bytes = png_signature ++ (a ∷ b ∷ c ∷ d ∷ []) ++ png_header ++ tail in
    let e : leb 24 (length bytes) ≡ true = ground (arith, long) in rw e refl

-- The dimensions of a PNG are those of its header.
pub read_png :
    (a b c d width height : ℕ) (rest : List ℕ)
    → rich_menu_image_info (png_file a b c d width height rest) ≡ image png width height
unfolding rich_menu_image_info with_byte with_uint16 with_uint32
read_png a b c d width height rest =
    let bytes = png_file a b c d width height rest in
    let is = png_file-is_png a b c d (uint32 width (uint32 height rest)) (omega arith) in
    let join : (n : ℕ)
        → (n / 16777216 * 256 + n / 65536 % 256) * 65536 + (n / 256 % 256 * 256 + n % 256) ≡ n =
      λ n. omega arith in
    if_true _ is ∙ (ap (λ w. image png w _) (join width) ∙ ap (image png width) (join height))
