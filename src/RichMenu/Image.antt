-- ===== src/RichMenu/Image.antt =====
-- richMenuImageInfo of backend/internal/services/rich_menu_service.go: the type and the dimensions that
-- the header of an image names. Bytes are numbers; a read past the end, at which Go panics, and the end
-- of the rounds are results of their own.
use line_stock_alert.Common.{
  ℕ, zero, suc, ◌+◌, ◌*◌, Bool, ◌&&◌, ◌||◌, Option, none, some, List, [], ◌∷◌, length, get_elem?,
  take, drop, leb, ltb, ◌==◌, if◌then◌else◌,
}
use line_stock_alert.Text.{text_eq}

pub data ImageType : Type 0 where
  png jpeg : ImageType

pub data Scan : Type 0 where
  image : (type : ImageType) (width height : ℕ) → Scan
  malformed : Scan
  out_of_range : Scan
  out_of_rounds : Scan

abbrev pub read_byte : Option ℕ → (ℕ → Scan) → Scan
read_byte none k = out_of_range
read_byte (some b) k = k b

-- `data[i]`
unfoldable pub with_byte : List ℕ → ℕ → (ℕ → Scan) → Scan
with_byte bytes i k = read_byte (get_elem? bytes i) k

-- binary.BigEndian.Uint16(data[i : i+2])
unfoldable pub with_uint16 : List ℕ → ℕ → (ℕ → Scan) → Scan
unfolding with_byte
with_uint16 bytes i k =
    with_byte bytes i λ high. with_byte bytes (i + 1) λ low. k (high * 256 + low)

-- binary.BigEndian.Uint32(data[i : i+4])
unfoldable pub with_uint32 : List ℕ → ℕ → (ℕ → Scan) → Scan
unfolding with_uint16
with_uint32 bytes i k =
    with_uint16 bytes i λ high. with_uint16 bytes (i + 2) λ low. k (high * 65536 + low)

abbrev pub is_standalone : ℕ → Bool
is_standalone marker = (marker == 216) || (marker == 217)

abbrev pub is_frame : ℕ → ℕ → Bool
is_frame marker size = leb 192 marker && leb marker 195 && leb 7 size

abbrev pub with_height : List ℕ → ℕ → ℕ → Scan
with_height bytes i width = with_uint16 bytes i (image jpeg width)

module _ (again : ℕ → Scan) (bytes : List ℕ) (offset : ℕ) where
  -- A segment of the given size; `again` goes on at another offset.
  abbrev pub sized : ℕ → ℕ → Scan
  sized marker size =
      if ltb size 2 || ltb (length bytes) (offset + 2 + size)
      then malformed
      else if is_frame marker size
      then with_uint16 bytes (offset + 7) (with_height bytes (offset + 5))
      else again (offset + 2 + size)

  abbrev pub segment : ℕ → Scan
  segment marker =
      if is_standalone marker
      then again (offset + 2)
      else if ltb (length bytes) (offset + 4)
      then malformed
      else with_uint16 bytes (offset + 2) (sized marker)

  abbrev pub round : ℕ → Scan
  round first = if first == 255 then with_byte bytes (offset + 1) segment else again (offset + 1)

-- The loop over the segments of a JPEG.
unfoldable pub scan_segments : ℕ → List ℕ → ℕ → Scan
scan_segments zero bytes offset =
    if ltb (offset + 9) (length bytes) then out_of_rounds else malformed
scan_segments (suc rounds) bytes offset =
    if ltb (offset + 9) (length bytes)
    then with_byte bytes offset (round (scan_segments rounds bytes) bytes offset)
    else malformed

abbrev pub png_signature : List ℕ
png_signature = 137 ∷ 80 ∷ 78 ∷ 71 ∷ 13 ∷ 10 ∷ 26 ∷ 10 ∷ []

-- `IHDR`
abbrev pub png_header : List ℕ
png_header = 73 ∷ 72 ∷ 68 ∷ 82 ∷ []

abbrev pub is_png : List ℕ → Bool
is_png bytes =
    leb 24 (length bytes)
    && text_eq (take 8 bytes) png_signature
    && text_eq (take 4 (drop 12 bytes)) png_header

abbrev pub second_byte : List ℕ → ℕ → Scan
second_byte bytes second = if second == 216 then scan_segments (length bytes) bytes 2 else malformed

abbrev pub first_byte : List ℕ → ℕ → Scan
first_byte bytes first = if first == 255 then with_byte bytes 1 (second_byte bytes) else malformed

abbrev pub jpeg_info : List ℕ → Scan
jpeg_info bytes = if leb 4 (length bytes) then with_byte bytes 0 (first_byte bytes) else malformed

abbrev pub png_info : List ℕ → ℕ → Scan
png_info bytes width = with_uint32 bytes 20 (image png width)

unfoldable pub rich_menu_image_info : List ℕ → Scan
rich_menu_image_info bytes =
    if is_png bytes then with_uint32 bytes 16 (png_info bytes) else jpeg_info bytes
