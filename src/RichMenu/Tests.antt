-- ===== src/RichMenu/Tests.antt =====
-- backend/internal/services/rich_menu_service.go on small images.
use line_stock_alert.Common.{ℕ, ◌≡◌, refl, false, true, some, List, [], ◌∷◌, arith}
use line_stock_alert.Text.{text, text_eq}
use line_stock_alert.World.{World, create_menu, upload_image, set_default, delete_menu, ◌>>=◌}
use line_stock_alert.Examples.{world, by_root}
use line_stock_alert.Repositories.Admin.{audit_row, insert_audit}
use line_stock_alert.RichMenu.Image.{
  image, malformed, jpeg, with_byte, with_uint16, with_uint32, scan_segments, rich_menu_image_info,
}
use line_stock_alert.RichMenu.Scans.{IsRead, rich_menu_image_info-IsRead}
use line_stock_alert.RichMenu.Encoding.{
  Segment, IsSkipped, Frame, IsFrame, encode, frame, png_file, read_jpeg,
}
use line_stock_alert.RichMenu.{Outside, publish, publish_menu, create, request, record_publish}
use line_stock_alert.RichMenu.Publishing.{IsPublished, publish_outcome}

abbrev banner : List ℕ
banner = png_file 0 0 0 13 2500 843 []

-- A comment, and the frame header of a picture of 2500 × 843 pixels
abbrev comment : Segment
comment = record { marker = 254; payload = 72 ∷ 105 ∷ [] }

abbrev start : Frame
start = record {
  marker = 192;
  precision = 8;
  width = 2500;
  height = 843;
  components = 3;
  more = [];
}

comment-IsSkipped : IsSkipped comment
comment-IsSkipped = record { goes_on = refl; no_frame = refl; fits = omega arith }

start-IsFrame : IsFrame start
start-IsFrame = record { marker_is = (omega arith, omega arith); fits = omega arith }

read_jpeg_example :
    rich_menu_image_info (255 ∷ 216 ∷ encode (comment ∷ []) (frame start [])) ≡ image jpeg 2500 843
read_jpeg_example = read_jpeg (comment ∷ []) start [] (comment-IsSkipped, tt) start-IsFrame

-- A segment that says to be longer than the file
cut_off :
    rich_menu_image_info (255 ∷ 216 ∷ 255 ∷ 225 ∷ 1 ∷ 0 ∷ 0 ∷ 0 ∷ 0 ∷ 0 ∷ 0 ∷ 0 ∷ 0 ∷ [])
    ≡ malformed
unfolding with_byte with_uint16 with_uint32 scan_segments rich_menu_image_info text_eq
cut_off = refl

rich_menu_image_info-IsRead_example :
    IsRead (rich_menu_image_info (255 ∷ 216 ∷ 255 ∷ 225 ∷ 255 ∷ 255 ∷ []))
rich_menu_image_info-IsRead_example =
    rich_menu_image_info-IsRead (255 ∷ 216 ∷ 255 ∷ 225 ∷ 255 ∷ 255 ∷ [])

abbrev outside : Outside
outside = record {
  parse_url = λ url. some (text "https", url);
  created_id = some (text "rm");
  size_message = λ w h. "";
}

abbrev after : World
after = record world {
  db = record world.db {
    audit_logs =
        audit_row by_root (text "RICH_MENU_PUBLISHED") (text "rm") [] ∷ world.db.audit_logs;
  };
  menu_requests = set_default (text "rm") ∷ upload_image (text "rm") ∷ create_menu ∷ [];
}

publish_outcome_example : IsPublished outside (text "x") by_root banner (text "rm") world after
unfolding publish publish_menu create request record_publish insert_audit rich_menu_image_info
    with_byte with_uint16 with_uint32 text_eq ◌>>=◌
publish_outcome_example = publish_outcome outside (text "x") by_root banner world

-- LINE refuses the image: the menu is deleted again.
refused_image :
    (publish outside
      (text "x")
      by_root
      banner
      (record world { faults = false ∷ true ∷ [] })).1.menu_requests
    ≡ delete_menu (text "rm") ∷ create_menu ∷ []
unfolding publish publish_menu create request record_publish insert_audit rich_menu_image_info
    with_byte with_uint16 with_uint32 text_eq ◌>>=◌
refused_image = refl
