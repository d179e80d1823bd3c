-- ===== src/RichMenu.antt =====
-- backend/internal/services/rich_menu_service.go and
-- backend/internal/repositories/rich_menu_repository.go: publishing a rich menu. Every request to LINE
-- goes through the method request of the code: it may fail, and one that LINE accepts is in
-- `menu_requests` of the world.
pub mod Image
mod Scans
pub mod Encoding
pub mod Requests
pub mod Publishing
mod Tests
use line_stock_alert.Common.{
  ℕ, Bool, true, false, not, ◌&&◌, ◌||◌, String, Option, none, some, List, [], ◌∷◌, length, ltb,
  ◌==◌,
}
use line_stock_alert.Text.{Text, text, text_eq, is_empty}
use line_stock_alert.World.{
  World, M, Result, ok, err, pure, raise, raise_if, attempt, map_err, external, lift_result, ◌>>=◌,
  ◌>>◌, MenuRequest, create_menu, upload_image, set_default, delete_menu, AuditRow,
}
use line_stock_alert.Errors.{Error, Code, new_error}
use line_stock_alert.Repositories.{RepositoryError, failure}
use line_stock_alert.Repositories.Admin.{AdminActionContext, audit_row, insert_audit}
use line_stock_alert.RichMenu.Image.{
  Scan, image, malformed, out_of_range, out_of_rounds, rich_menu_image_info,
}

-- The scheme and host that url.Parse finds in FRONTEND_URL; the ID that encoding/json finds in the answer
-- to the request that creates a menu; and the text of an error. Nothing is found where they fail.
pub record Outside : Type 0 where
  pub parse_url : Text → Option (Text × Text)
  pub created_id : Option Text
  pub size_message : ℕ → ℕ → String

pub record RichMenuPublishResult : Type 0 where
  pub rich_menu_id : Text
  pub status : Text

abbrev pub accept : {E : Type 0} → MenuRequest → M E (Unit {0})
accept r w = (ok tt, record w { menu_requests = r ∷ w.menu_requests })

unfoldable pub request : MenuRequest → M (Unit {0}) (Unit {0})
request r = external tt (accept r)

abbrev pub non_empty : Option Text → Result (Unit {0}) Text
non_empty none = err tt
non_empty (some []) = err tt
non_empty (some (c ∷ id)) = ok (c ∷ id)

unfoldable pub create : Outside → M (Unit {0}) Text
create o = do request create_menu; lift_result (non_empty o.created_id)

abbrev pub line_rich_menu_error : Unit {0} → Error
line_rich_menu_error _ =
    new_error Code.line_rich_menu_provider_error "LINE could not publish the rich menu."

-- The menu is deleted when a later step fails; whether that succeeds is not looked at.
abbrev pub or_delete : Text → Result (Unit {0}) (Unit {0}) → M Error (Unit {0})
or_delete id (ok _) = pure tt
or_delete id (err e) = do
  attempt {E = Unit {0}} (request (delete_menu id))
  raise (line_rich_menu_error e)

-- A scan never ends in the last two results.
abbrev pub dimensions : Scan → Result Error (ℕ × ℕ)
dimensions (image type width height) = ok (width, height)
dimensions _ =
    err (new_error Code.invalid_rich_menu_image "The file is not a valid PNG or JPEG image.")

abbrev pub is_public : Option (Text × Text) → Bool
is_public none = false
is_public (some (scheme, host)) = text_eq scheme (text "https") && not (is_empty host)

abbrev pub max_rich_menu_image_bytes : ℕ
max_rich_menu_image_bytes = 1048576

-- RichMenuRepository.RecordPublish
unfoldable pub record_publish : AdminActionContext → Text → M RepositoryError (Unit {0})
record_publish action id =
    external failure (insert_audit (audit_row action (text "RICH_MENU_PUBLISHED") id []))

abbrev audit_error : RepositoryError → Error
audit_error _ =
    new_error Code.internal_server_error "Rich menu was published, but its audit record failed."

module _ (o : Outside) (frontend_url : Text) (action : AdminActionContext) where
  -- From the request that creates the menu on.
  unfoldable pub publish_menu : M Error RichMenuPublishResult
  publish_menu = do
    id ← map_err line_rich_menu_error (create o)
    attempt (request (upload_image id)) >>= or_delete id
    attempt (request (set_default id)) >>= or_delete id
    map_err audit_error (record_publish action id)
    pure (record { rich_menu_id = id; status = text "DEFAULT" })

  unfoldable pub publish : List ℕ → M Error RichMenuPublishResult
  publish bytes = do
    raise_if ((length bytes == 0) || ltb max_rich_menu_image_bytes (length bytes))
        (new_error Code.invalid_rich_menu_image "Rich menu image must be no larger than 1 MB.")
    size ← lift_result (dimensions (rich_menu_image_info bytes))
    raise_if (not (size.0 == 2500) || not (size.1 == 843))
        (new_error Code.invalid_rich_menu_image (o.size_message size.0 size.1))
    raise_if (not (is_public (o.parse_url frontend_url))) (
        new_error Code.invalid_frontend_url
          "FRONTEND_URL must be a public HTTPS URL before publishing a rich menu.")
    publish_menu
