-- ===== src/RichMenu/Publishing.antt =====
-- Publish of backend/internal/services/rich_menu_service.go: what LINE and the tables hold afterwards,
-- whatever requests and statements fail.
use line_stock_alert.Common.{
  ℕ, ◌≡◌, ◌≤◌, refl, true, false, not, ◌||◌, some, List, [], ◌∷◌, length, ltb, ◌==◌, arith, ◌<◌,
}
use line_stock_alert.Text.{Text, text}
use line_stock_alert.World.{World, ok}
use line_stock_alert.World.Triples.{
  Post, Triple, ◌⟫◌, consequence, with_fact, raise_if_rule, lift_rule,
}
use line_stock_alert.World.Faults.{failures}
use line_stock_alert.Repositories.Admin.{AdminActionContext, audit_row}
use line_stock_alert.RichMenu.Image.{
  Scan, ImageType, image, malformed, out_of_range, out_of_rounds, rich_menu_image_info,
}
use line_stock_alert.RichMenu.{Outside, dimensions, is_public, publish}
use line_stock_alert.RichMenu.Requests.{
  HasFailed, not_created, published, SentAfter, Fails, fails, publish_menu_rule,
}

dimensions-ok :
    (s : Scan) (p : ℕ × ℕ)
    → dimensions s ≡ ok p
    → (not (p.0 == 2500) || not (p.1 == 843)) ≡ false
    → (t : ImageType) × (s ≡ image t 2500 843)
dimensions-ok (image t w h) p e f = (t, ground (arith, e, f))
dimensions-ok malformed p e f = absurd (ground (arith, e))
dimensions-ok out_of_range p e f = absurd (ground (arith, e))
dimensions-ok out_of_rounds p e f = absurd (ground (arith, e))

-- What a Publish that succeeds has done.
pub record IsPublished (o : Outside) (url : Text) (action : AdminActionContext) (bytes : List ℕ)
    (id : Text) (before after : World) : Type 0 where
  pub sized : (0 < length bytes) × (length bytes ≤ 1048576)
  pub type : ImageType
  pub named : rich_menu_image_info bytes ≡ image type 2500 843
  pub link : is_public (o.parse_url url) ≡ true
  pub created : o.created_id ≡ some id
  pub requested : after.menu_requests ≡ published id before.menu_requests
  pub recorded : after.db ≡ record before.db {
    audit_logs = audit_row action (text "RICH_MENU_PUBLISHED") id [] ∷ before.db.audit_logs;
  }

-- A Publish that succeeds is of an image of 1 byte to 1 MiB whose header names 2500 × 843 pixels, with a
-- public HTTPS address; LINE has then accepted the menu, its image and its being the default one, in that
-- order, and the tables differ by one entry of the audit log. One that fails leaves every table as it was,
-- and has not made a menu the default one unless only the audit entry failed. A menu that LINE has created
-- and named, and that is not the default one, is deleted again unless a second call has failed besides
-- the one that the Publish stopped at.
pub publish_outcome :
    (o : Outside) (url : Text) (action : AdminActionContext) (bytes : List ℕ) (w : World)
    → Post
        (λ r. IsPublished o url action bytes r.rich_menu_id w)
        (λ e w'. (w'.db ≡ w.db) × HasFailed o w.menu_requests (failures w.faults) e.code w')
        (publish o url action bytes w)
unfolding publish
publish_outcome o url action bytes w =
    let d = w.db in
    let old = w.menu_requests in
    let n = failures w.faults in
    let run : Triple (SentAfter o d old n 0 old) (publish o url action bytes)
        (λ r. IsPublished o url action bytes r.rich_menu_id w) (Fails o d old n) =
      raise_if_rule ((length bytes == 0) || ltb 1048576 (length bytes)) _
        (λ v _ h. fails o d old n _ old 0 v not_created h)
      ⟫ λ _. with_fact λ sized.
        lift_rule (dimensions (rich_menu_image_info bytes))
          (λ e v _ h. fails o d old n e.code old 0 v not_created h)
        ⟫ λ size. with_fact λ named.
          raise_if_rule (not (size.0 == 2500) || not (size.1 == 843)) _
            (λ v _ h. fails o d old n _ old 0 v not_created h)
          ⟫ λ _. with_fact λ fits.
            raise_if_rule (not (is_public (o.parse_url url))) _
              (λ v _ h. fails o d old n _ old 0 v not_created h)
            ⟫ λ _. with_fact λ link.
              let is = dimensions-ok (rich_menu_image_info bytes) size named fits in
              consequence (λ v h. h)
                (λ r v h. record {
                  sized = (ground (arith, sized), ground (arith, sized));
                  type = is.0;
                  named = is.1;
                  link = ground (arith, link);
                  created = h.0;
                  requested = h.1.1;
                  recorded = h.1.0;
                })
                (λ e v h. h) (publish_menu_rule o d old n url action) in
    run.at w ((refl, refl), omega arith)
