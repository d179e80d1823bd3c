-- ===== src/Middleware/Requests.antt =====
-- backend/middleware/auth.go and line_signature.go: what a request that gets through has shown.
use line_stock_alert.Text.Laws.{text_eq_iff}
use line_stock_alert.Common.{
  ◌≤◌, ◌≡◌, refl, ap, inl, inr, true, false, Option, none, some, List, [], ◌∷◌, arith, Bool-cases,
  length, ltb, ◌^◌,
}
use line_stock_alert.Text.{Text, Unicode, text, is_empty, fields}
use line_stock_alert.World.{ok}
use line_stock_alert.Middleware.{
  AccessClaims, Identity, folds_to_bearer, is_text, of_subject, of_claims, of_parts, require_auth,
  max_line_webhook_body, signed_by, verify_line_signature, signed_body,
}

-- What RequireAuth has seen of a request that it lets through.
pub record IsBearer (u : Unicode) (parse : Text → Option AccessClaims) (header : Text)
    (id : Identity) : Type 0 where
  pub scheme : Text
  pub token : Text
  pub claims : AccessClaims
  pub split : fields u header ≡ scheme ∷ token ∷ []
  pub bearer : folds_to_bearer scheme ≡ true
  pub valid : parse token ≡ some claims
  pub access : is_text (text "access") claims.token_type ≡ true
  pub subject : claims.sub ≡ some id.user_id
  pub nonempty : is_empty id.user_id ≡ false
  pub role : claims.role ≡ id.user_role

of_subject-ok :
    (sub role : Option Text) (id : Identity)
    → of_subject sub role ≡ ok id
    → (sub ≡ some id.user_id) × (is_empty id.user_id ≡ false) × (role ≡ id.user_role)
of_subject-ok none role id e = ground (arith, e)
of_subject-ok (some s) role id e = elim (Bool-cases (is_empty s)) [
  | inl h ↦ ground (arith, h, e)
  | inr h ↦
      let same : s ≡ id.user_id = ground (arith, h, e) in
      let same_role : role ≡ id.user_role = ground (arith, h, e) in
      (ap some same, rw same at h, same_role)
]

of_claims-ok :
    (u : Unicode) (parse : Text → Option AccessClaims) (header scheme token : Text)
    (o : Option AccessClaims) (id : Identity)
    → fields u header ≡ scheme ∷ token ∷ []
    → folds_to_bearer scheme ≡ true
    → parse token ≡ o
    → of_claims o ≡ ok id
    → IsBearer u parse header id
of_claims-ok u parse header scheme token none id f b p e = ground (arith, e)
of_claims-ok u parse header scheme token (some c) id f b p e =
    elim (Bool-cases (is_text (text "access") c.token_type)) [
      | inr h ↦ ground (arith, h, e)
      | inl h ↦
          let s = of_subject-ok c.sub c.role id (rw (h, of_claims) at e) in
          record {
            scheme = scheme;
            token = token;
            claims = c;
            split = f;
            bearer = b;
            valid = p;
            access = h;
            subject = s.0;
            nonempty = s.1;
            role = s.2;
          }
    ]

of_parts-ok :
    (u : Unicode) (parse : Text → Option AccessClaims) (header : Text) (parts : List Text)
    (id : Identity)
    → fields u header ≡ parts
    → of_parts parse parts ≡ ok id
    → IsBearer u parse header id
unfolding of_parts
of_parts-ok u parse header [] id f e = ground (arith, e)
of_parts-ok u parse header (a ∷ []) id f e = ground (arith, e)
of_parts-ok u parse header (a ∷ b ∷ c ∷ r) id f e = ground (arith, e)
of_parts-ok u parse header (scheme ∷ token ∷ []) id f e =
    elim (Bool-cases (folds_to_bearer scheme)) [
      | inr h ↦ ground (arith, h, e)
      | inl h ↦
          of_claims-ok u parse header scheme token (parse token) id f h refl (rw (h, of_parts) at e)
    ]

-- A request gets past RequireAuth only with an Authorization header of two fields, the first of which
-- is Bearer in any case and the second a token that the parser accepts, whose type is access and whose
-- subject is not empty; the subject and the role of the token are then those of the context.
pub require_auth-IsBearer :
    (u : Unicode) (parse : Text → Option AccessClaims) (header : Text) (id : Identity)
    → require_auth u parse header ≡ ok id
    → IsBearer u parse header id
unfolding require_auth
require_auth-IsBearer u parse header id e = of_parts-ok u parse header (fields u header) id refl e

signed-ok :
    (mac : Text → Text) (decode : Text → Option Text) (header : Text) (body : Option Text)
    (b : Text)
    → signed_body mac decode header body ≡ ok b
    → (body ≡ some b) × (length b ≤ 2 ^ 20) × (signed_by (mac b) (decode header) ≡ true)
signed-ok mac decode header none b e = ground (arith, e)
signed-ok mac decode header (some c) b e =
    elim (Bool-cases (ltb max_line_webhook_body (length c))) [
      | inl long ↦ ground (arith, long, e)
      | inr short ↦ elim (Bool-cases (signed_by (mac c) (decode header))) [
        | inr bad ↦ ground (arith, short, bad, e)
        | inl good ↦
            let same : c ≡ b = ground (arith, short, good, e) in
            let fits : length c ≤ 2 ^ 20 = ground (arith, short) in
            (ap some same, rw same at fits, rw same at good)
      ]
    ]

signed_by-some : (m : Text) (o : Option Text) → signed_by m o ≡ true → o ≡ some m
signed_by-some m none h = ground (arith, h)
signed_by-some m (some s) h = ap some ((text_eq_iff s m).0 h)

-- A request gets past VerifyLineSignature only with a body that was read, of at most 1 MiB, whose HMAC
-- is what the signature header decodes to; and the handler then has that body.
pub verify_line_signature_mac :
    (mac : Text → Text) (decode : Text → Option Text) (header : Text) (body : Option Text)
    (b : Text)
    → verify_line_signature mac decode header body ≡ ok b
    → (body ≡ some b) × (length b ≤ 2 ^ 20) × (decode header ≡ some (mac b))
unfolding verify_line_signature
verify_line_signature_mac mac decode header body b e =
    let h = signed-ok mac decode header body b e in
    (h.0, h.1, signed_by-some (mac b) (decode header) h.2)
