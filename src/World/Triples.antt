-- ===== src/World/Triples.antt =====
-- Hoare triples of calls, with one rule for each way to build a call.
use line_stock_alert.Common.{◌≡◌, refl, ap, ◌∙◌, Bool, true, false, List, [], ◌∷◌}
use line_stock_alert.Text.{Text}
use line_stock_alert.World.Tables.{Db}
use line_stock_alert.World.Monad.{
  Result, ok, err, World, M, pure, raise, lift_result, read, write, read_clock, fresh_uuid,
  take_uuid, raise_if, continue, relabel, map_err, attempt, next_fails, later_faults, external,
  rollback_on_err, rollback, ◌>>=◌, transaction,
}

-- What a call ends in: `Q` of a value and the world, or `R` of an error and the world.
abbrev pub Post :
    {E A : Type 0} → (A → World → Type 0) → (E → World → Type 0) → Result E A × World → Type 0
Post Q R (ok a, w) = Q a w
Post Q R (err e, w) = R e w

pub record Triple {E A : Type 0} (P : World → Type 0) (m : M E A) (Q : A → World → Type 0)
    (R : E → World → Type 0) : Type 0 where
  pub at : (w : World) → P w → Post Q R (m w)

-- What holds of the world after a call, however it ends.
pub Post-either :
    {E A : Type 0} (P : World → Type 0) (r : Result E A × World)
    → Post (λ _ w. P w) (λ _ w. P w) r
    → P r.1
Post-either P (ok a, w) h = h
Post-either P (err e, w) h = h

Post-both :
    {E A : Type 0} (Q Q' : A → World → Type 0) (R R' : E → World → Type 0) (r : Result E A × World)
    → Post Q R r
    → Post Q' R' r
    → Post (λ a w. Q a w × Q' a w) R r
Post-both Q Q' R R' (ok a, w) h k = (h, k)
Post-both Q Q' R R' (err e, w) h k = h

-- A predicate that does not look at the faults to come.
abbrev pub IsStable : (World → Type 0) → Type 0
IsStable P = (w : World) (fs : List Bool) → P w → P (record w { faults = fs })

module _ {E A : Type 0} (Q : A → World → Type 0) (R : E → World → Type 0) where
  Post-weaken :
      (Q' : A → World → Type 0) (R' : E → World → Type 0) (r : Result E A × World)
      → ((a : A) (w : World) → Q a w → Q' a w)
      → ((e : E) (w : World) → R e w → R' e w)
      → Post Q R r
      → Post Q' R' r
  Post-weaken Q' R' (ok a, w) f g h = f a w h
  Post-weaken Q' R' (err e, w) f g h = g e w h

  Post-continue :
      {B : Type 0} (Q' : B → World → Type 0) (r : Result E A × World) (f : A → M E B)
      → Post Q R r
      → ((a : A) → Triple (Q a) (f a) Q' R)
      → Post Q' R (continue r f)
  Post-continue Q' (ok a, w) f h k = (k a).at w h
  Post-continue Q' (err e, w) f h k = h

  Post-external :
      (b : Bool) (e : E) (m : M E A) (w : World)
      → R e w
      → Post Q R (m w)
      → Post Q R (elim b [ true ↦ (err e, w) | false ↦ m w ])
  Post-external true e m w r q = r
  Post-external false e m w r q = q

  Post-relabel :
      {D : Type 0} (f : D → E) (r : Result D A × World)
      → Post Q (λ d. R (f d)) r
      → Post Q R (relabel f r)
  Post-relabel f (ok a, w) h = h
  Post-relabel f (err e, w) h = h

  Post-rollback :
      (d : Db) (r : Result E A × World)
      → ((e : E) (w : World) → w.db ≡ d → R e w)
      → Post Q (λ _ _. Unit {0}) r
      → Post Q R (rollback_on_err d r)
  Post-rollback d (ok a, w) k h = h
  Post-rollback d (err e, w) k h = k e (record w { db = d }) refl

module _ {E : Type 0} where
  Post-uuid :
      (P : World → Type 0) (R : E → World → Type 0) (e : E) (ids : List Text) (w : World)
      → ((v : World) (rest : List Text) → P v → P (record v { uuids = rest }))
      → ((v : World) → P v → R e v)
      → P w
      → Post (λ _ v. P v) R (take_uuid e ids w)
  Post-uuid P R e [] w s r h = r w h
  Post-uuid P R e (id ∷ ids) w s r h = s w ids h

module _ {E A : Type 0} {R : E → World → Type 0} where
  pub return_rule :
      {P : World → Type 0} {Q : A → World → Type 0} (a : A)
      → ((w : World) → P w → Q a w)
      → Triple P (pure a) Q R
  unfolding pure
  return_rule a k = record { at = k }

  pub lift_rule :
      {P : World → Type 0} (r : Result E A)
      → ((e : E) (w : World) → r ≡ err e → P w → R e w)
      → Triple P (lift_result r) (λ a w. (r ≡ ok a) × P w) R
  unfolding lift_result
  lift_rule (ok a) k = record { at = λ w h. (refl, h) }
  lift_rule (err e) k = record { at = λ w h. k e w refl h }

  pub read_rule :
      {d : Db} (g : Db → A) → Triple (λ w. w.db ≡ d) (read g) (λ a w. (a ≡ g d) × (w.db ≡ d)) R
  unfolding read
  read_rule g = record { at = λ w h. (ap g h, h) }

  pub raise_rule :
      {P : World → Type 0} (Q : A → World → Type 0) (e : E)
      → ((w : World) → P w → R e w)
      → Triple P (raise e) Q R
  unfolding raise
  raise_rule Q e k = record { at = λ w h. k w h }

module _ {E : Type 0} {R : E → World → Type 0} where
  pub write_rule : {d : Db} (f : Db → Db) → Triple (λ w. w.db ≡ d) (write f) (λ _ w. w.db ≡ f d) R
  unfolding write
  write_rule f = record { at = λ w h. ap f h }

  pub read_clock_rule : {P : World → Type 0} → Triple P read_clock (λ _ w. P w) R
  unfolding read_clock
  read_clock_rule = record { at = λ w h. h }

  pub fresh_uuid_rule :
      {P : World → Type 0} (e : E)
      → ((w : World) (ids : List Text) → P w → P (record w { uuids = ids }))
      → ((w : World) → P w → R e w)
      → Triple P (fresh_uuid e) (λ _ w. P w) R
  unfolding fresh_uuid
  fresh_uuid_rule {P = P} e s r = record { at = λ w h. Post-uuid P R e w.uuids w s r h }

pub raise_if_rule :
    {E : Type 0} {P : World → Type 0} {R : E → World → Type 0} (b : Bool) (e : E)
    → ((w : World) → b ≡ true → P w → R e w)
    → Triple P (raise_if b e) (λ _ w. (b ≡ false) × P w) R
unfolding raise_if
raise_if_rule true e k = record { at = λ w h. k w refl h }
raise_if_rule false e k = record { at = λ w h. (refl, h) }

module _ {E A : Type 0} {P : World → Type 0} {Q : A → World → Type 0} {R : E → World → Type 0} where
  infixl 1 ◌⟫◌
  pub ◌⟫◌ :
      {B : Type 0} {Q' : B → World → Type 0} {m : M E A} {f : A → M E B}
      → Triple P m Q R
      → ((a : A) → Triple (Q a) (f a) Q' R)
      → Triple P (m >>= f) Q' R
  unfolding ◌>>=◌
  ◌⟫◌ {Q' = Q'} {m = m} {f = f} h k = record {
    at = λ w p. Post-continue Q R Q' (m w) f (h.at w p) k;
  }

  pub consequence :
      {P' : World → Type 0} {Q' : A → World → Type 0} {R' : E → World → Type 0} {m : M E A}
      → ((w : World) → P' w → P w)
      → ((a : A) (w : World) → Q a w → Q' a w)
      → ((e : E) (w : World) → R e w → R' e w)
      → Triple P m Q R
      → Triple P' m Q' R'
  consequence {Q' = Q'} {R' = R'} {m = m} p f g h = record {
    at = λ w p'. Post-weaken Q R Q' R' (m w) f g (h.at w (p w p'));
  }

  pub both_rule :
      {P' : World → Type 0} {Q' : A → World → Type 0} {R' : E → World → Type 0} {m : M E A}
      → Triple P m Q R
      → Triple P' m Q' R'
      → Triple (λ w. P w × P' w) m (λ a w. Q a w × Q' a w) R
  both_rule {Q' = Q'} {R' = R'} {m = m} h k = record {
    at = λ w p. Post-both Q Q' R R' (m w) (h.at w p.0) (k.at w p.1);
  }

  -- Both ends of a call whose error is a value.
  pub attempt_rule :
      {F : Type 0} {R' : F → World → Type 0} {m : M E A}
      → Triple P m Q R
      → Triple P (attempt m) (λ r w. Post Q R (r, w)) R'
  unfolding attempt
  attempt_rule h = record { at = λ w p. h.at w p }

  -- A fact about values that holds before the call.
  pub with_fact : {F : Type 0} {m : M E A} → (F → Triple P m Q R) → Triple (λ w. F × P w) m Q R
  with_fact k = record { at = λ w h. (k h.0).at w h.1 }

  pub external_rule :
      (e : E) {m : M E A}
      → IsStable P
      → ((w : World) → P w → R e w)
      → Triple P m Q R
      → Triple P (external e m) Q R
  unfolding external
  external_rule e {m = m} s r h = record {
    at = λ w p.
        let w' = record w { faults = later_faults w.faults } in
        let p' = s w (later_faults w.faults) p in
        Post-external Q R (next_fails w.faults) e m w' (r w' p') (h.at w' p');
  }

  pub map_err_rule :
      {D : Type 0} (f : D → E) {m : M D A}
      → Triple P m Q (λ d. R (f d))
      → Triple P (map_err f m) Q R
  unfolding map_err
  map_err_rule f {m = m} h = record { at = λ w p. Post-relabel Q R f (m w) (h.at w p) }

-- Nothing is asked of a call whose error is a value.
pub ignore_rule :
    {E F A : Type 0} {P : World → Type 0} {R : F → World → Type 0} (m : M E A)
    → Triple P (attempt m) (λ _ _. Unit {0}) R
unfolding attempt
ignore_rule m = record { at = λ w p. tt }

module _ {E A : Type 0} {Q : A → World → Type 0} {R : E → World → Type 0} where
  -- A transaction ends in the post-state of its body, or in the tables with which it began.
  pub transaction_from_rule :
      {P : World → Type 0} (e : E) (d : Db) {body : M E A}
      → IsStable P
      → ((w : World) → P w → w.db ≡ d)
      → ((a : A) → IsStable (Q a))
      → ((e' : E) (w : World) → w.db ≡ d → R e' w)
      → Triple P body Q (λ _ _. Unit {0})
      → Triple P (transaction e body) Q R
  unfolding transaction rollback
  transaction_from_rule {P = P} e d {body = body} sp at_d s r h =
      let steps : M E A = external e (pure tt) >>= λ _. body >>= λ a. external e (pure a) in
      let inner : Triple P steps Q (λ _ _. Unit {0}) =
        external_rule {P = P} e sp (λ w p. tt) (return_rule {Q = λ _ w. P w} tt (λ w h. h))
        ⟫ (λ _. h ⟫ λ a. external_rule e (s a) (λ w q. tt) (return_rule a (λ w h. h))) in
      record {
        at = λ w p.
            Post-rollback Q R w.db (steps w) (λ e' w' q. r e' w' (q ∙ at_d w p)) (inner.at w p);
      }

  pub transaction_rule :
      (e : E) (d : Db) {body : M E A}
      → ((a : A) → IsStable (Q a))
      → ((e' : E) (w : World) → w.db ≡ d → R e' w)
      → Triple (λ w. w.db ≡ d) body Q (λ _ _. Unit {0})
      → Triple (λ w. w.db ≡ d) (transaction e body) Q R
  transaction_rule e d = transaction_from_rule e d (λ w fs p. p) (λ w p. p)
