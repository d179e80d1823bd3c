-- ===== src/Lifecycle/Keeps.antt =====
-- Calls that only change the tables along a relation, with one rule for each way to build a call.
use line_stock_alert.Common.{◌≡◌, refl, Bool, true, false, List, [], ◌∷◌, subst, sym}
use line_stock_alert.Text.{Text}
use line_stock_alert.World.{
  Db, World, M, Result, ok, err, pure, raise, lift_result, read, write, read_clock, raise_if,
  record_sent, fresh_uuid, take_uuid, continue, relabel, map_err, attempt, next_fails, later_faults,
  external, rollback_on_err, rollback, ◌>>=◌, transaction, cache_get, cache_set, StockQuote,
}

pub record IsPreorder (R : Db → Db → Type 0) : Type 0 where
  pub same : (d : Db) → R d d
  pub trans : (a b c : Db) → R a b → R b c → R a c

-- The tables after a call are related to those before, however it ends.
pub record Keeps (R : Db → Db → Type 0) {E A : Type 0} (m : M E A) : Type 0 where
  pub at : (w : World) → R w.db (m w).1.db

after_external :
    {E A : Type 0} (R : Db → Db → Type 0) (e : E) (m : M E A) (b : Bool) (w : World)
    → R w.db w.db
    → R w.db (m w).1.db
    → R w.db (elim b as (λ _. Result E A × World) [ true ↦ (err e, w) | false ↦ m w ]).1.db
after_external R e m true w h k = h
after_external R e m false w h k = k

relabel-db : {E F A : Type 0} (f : E → F) (r : Result E A × World) → (relabel f r).1.db ≡ r.1.db
relabel-db f (ok a, w) = refl
relabel-db f (err e, w) = refl

after_rollback :
    {E A : Type 0} (R : Db → Db → Type 0) (d : Db) (r : Result E A × World)
    → R d d
    → R d r.1.db
    → R d (rollback_on_err d r).1.db
after_rollback R d (ok a, w) s h = h
after_rollback R d (err e, w) s h = s

after_take : {E : Type 0} (e : E) (ids : List Text) (w : World) → (take_uuid e ids w).1.db ≡ w.db
after_take e [] w = refl
after_take e (id ∷ ids) w = refl

pub write-Keeps :
    {E : Type 0} {R : Db → Db → Type 0} (f : Db → Db)
    → ((d : Db) → R d (f d))
    → Keeps R (write {E = E} f)
unfolding write
write-Keeps f h = record { at = λ w. h w.db }

module _ {R : Db → Db → Type 0} (o : IsPreorder R) where
  module _ {E A : Type 0} where
    pub pure-Keeps : (a : A) → Keeps R (pure {E = E} a)
    unfolding pure
    pure-Keeps a = record { at = λ w. o.same w.db }

    pub raise-Keeps : (e : E) → Keeps R (raise {A = A} e)
    unfolding raise
    raise-Keeps e = record { at = λ w. o.same w.db }

    pub lift-Keeps : (r : Result E A) → Keeps R (lift_result r)
    unfolding lift_result
    lift-Keeps r = record { at = λ w. o.same w.db }

    pub read-Keeps : (f : Db → A) → Keeps R (read {E = E} f)
    unfolding read
    read-Keeps f = record { at = λ w. o.same w.db }

    pub external-Keeps : (e : E) {m : M E A} → Keeps R m → Keeps R (external e m)
    unfolding external
    external-Keeps e {m = m} h = record {
      at = λ w.
          let w' = record w { faults = later_faults w.faults } in
          after_external R e m (next_fails w.faults) w' (o.same w.db) (h.at w');
    }

    pub attempt-Keeps : {F : Type 0} {m : M E A} → Keeps R m → Keeps R (attempt {F = F} m)
    unfolding attempt
    attempt-Keeps h = record { at = λ w. h.at w }

    pub map_err-Keeps : {F : Type 0} (f : E → F) {m : M E A} → Keeps R m → Keeps R (map_err f m)
    unfolding map_err
    map_err-Keeps f {m = m} h = record {
      at = λ w. subst (R w.db) (sym (relabel-db f (m w))) (h.at w);
    }

  module _ {E : Type 0} where
    pub clock-Keeps : Keeps R (read_clock {E = E})
    unfolding read_clock
    clock-Keeps = record { at = λ w. o.same w.db }

    pub raise_if-Keeps : (b : Bool) (e : E) → Keeps R (raise_if b e)
    unfolding raise_if
    raise_if-Keeps true e = record { at = λ w. o.same w.db }
    raise_if-Keeps false e = record { at = λ w. o.same w.db }

    pub sent-Keeps : (to message : Text) → Keeps R (record_sent {E = E} to message)
    unfolding record_sent
    sent-Keeps to message = record { at = λ w. o.same w.db }

    pub uuid-Keeps : (e : E) → Keeps R (fresh_uuid e)
    unfolding fresh_uuid
    uuid-Keeps e = record { at = λ w. subst (R w.db) (sym (after_take e w.uuids w)) (o.same w.db) }

    pub cache_get-Keeps : (e : E) (symbol : Text) → Keeps R (cache_get e symbol)
    unfolding cache_get
    cache_get-Keeps e symbol = external-Keeps e (record { at = λ w. o.same w.db })

    pub cache_set-Keeps : (e : E) (q : StockQuote) → Keeps R (cache_set e q)
    unfolding cache_set
    cache_set-Keeps e q = external-Keeps e (record { at = λ w. o.same w.db })

  module _ {E A B : Type 0} where
    after_continue :
        (d : Db) (r : Result E A × World) (f : A → M E B)
        → R d r.1.db
        → ((a : A) → Keeps R (f a))
        → R d (continue r f).1.db
    after_continue d (ok a, w) f h k = o.trans d w.db (f a w).1.db h ((k a).at w)
    after_continue d (err e, w) f h k = h

    pub bind-Keeps :
        {m : M E A} {f : A → M E B} → Keeps R m → ((a : A) → Keeps R (f a)) → Keeps R (m >>= f)
    unfolding ◌>>=◌
    bind-Keeps {m = m} {f = f} h k = record { at = λ w. after_continue w.db (m w) f (h.at w) k }

  pub transaction-Keeps :
      {E A : Type 0} (e : E) {body : M E A} → Keeps R body → Keeps R (transaction e body)
  unfolding transaction rollback
  transaction-Keeps e h =
      let steps =
        bind-Keeps (external-Keeps e (pure-Keeps tt))
          λ _. bind-Keeps h λ a. external-Keeps e (pure-Keeps a) in
      record { at = λ w. after_rollback R w.db _ (o.same w.db) (steps.at w) }
