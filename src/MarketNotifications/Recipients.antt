-- ===== src/MarketNotifications/Recipients.antt =====
-- backend/internal/services/market_notification_worker.go: who a round of the worker notifies.
use line_stock_alert.Common.{
  ℕ, ◌+◌, ◌≡◌, refl, sym, subst, ap, ◌∙◌, Bool, false, ◌&&◌, Option, none, some, List, [], ◌∷◌,
  arith, count, filter, find?,
}
use line_stock_alert.Text.{Text, text_eq}
use line_stock_alert.Sort.Laws.{count-sort_by, count-map}
use line_stock_alert.World.{
  World, Db, Result, ok, ◌>>=◌, MarketEvent, read_clock, IdentityRow, UserRow, is_active,
}
use line_stock_alert.Repositories.Worker.{user_is_active}
use line_stock_alert.MarketHours.Session.{Zone, market_transition}
use line_stock_alert.MarketNotifications.{
  Key, event_key, is_claimed, set_nx, recipients, active_line_user_ids, in_text_order, push_text,
  push_all, announce, check,
}
use line_stock_alert.MarketNotifications.Once.{world_after}

-- What the messages of one transition make of those sent before.
abbrev announced : Text → List Text → List (Text × Text) → List (Text × Text)
announced message [] sent = sent
announced message (id ∷ ids) sent = announced message ids ((id, message) ∷ sent)

push_all-announced :
    (message : Text) (ids : List Text) (w : World)
    → push_all message ids (record w { faults = [] })
      ≡ (ok tt, record w { faults = []; sent = announced message ids w.sent })
unfolding push_all push_text ◌>>=◌
push_all-announced message [] w = refl
push_all-announced message (id ∷ ids) w =
    push_all-announced message ids (record w { sent = (id, message) ∷ w.sent })

announce-all :
    (message : MarketEvent → ℕ → Text) (event : MarketEvent) (at : ℕ) (w : World)
    → is_claimed (event_key (event, at)) w.market_keys ≡ false
    → announce message (some (event, at)) (record w { faults = [] }) ≡ (
      ok tt,
      record w {
        faults = [];
        market_keys = event_key (event, at) ∷ w.market_keys;
        sent = announced (message event at) (recipients w.db) w.sent;
      },
    )
unfolding announce set_nx active_line_user_ids ◌>>=◌
announce-all message event at w free = rw free (
    push_all-announced (message event at) (recipients w.db)
      (record w { market_keys = event_key (event, at) ∷ w.market_keys }))

check-all :
    (message : MarketEvent → ℕ → Text) (zone : Option Zone) (interval : ℕ) (w : World)
    (event : MarketEvent) (at : ℕ)
    → market_transition zone w.now (interval + 60) ≡ some (event, at)
    → is_claimed (event_key (event, at)) w.market_keys ≡ false
    → w.faults ≡ []
    → check message zone interval w ≡ (
      ok tt,
      record w {
        faults = [];
        market_keys = event_key (event, at) ∷ w.market_keys;
        sent = announced (message event at) (recipients w.db) w.sent;
      },
    )
unfolding check read_clock ◌>>=◌
check-all message tz interval w event at e free calm =
    ap (λ o. announce message o w) e
    ∙ (ap (λ fs. announce message (some (event, at)) (record w { faults = fs })) calm
        ∙ announce-all message event at w free)

-- The user of the identity is in the table and active.
abbrev pub of_active_user : Db → IdentityRow → Bool
of_active_user db i = elim (find? (λ (r : UserRow). text_eq r.id i.user_id) db.users) [
  | none ↦ false
  | some r ↦ is_active r.status
]

-- The key is taken, no table has changed, and of the messages that any test `q` accepts there are as many
-- more as identities of active users to whom the message is one.
pub record HasReached (message : Text) (key : Key) (before after : World) : Type 0 where
  pub kept : after.db ≡ before.db
  pub claimed : after.market_keys ≡ key ∷ before.market_keys
  pub reached :
      (q : Text × Text → Bool)
      → count q after.sent
        ≡ count q before.sent
          + count
              (λ (i : IdentityRow). of_active_user before.db i && q (i.provider_user_id, message))
              before.db.identities

count-announced :
    (q : Text × Text → Bool) (message : Text) (ids : List Text) (sent : List (Text × Text))
    → count q (announced message ids sent) ≡ count q sent + count (λ id. q (id, message)) ids
count-announced q message [] sent = omega arith
count-announced q message (id ∷ ids) sent =
    ground (arith, count-announced q message ids ((id, message) ∷ sent))

count-filter :
    {A : Type 0} (p q : A → Bool) (xs : List A) → count q (filter p xs) ≡ count (λ x. p x && q x) xs
count-filter p q [] = refl
count-filter p q (x ∷ xs) = ground (arith, count-filter p q xs)

count-recipients :
    (q : Text → Bool) (db : Db)
    → count q (recipients db)
      ≡ count (λ (i : IdentityRow). of_active_user db i && q i.provider_user_id) db.identities
unfolding recipients
count-recipients q db =
    count-sort_by q in_text_order _
    ∙ (count-map q (λ (i : IdentityRow). i.provider_user_id) _
        ∙ count-filter (λ (i : IdentityRow). user_is_active db i.user_id)
            (λ i. q i.provider_user_id) db.identities)

-- Where nothing fails and the key of the transition is free, a round takes the key and changes no table,
-- and the messages that it sends are the message of the transition, once for each LINE identity of an
-- active user, and no others.
pub check_reaches_all :
    (message : MarketEvent → ℕ → Text) (zone : Option Zone) (interval : ℕ) (w : World)
    (event : MarketEvent) (at : ℕ)
    → market_transition zone w.now (interval + 60) ≡ some (event, at)
    → is_claimed (event_key (event, at)) w.market_keys ≡ false
    → w.faults ≡ []
    → HasReached
        (message event at)
        (event_key (event, at))
        w
        (world_after (check message zone interval) w)
check_reaches_all message zone interval w event at e free calm =
    let ids = recipients w.db in
    subst
      (λ (r : Result ⊥ (Unit {0}) × World).
        HasReached (message event at) (event_key (event, at)) w r.1)
      (sym (check-all message zone interval w event at e free calm))
      (record {
        kept = refl;
        claimed = refl;
        reached = λ q.
            count-announced q (message event at) ids w.sent
            ∙ ap (λ n. count q w.sent + n) (count-recipients (λ id. q (id, message event at)) w.db);
      })
