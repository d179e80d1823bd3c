-- ===== src/Lifecycle/Runs.antt =====
-- Runs of the machine of alerts: they compose, and UPDATE … WHERE is a step of it.
use line_stock_alert.Common.{◌≡◌, refl, Bool, true, List, [], ◌∷◌, Bool-cases, inl, inr}
use line_stock_alert.World.{Db, AlertRow}
use line_stock_alert.Rows.{update_where, update_if}
use line_stock_alert.Lifecycle.{
  stay, IsMoved, Moves, none_left, next_moves, Step, change, Run, done, then_step,
}
use line_stock_alert.Lifecycle.Keeps.{IsPreorder}

abbrev pub Runs : Bool → Db → Db → Type 0
Runs deletes before after = Run deletes before.alerts after.alerts

pub trans-Run :
    (b : Bool) (rows next last : List AlertRow)
    → Run b rows next
    → Run b next last
    → Run b rows last
trans-Run b rows next last r (done _) = r
trans-Run b rows next last r (then_step _ mid _ s t) =
    then_step rows mid last (trans-Run b rows next mid r s) t

pub Runs-IsPreorder : (b : Bool) → IsPreorder (Runs b)
Runs-IsPreorder b = record {
  same = λ d. done d.alerts;
  trans = λ d e f. trans-Run b d.alerts e.alerts f.alerts;
}

pub single-Run : (b : Bool) (rows next : List AlertRow) → Step b rows next → Run b rows next
single-Run b rows next s = then_step rows rows next (done rows) s

unmoved : (a : AlertRow) → IsMoved a a
unmoved a = record { id = refl; owner = refl; status = stay a.status }

update_if-IsMoved :
    (p : AlertRow → Bool) (f : AlertRow → AlertRow) (a : AlertRow)
    → (p a ≡ true → IsMoved a (f a))
    → IsMoved a (update_if p f a)
update_if-IsMoved p f a h = elim (Bool-cases (p a)) [
  | inl e ↦ rw e (h e)
  | inr e ↦ rw e (unmoved a)
]

update_where-Moves :
    (p : AlertRow → Bool) (f : AlertRow → AlertRow) (rows : List AlertRow)
    → ((a : AlertRow) → p a ≡ true → IsMoved a (f a))
    → Moves rows (update_where p f rows)
update_where-Moves p f [] h = none_left
update_where-Moves p f (a ∷ rows) h =
    next_moves a _ rows _ (update_if-IsMoved p f a (h a)) (update_where-Moves p f rows h)

-- An UPDATE that moves every row it changes.
pub update_where-Run :
    (b : Bool) (p : AlertRow → Bool) (f : AlertRow → AlertRow) (rows : List AlertRow)
    → ((a : AlertRow) → p a ≡ true → IsMoved a (f a))
    → Run b rows (update_where p f rows)
update_where-Run b p f rows h =
    single-Run b rows (update_where p f rows) (change rows _ (update_where-Moves p f rows h))
