-- ===== src/World/Clock.antt =====
-- Rules for calls that read the clock, from tables and a time that are known.
use line_stock_alert.Common.{ℕ, ◌≡◌, ap}
use line_stock_alert.World.{Db, World, read, write, read_clock}
use line_stock_alert.World.Triples.{Triple}

abbrev pub At : Db → ℕ → World → Type 0
At d n w = (w.db ≡ d) × (w.now ≡ n)

module _ {E : Type 0} {R : E → World → Type 0} {d : Db} {n : ℕ} where
  pub clock_known_rule : Triple (At d n) read_clock (λ t w. (t ≡ n) × At d n w) R
  unfolding read_clock
  clock_known_rule = record { at = λ w h. (h.1, h) }

  pub read_known_rule :
      {A : Type 0} (g : Db → A) → Triple (At d n) (read g) (λ a w. (a ≡ g d) × At d n w) R
  unfolding read
  read_known_rule g = record { at = λ w h. (ap g h.0, h) }

  pub write_known_rule : (f : Db → Db) → Triple (At d n) (write f) (λ _ w. At (f d) n w) R
  unfolding write
  write_known_rule f = record { at = λ w h. (ap f h.0, h.1) }
