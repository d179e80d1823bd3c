-- ===== src/World/Faults.antt =====
-- How many of the failures to come a call outside the process has met.
use line_stock_alert.Common.{
  ℕ, ◌+◌, suc, ◌≤◌, ◌≡◌, refl, Bool, true, false, List, [], ◌∷◌, arith, count,
}
use line_stock_alert.World.Monad.{World, M, err, external, next_fails, later_faults}
use line_stock_alert.World.Triples.{Post, Triple}

abbrev pub failures : List Bool → ℕ
failures fs = count (λ b. b) fs

-- Of at most `total` failures, at least `met` are behind.
abbrev pub HasMet : ℕ → ℕ → World → Type 0
HasMet total met w = failures w.faults + met ≤ total

met-one :
    (fs : List Bool) (total met : ℕ)
    → failures fs + met ≤ total
    → next_fails fs ≡ true
    → failures (later_faults fs) + suc met ≤ total
met-one [] total met h e = ground arith
met-one (b ∷ fs) total met h e = ground (arith, h)

met-none :
    (fs : List Bool) (total met : ℕ)
    → failures fs + met ≤ total
    → failures (later_faults fs) + met ≤ total
met-none [] total met h = h
met-none (true ∷ fs) total met h = omega (arith, h)
met-none (false ∷ fs) total met h = h

module _ {E A : Type 0} where
  Post-choice :
      (Q : A → World → Type 0) (R : E → World → Type 0) (b : Bool) (e : E) (m : M E A) (w : World)
      → (b ≡ true → R e w)
      → Post Q R (m w)
      → Post Q R (elim b [ true ↦ (err e, w) | false ↦ m w ])
  Post-choice Q R true e m w r q = r refl
  Post-choice Q R false e m w r q = q

  -- A call outside either runs, or fails and has met one failure more.
  pub counted_rule :
      {P : World → Type 0} {Q : A → World → Type 0} {R : E → World → Type 0} (total met : ℕ) (e : E)
      {m : M E A}
      → ((w : World) (fs : List Bool) → P w → P (record w { faults = fs }))
      → ((w : World) → P w → HasMet total (suc met) w → R e w)
      → Triple (λ w. P w × HasMet total met w) m Q R
      → Triple (λ w. P w × HasMet total met w) (external e m) Q R
  unfolding external
  counted_rule {Q = Q} {R = R} total met e {m = m} stable failing runs = record {
    at = λ w h.
        let fs = later_faults w.faults in
        let w' = record w { faults = fs } in
        let p = stable w fs h.0 in
        Post-choice Q R (next_fails w.faults) e m w'
          (λ b. failing w' p (met-one w.faults total met h.1 b))
          (runs.at w' (p, met-none w.faults total met h.1));
  }
