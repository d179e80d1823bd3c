-- ===== src/Config/Checks.antt =====
-- LoadConfig of backend/internal/utils/config.go: what a configuration that is accepted
-- is known to be.
use line_stock_alert.Common.{◌≡◌, refl, Bool, true, false, ◌||◌, arith, any, ltb}
use line_stock_alert.Common.Int.{pos, leb_ℤ}
use line_stock_alert.Text.{Text, is_empty, byte_length}
use line_stock_alert.World.{Result, ok, err}
use line_stock_alert.Config.{
  ConfigError, Config, ◌>>=◌, refuse_if, required_values, validated, load_config,
}

-- What holds of a value, where there is one.
abbrev Held : {A : Type 0} → (A → Type 0) → Result ConfigError A → Type 0
Held P (ok a) = P a
Held P (err e) = Unit

record Ensures {A : Type 0} (P : A → Type 0) (r : Result ConfigError A) : Type 0 where
  holds : Held P r

module _ {A B : Type 0} {P : B → Type 0} where
  bind-Held :
      (r : Result ConfigError A) (f : A → Result ConfigError B)
      → ((a : A) → Ensures P (f a))
      → Held P (r >>= f)
  unfolding ◌>>=◌
  bind-Held (ok a) f h = (h a).holds
  bind-Held (err e) f h = tt

  bind_rule :
      (r : Result ConfigError A) {f : A → Result ConfigError B}
      → ((a : A) → Ensures P (f a))
      → Ensures P (r >>= f)
  bind_rule r {f = f} h = record { holds = bind-Held r f h }

module _ {B : Type 0} {P : B → Type 0} where
  refuse-Held :
      (b : Bool) (e : ConfigError) (f : Unit {0} → Result ConfigError B)
      → ((a : Unit {0}) → b ≡ false → Ensures P (f a))
      → Held P (refuse_if b e >>= f)
  unfolding refuse_if ◌>>=◌
  refuse-Held true e f h = tt
  refuse-Held false e f h = (h tt refl).holds

  refuse_rule :
      (b : Bool) (e : ConfigError) {f : Unit {0} → Result ConfigError B}
      → ((a : Unit {0}) → b ≡ false → Ensures P (f a))
      → Ensures P (refuse_if b e >>= f)
  refuse_rule b e {f = f} h = record { holds = refuse-Held b e f h }

pub record IsChecked (cfg : Config) : Type 0 where
  pub batch_positive : leb_ℤ cfg.alert_worker_batch_size (pos 0) ≡ false
  pub concurrency_positive : leb_ℤ cfg.alert_worker_concurrency (pos 0) ≡ false
  pub limit_positive : leb_ℤ cfg.alert_limit (pos 0) ≡ false
  pub none_missing : any is_empty (required_values cfg) ≡ false
  pub access_secret_long : ltb (byte_length cfg.jwt_access_secret) 32 ≡ false
  pub refresh_secret_long : ltb (byte_length cfg.jwt_refresh_secret) 32 ≡ false
  pub state_secret_long : ltb (byte_length cfg.line_state_secret) 32 ≡ false

or_false : (a b : Bool) → (a || b) ≡ false → (a ≡ false) × (b ≡ false)
or_false true b h = ground (arith, h)
or_false false b h = (refl, h)

validated-IsChecked : (cfg : Config) → Ensures IsChecked (validated cfg)
unfolding validated
validated-IsChecked cfg = refuse_rule _ _ λ _ workers. refuse_rule _ _ λ _ limit.
    refuse_rule _ _ λ _ missing. refuse_rule _ _ λ _ secrets. refuse_rule _ _ λ _ state.
      let w = or_false (leb_ℤ cfg.alert_worker_batch_size (pos 0)) _ workers in
      let s = or_false (ltb (byte_length cfg.jwt_access_secret) 32) _ secrets in
      record {
        holds = record {
          batch_positive = w.0;
          concurrency_positive = w.1;
          limit_positive = limit;
          none_missing = missing;
          access_secret_long = s.0;
          refresh_secret_long = s.1;
          state_secret_long = state;
        };
      }

load-Ensures : (env : Text → Text) → Ensures IsChecked (load_config env)
unfolding load_config
load-Ensures env = bind_rule _ λ a. bind_rule _ λ b. bind_rule _ λ c. bind_rule _ λ d.
    bind_rule _ λ e. bind_rule _ λ f. bind_rule _ λ g.
      bind_rule _ λ h.
        bind_rule _ λ i. bind_rule _ λ j. bind_rule _ λ k. bind_rule _ λ l. validated-IsChecked _

-- A configuration that is loaded has a positive alert limit, batch size and concurrency, no required
-- value that is empty, and secrets of at least 32 bytes for both tokens and the LINE state.
pub load_config-IsChecked :
    (env : Text → Text) (cfg : Config) → load_config env ≡ ok cfg → IsChecked cfg
load_config-IsChecked env cfg e = (rw e at (load-Ensures env)).holds
