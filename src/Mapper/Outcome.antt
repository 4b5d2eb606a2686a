-- ===== src/Mapper/Outcome.antt =====
-- What InitFromYAMLString of pkg/mapper/mapper.go gives: a result, an error or a panic.
use statsd_bridge.Prelude.{ℕ, Bool, true, false, Bytes}

-- the errors that InitFromYAMLString returns
pub data InitError : Type 0 where
  bad_yaml : InitError
  invalid_label : Bytes → InitError
  no_name : ℕ → InitError
  invalid_name invalid_match invalid_regex both_quantiles both_buckets : Bytes → InitError
  histogram_and_summary_options summary_and_histogram_options : InitError

-- a result, an error or a panic
pub data Outcome {ℓ} (A : Type ℓ) : Type ℓ where
  done : A → Outcome A
  failed : InitError → Outcome A
  panicked : Outcome A

infixl 5 ◌>>=◌ ◌>>◌
abbrev pub ◌>>=◌ {ℓ κ} : {A : Type ℓ} {B : Type κ} → Outcome A → (A → Outcome B) → Outcome B
done a >>= f = f a
failed e >>= f = failed e
panicked >>= f = panicked

abbrev pub ◌>>◌ {ℓ} : {B : Type ℓ} → Outcome (Unit {0}) → Outcome B → Outcome B
m >> k = m >>= λ _. k

abbrev pub guard : Bool → InitError → Outcome (Unit {0})
guard true e = done tt
guard false e = failed e

-- a warning to the logger, where there is a reason for one; without a logger that is a nil pointer
abbrev pub warn : Bool → Bool → Outcome (Unit {0})
warn true reason = done tt
warn false true = panicked
warn false false = done tt
