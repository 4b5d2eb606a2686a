-- ===== src/Mapper/Safe.antt =====
-- Results of InitFromYAMLString: a result with a property, or an error, but no panic.
use statsd_bridge.Prelude.{Bool, true, false, ◌≡◌, refl}
use mathlib.Core.Path.{subst}
use statsd_bridge.Mapper.Outcome.{Outcome, done, failed, panicked, InitError, ◌>>=◌, guard, ◌>>◌}

abbrev pub Safe {ℓ} : {A : Type ℓ} → (A → Type 0) → Outcome A → Type 0
Safe P (done a) = P a
Safe P (failed e) = Unit
Safe P panicked = ⊥

pub Safe-bind {ℓ ℓ'} :
    {A : Type ℓ} {B : Type ℓ'} (P : A → Type 0) (Q : B → Type 0) (o : Outcome A) (g : A → Outcome B)
    → ((a : A) → P a → Safe Q (g a))
    → Safe P o
    → Safe Q (o >>= g)
Safe-bind P Q (done a) g k h = k a h
Safe-bind P Q (failed e) g k h = tt
Safe-bind P Q panicked g k h = absurd h

pub Safe-guard {ℓ} :
    {B : Type ℓ} (Q : B → Type 0) (b : Bool) (e : InitError) (o : Outcome B)
    → (b ≡ true → Safe Q o)
    → Safe Q (guard b e >> o)
Safe-guard Q true e o k = k refl
Safe-guard Q false e o k = tt

pub Safe-mono {ℓ} :
    {A : Type ℓ} (P : A → Type 0) (Q : A → Type 0) (o : Outcome A)
    → ((a : A) → P a → Q a)
    → Safe P o
    → Safe Q o
Safe-mono P Q (done a) k h = k a h
Safe-mono P Q (failed e) k h = tt
Safe-mono P Q panicked k h = h

pub Safe-done {ℓ} :
    {A : Type ℓ} (P : A → Type 0) (o : Outcome A) (a : A) → o ≡ done a → Safe P o → P a
Safe-done P o a e h = subst (Safe P) e h
