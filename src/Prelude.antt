-- ===== src/Prelude.antt =====
-- The names that the other modules share: the libraries', passed on, and those of the children.
pub mod Tests
pub mod Lists
pub mod Maps
pub mod Text
pub mod Int
pub mod Atoi
pub mod Utf8
unfoldable pub use Atoi.{atoi, is_digit}
pub use Int.{ℤ, pos, negsuc, is_zero, is_positive, added_before}
pub use Tests.*
pub use Lists.*
pub use Maps.{
  Eq, nat_eq, Map, lookup-insert, lookup-delete, lookup-insert_self, UniqueKeys, UniqueKeys-insert,
  UniqueKeys-delete, delete-absent, lookup_head, All-insert, All-lookup, All-delete,
}
unfoldable pub use Maps.{lookup, insert, delete}
pub use Prim.Native.Nat.{ℕ, zero, suc, ◌+◌, ◌-◌, ◌*◌, ◌/◌, ◌%◌, ◌^◌, ◌≤◌, ◌<◌}
pub use mathlib.Core.Path.{◌≡◌, refl, sym, ap, ap₂, ◌∙◌}
pub use mathlib.Core.Logic.{◌≢◌, ◌↔◌, ◌⊎◌, inl, inr}
pub use mathlib.Core.Bool.{Bool, true, false, not, ◌&&◌, ◌||◌}
pub use mathlib.Core.Option.{Option, none, some}
pub use mathlib.Core.List.{List, [], ◌∷◌, ◌++◌, map, append-nil, append_assoc}
unfoldable pub use mathlib.Core.List.{flatten}
pub use native.Mathlib.Omega.{arith}
pub use Text.{Bytes, codes, bytes_beq_iff, bytes_eq, has_suffix-append, trim_suffix-append}
unfoldable pub use Text.{
  bytes_beq, split, cut, contains_byte, has_prefix, contains, has_suffix, trim_suffix, join,
}

-- A fallible step: `none` is a panic of the program.
infixl 5 ◌>>=◌
abbrev pub ◌>>=◌ {ℓ κ} : {A : Type ℓ} {B : Type κ} → Option A → (A → Option B) → Option B
some a >>= f = f a
none >>= f = none

-- `P` of a result, if there is one
abbrev pub IfReturns {ℓ} : {A : Type ℓ} → (A → Type 0) → Option A → Type 0
IfReturns P none = Unit
IfReturns P (some a) = P a

pub IfReturns-bind {ℓ κ} :
    {A : Type ℓ} {B : Type κ} (P : A → Type 0) (Q : B → Type 0) (o : Option A) (g : A → Option B)
    → ((a : A) → P a → IfReturns Q (g a))
    → IfReturns P o
    → IfReturns Q (o >>= g)
IfReturns-bind P Q none g k h = tt
IfReturns-bind P Q (some a) g k h = k a h

-- whatever the first of two calls gives
pub IfReturns-then {ℓ κ} :
    {A : Type ℓ} {B : Type κ} (Q : B → Type 0) (o : Option A) (g : A → Option B)
    → ((a : A) → IfReturns Q (g a))
    → IfReturns Q (o >>= g)
IfReturns-then Q none g k = tt
IfReturns-then Q (some a) g k = k a

pub IfReturns-mono {ℓ} :
    {A : Type ℓ} (P Q : A → Type 0) (o : Option A)
    → ((a : A) → P a → Q a)
    → IfReturns P o
    → IfReturns Q o
IfReturns-mono P Q none k h = tt
IfReturns-mono P Q (some a) k h = k a h

pub IfReturns-map {ℓ κ} :
    {A : Type ℓ} {B : Type κ} (P : A → Type 0) (Q : B → Type 0) (o : Option A) (g : A → B)
    → ((a : A) → P a → Q (g a))
    → IfReturns P o
    → IfReturns Q (o >>= λ a. some (g a))
IfReturns-map P Q o g = IfReturns-bind P Q o (λ a. some (g a))

-- There is a result, and it has `P`.
abbrev pub Returns {ℓ} : {A : Type ℓ} → (A → Type 0) → Option A → Type 0
Returns P none = ⊥
Returns P (some a) = P a

pub Returns-bind {ℓ κ} :
    {A : Type ℓ} {B : Type κ} (P : A → Type 0) (Q : B → Type 0) (o : Option A) (g : A → Option B)
    → ((a : A) → P a → Returns Q (g a))
    → Returns P o
    → Returns Q (o >>= g)
Returns-bind P Q none g k h = absurd h
Returns-bind P Q (some a) g k h = k a h

-- A term that is computed, with its property.
pub Returns-intro {ℓ} :
    {A : Type ℓ} (P : A → Type 0) (o : Option A) (a : A) → o ≡ some a → P a → Returns P o
Returns-intro P o a e p = rw e p

pub Returns-elim {ℓ} :
    {A : Type ℓ} (P : A → Type 0) (o : Option A) → Returns P o → (a : A) × (o ≡ some a) × P a
Returns-elim P none h = absurd h
Returns-elim P (some a) h = (a, refl, h)

pub Returns-mono {ℓ} :
    {A : Type ℓ} (P Q : A → Type 0) (o : Option A)
    → ((a : A) → P a → Q a)
    → Returns P o
    → Returns Q o
Returns-mono P Q none k h = h
Returns-mono P Q (some a) k h = k a h
