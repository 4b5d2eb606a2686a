-- ===== src/Line/Tags/Brackets.antt =====
-- The text before, between and behind the brackets of SignalFx tags.
use statsd_bridge.Prelude.{
  ℕ, zero, suc, ◌-◌, ◌<◌, ◌≡◌, ap, inl, inr, ◌==◌, ==_iff, [], ◌∷◌, ◌++◌, append_assoc, Option,
  none, some, arith, Bool-cases, length, take, drop, Bytes, ltb, Option-cases,
}
use mathlib.Core.Path.{subst}
use statsd_bridge.Prelude.Utf8.Parts.{IsUtf8, IsUtf8-parts}
use statsd_bridge.Line.Tags.{index_byte}

-- The text around the first occurrence of a byte.
pub index_byte-eq :
    (b : ℕ) (s : Bytes) (i : ℕ)
    → index_byte b s ≡ some i
    → (i < length s) × (s ≡ take i s ++ b ∷ drop (suc i) s)
unfolding index_byte
index_byte-eq b [] i e = cc
index_byte-eq b (c ∷ s) i e = elim (Bool-cases (c == b)) [
  | inl here ↦
      let zero_at : zero ≡ i = ground arith in
      subst (λ (j : ℕ). (j < length (c ∷ s)) × (c ∷ s ≡ take j (c ∷ s) ++ b ∷ drop (suc j) (c ∷ s)))
        zero_at (omega arith, ap (λ (x : ℕ). x ∷ s) ((==_iff c b).0 here))
  | inr other ↦ elim (Option-cases (index_byte b s)) [
    | inl nothing ↦ absurd (ground arith)
    | inr (j, found) ↦
        let (lt, eq) = index_byte-eq b s j found in
        let at : suc j ≡ i = ground arith in
        subst
          (λ (j : ℕ). (j < length (c ∷ s)) × (c ∷ s ≡ take j (c ∷ s) ++ b ∷ drop (suc j) (c ∷ s)))
          at (omega arith, ap (λ (x : Bytes). c ∷ x) eq)
  ]
]

-- The text between the first occurrence of an ASCII byte and a later position.
pub between-IsUtf8 :
    (b : ℕ) (before s : Bytes) (i e : ℕ)
    → b < 0x80
    → index_byte b s ≡ some i
    → i < e
    → IsUtf8 (before ++ take e s)
    → IsUtf8 (take (e - suc i) (drop (suc i) s))
unfolding index_byte
between-IsUtf8 b before [] i e small found lt v = cc
between-IsUtf8 b before (c ∷ s) i zero small found lt v = absurd (omega arith)
between-IsUtf8 b before (c ∷ s) i (suc e) small found lt v = elim (Bool-cases (c == b)) [
  | inl here ↦
      let zero_at : zero ≡ i = ground arith in
      subst (λ (j : ℕ). IsUtf8 (take (suc e - suc j) (drop (suc j) (c ∷ s)))) zero_at
        (let n : suc e - 1 ≡ e = omega arith in
          rw n (IsUtf8-parts before c (take e s) (ground arith) v).1)
  | inr other ↦ elim (Option-cases (index_byte b s)) [
    | inl nothing ↦ absurd (ground arith)
    | inr (j, later) ↦
        let at : suc j ≡ i = ground arith in
        subst (λ (j : ℕ). IsUtf8 (take (suc e - suc j) (drop (suc j) (c ∷ s)))) at
          (let n : suc e - suc (suc j) ≡ e - suc j = omega arith in
            rw n (
              between-IsUtf8 b (before ++ c ∷ []) s j e small later (omega arith)
                (rw (append_assoc before (c ∷ []) (take e s)) v)))
  ]
]

-- SignalFx brackets that do not stand in the order in which the slices expect them.
abbrev pub Misordered : Option ℕ → Option ℕ → Type 0
Misordered (some start) (some end) = end < start
Misordered none _ = ⊥
Misordered (some start) none = ⊥

pub one_byte :
    (a b : ℕ) (s : Bytes) (i : ℕ) → index_byte a s ≡ some i → index_byte b s ≡ some i → a ≡ b
unfolding index_byte
one_byte a b [] i e e' = cc
one_byte a b (c ∷ s) zero e e' = ground (arith, index_byte a s, index_byte b s)
one_byte a b (c ∷ s) (suc i) e e' = ground (arith, one_byte a b s i, index_byte a s, index_byte b s)

pub in_order :
    (name : Bytes) (start end : ℕ)
    → index_byte b'[' name ≡ some start
    → index_byte b']' name ≡ some end
    → ¬ (end < start)
    → start < end
in_order name start end at_start at_end h = elim (Bool-cases (ltb start end)) [
  | inl lt ↦ ground arith
  | inr ge ↦
      let same : end ≡ start = ground arith in
      absurd (
        ground (
          arith,
          one_byte b'[' b']' name start at_start
              (subst (λ (j : ℕ). index_byte b']' name ≡ some j) same at_end),
        ))
]
