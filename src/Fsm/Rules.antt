-- ===== src/Fsm/Rules.antt =====
-- The rules of a machine, and what a list of them means for one metric type: which fields have a
-- result, and with which priority.
use statsd_bridge.Prelude.{
  ℕ, suc, ◌+◌, ◌≡◌, refl, sym, ap, ◌∙◌, Bool, false, ◌&&◌, ◌||◌, Option, none, some, List, [], ◌∷◌,
  ◌++◌, arith, Bytes, bytes_beq, split, length, ◌==◌, if◌then◌else◌,
}
use statsd_bridge.Fsm.Grow.{or_else, entry, or_else-none}
use statsd_bridge.Fsm.Rank.{fields_beq}

module _ (R : Type 0) where
  pub record Rule : Type 0 where
    pub match : Bytes
    pub match_metric_type : Bytes
    pub rule_result : R

unfoldable pub has_type : Bytes → List Bytes → Bool
has_type type [] = false
has_type type (t ∷ types) = bytes_beq t type || has_type type types

or_else_assoc {ℓ} :
    {A : Type ℓ} (a b c : Option A) → or_else (or_else a b) c ≡ or_else a (or_else b c)
or_else_assoc none b c = refl
or_else_assoc (some a) b c = refl

module _ {R : Type 0} where
  -- the metric types that a rule is for
  unfoldable pub types_of : List Bytes → Rule R → List Bytes
  types_of types rule =
      if length rule.match_metric_type == 0 then types else rule.match_metric_type ∷ []

  abbrev pub fields_of : Rule R → List Bytes
  fields_of rule = split b'.' rule.match

  -- What the rules leave at the fields `q` of the type: the first rule on whose way the fields are
  -- decides; it leaves its result at its end and no result before.
  unfoldable pub meaning : List Bytes → Bytes → List (Rule R) → List Bytes → Option (Option R)
  unfolding has_type types_of entry
  meaning types type [] q = none
  meaning types type (rule ∷ rules) q =
      or_else
        (if has_type type (types_of types rule)
          then entry q (fields_of rule) rule.rule_result
          else none)
        (meaning types type rules q)

  -- The number of the last rule with the fields `q` for the type, counted from `n`; `last` without
  -- one.
  unfoldable pub last_rule :
      List Bytes → Bytes → ℕ → Option ℕ → List (Rule R) → List Bytes → Option ℕ
  unfolding has_type types_of fields_beq
  last_rule types type n last [] q = last
  last_rule types type n last (rule ∷ rules) q =
      last_rule types type (suc n)
        (if has_type type (types_of types rule) && fields_beq q (fields_of rule)
          then some n
          else last)
        rules q

  -- one rule more
  pub meaning-snoc :
      (types : List Bytes) (type : Bytes) (rules : List (Rule R)) (rule : Rule R) (q : List Bytes)
      → meaning types type (rules ++ rule ∷ []) q
        ≡ or_else (meaning types type rules q) (
            if has_type type (types_of types rule)
            then entry q (fields_of rule) rule.rule_result
            else none)
  unfolding meaning
  meaning-snoc types type [] rule q = or_else-none _
  meaning-snoc types type (x ∷ rules) rule q =
      rw (meaning-snoc types type rules rule q)
        (sym (or_else_assoc _ (meaning types type rules q) _))

  pub last_rule-snoc :
      (types : List Bytes) (type : Bytes) (n : ℕ) (last : Option ℕ) (rules : List (Rule R))
      (rule : Rule R) (q : List Bytes)
      → last_rule types type n last (rules ++ rule ∷ []) q ≡ (
          if has_type type (types_of types rule) && fields_beq q (fields_of rule)
          then some (n + length rules)
          else last_rule types type n last rules q)
  unfolding last_rule
  last_rule-snoc types type n last [] rule q =
      let e : n ≡ n + 0 = omega arith in
      ap
        (λ k.
          if has_type type (types_of types rule) && fields_beq q (fields_of rule)
          then some k
          else last)
        e
  last_rule-snoc types type n last (x ∷ rules) rule q =
      let last' =
        if has_type type (types_of types x) && fields_beq q (fields_of x) then some n else last in
      let e : suc n + length rules ≡ n + suc (length rules) = omega arith in
      last_rule-snoc types type (suc n) last' rules rule q
      ∙ ap
          (λ k.
            if has_type type (types_of types rule) && fields_beq q (fields_of rule)
            then some k
            else last_rule types type (suc n) last' rules q)
          e
