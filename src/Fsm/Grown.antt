-- ===== src/Fsm/Grown.antt =====
-- AddState: the loops over the start states of the types of a rule.
use statsd_bridge.Prelude.{
  ℕ, ◌+◌, ◌≡◌, refl, sym, ap, ◌∙◌, inl, inr, Bool, true, false, Option, none, some, List, [], ◌∷◌,
  ◌++◌, arith, Bytes, bytes_beq, bytes_beq_iff, Bool-cases, Option-cases, length, if◌then◌else◌,
}
use mathlib.Core.Path.{subst}
use mathlib.Core.Option.{some-injective}
use statsd_bridge.Fsm.{State, Transitions, find, put, add_fields, add_from, add_from_all}
use statsd_bridge.Fsm.Walk.{Bounded}
use statsd_bridge.Fsm.Grow.{
  or_else, or_else-none, view, entry, view-add_fields, find-put, find-put_other,
}
use statsd_bridge.Fsm.Bounds.{Bounded-add_fields}
use statsd_bridge.Fsm.Rank.{rank, rank_added, rank_kept, fields_beq}
use statsd_bridge.Fsm.Rules.{
  Rule, has_type, types_of, fields_of, meaning, meaning-snoc, last_rule, last_rule-snoc,
}

or_else_twice {ℓ} : {A : Type ℓ} (a b : Option A) → or_else (or_else a b) b ≡ or_else a b
or_else_twice none none = refl
or_else_twice none (some b) = refl
or_else_twice (some a) b = refl

fields_beq_sound : (q fields : List Bytes) → fields_beq q fields ≡ true → q ≡ fields
unfolding fields_beq
fields_beq_sound [] [] h = refl
fields_beq_sound [] (g ∷ fields) h = absurd (ground arith)
fields_beq_sound (f ∷ q) [] h = absurd (ground arith)
fields_beq_sound (f ∷ q) (g ∷ fields) h = elim (Bool-cases (bytes_beq g f)) [
  | inl same ↦ rw (← (bytes_beq_iff g f).0 same, fields_beq_sound q fields (rw same at h)) refl
  | inr other ↦ absurd (ground arith)
]

module _ {R : Type 0} where
  -- The state `s'` has what a rule adds to `s`.
  abbrev pub Grown : List Bytes → R → ℕ → State R → State R → Type 0
  Grown fields r n s s' =
      (Bounded s → Bounded s')
      × ((q : List Bytes) → view q s' ≡ or_else (view q s) (entry q fields r))
      × (rank fields s' ≡ some n)
      × ((q : List Bytes) (v : Option R)
          → fields_beq q fields ≡ false
          → view q s ≡ some v
          → rank q s' ≡ rank q s)

  abbrev pub GrownIf : Bool → List Bytes → R → ℕ → State R → State R → Type 0
  GrownIf true fields r n s s' = Grown fields r n s s'
  GrownIf false fields r n s s' = s' ≡ s

  Grown-add :
      (fields : List Bytes) (r : R) (n : ℕ) (s : State R)
      → Grown fields r n s (add_fields fields r n s)
  Grown-add fields r n s = (
    Bounded-add_fields fields r n s,
    λ q. view-add_fields q fields r n s,
    rank_added fields r n s,
    λ q v. rank_kept q fields r n s v,
  )

  -- A type that a rule names twice grows as if once.
  Grown-then :
      (b : Bool) (fields : List Bytes) (r : R) (n : ℕ) (s t u : State R)
      → Grown fields r n s t
      → GrownIf b fields r n t u
      → Grown fields r n s u
  Grown-then false fields r n s t u g e = subst (Grown fields r n s) (sym e) g
  Grown-then true fields r n s t u (b1, v1, r1, k1) (b2, v2, r2, k2) = (
    λ h. b2 (b1 h),
    λ q.
        v2 q
        ∙ ap (λ o. or_else o (entry q fields r)) (v1 q)
        ∙ or_else_twice (view q s) (entry q fields r),
    r2,
    λ q v h e. k2 q v h (v1 q ∙ ap (λ o. or_else o (entry q fields r)) e) ∙ k1 q v h e,
  )

  pub add_from_all-GrownIf :
      (fields : List Bytes) (r : R) (n : ℕ) (types : List Bytes) (root root' : Transitions R)
      (type : Bytes) (s : State R)
      → add_from_all fields r n types root ≡ some root'
      → find type root ≡ some s
      → (s' : State R) × (find type root' ≡ some s') × GrownIf (has_type type types) fields r n s s'
  unfolding add_from_all add_from has_type
  add_from_all-GrownIf fields r n [] root root' type s e h =
      (s, subst (λ x. find type x ≡ some s) (some-injective root root' e) h, refl)
  add_from_all-GrownIf fields r n (t ∷ types) root root' type s e h =
      elim (Option-cases (find t root)) [
        | inl gone ↦ absurd (no_state (rw gone at e))
        | inr (u, there) ↦
            let root1 = put t (add_fields fields r n u) root in
            let e1 : add_from_all fields r n types root1 ≡ some root' = rw there at e in
            elim (Bool-cases (bytes_beq t type)) [
              | inl same ↦
                  let t_is_type : t ≡ type = (bytes_beq_iff t type).0 same in
                  let u_is_s : u ≡ s =
                    some-injective u s (sym there ∙ ap (λ x. find x root) t_is_type ∙ h) in
                  let found : find type root1 ≡ some (add_fields fields r n u) =
                    rw (← t_is_type) (find-put t (add_fields fields r n u) root) in
                  let (s', there', g) =
                    add_from_all-GrownIf fields r n types root1 root' type _ e1 found in
                  rw same (
                    s',
                    there',
                    Grown-then (has_type type types) fields r n s _ s'
                        (rw (← u_is_s) (Grown-add fields r n u)) g,
                  )
              | inr other ↦ rw other (
                  add_from_all-GrownIf fields r n types root1 root' type s e1
                    (find-put_other t type _ root other ∙ h))
            ]
      ]
    where
      no_state : none ≡ some root' → ⊥
      no_state e = ground arith

  -- What a list of rules means for a type is what the type's start state has.
  abbrev pub Means : List Bytes → Bytes → List (Rule R) → State R → Type 0
  Means types type rules s =
      Bounded s
      × ((f : Bytes) (q : List Bytes) → view (f ∷ q) s ≡ meaning types type rules (f ∷ q))
      × ((f : Bytes) (q : List Bytes) (r : R)
          → view (f ∷ q) s ≡ some (some r)
          → rank (f ∷ q) s ≡ last_rule types type 0 none rules (f ∷ q))

  -- A rule leaves a result only at its own fields.
  entry_same :
      (q fields : List Bytes) (r r' : R)
      → entry q fields r ≡ some (some r')
      → fields_beq q fields ≡ true
  unfolding entry fields_beq
  entry_same [] [] r r' e = refl
  entry_same [] (g ∷ fields) r r' e = absurd (ground arith)
  entry_same (f ∷ q) [] r r' e = absurd (ground arith)
  entry_same (f ∷ q) (g ∷ fields) r r' e = elim (Bool-cases (bytes_beq g f)) [
    | inl same ↦ rw same (entry_same q fields r r' (rw same at e))
    | inr other ↦ absurd (different (rw other at e))
  ]
    where
      different : none ≡ some (some r') → ⊥
      different e = ground arith

  -- After a rule the priorities are the numbers of the last rules, at all results.
  Grown-rank :
      (q fields : List Bytes) (r r' : R) (n : ℕ) (last : Option ℕ) (s s' : State R)
      → Grown fields r n s s'
      → ((w : R) → view q s ≡ some (some w) → rank q s ≡ last)
      → view q s' ≡ some (some r')
      → rank q s' ≡ (if fields_beq q fields then some n else last)
  Grown-rank q fields r r' n last s s' (_, v, k, kept) old e =
      elim (Bool-cases (fields_beq q fields)) [
        | inl same ↦ rw same (rw (fields_beq_sound q fields same) k)
        | inr other ↦ rw other (before other (view q s) refl (sym (v q) ∙ e))
      ]
    where
      before :
          fields_beq q fields ≡ false
          → (o : Option (Option R)) → view q s ≡ o
          → or_else o (entry q fields r) ≡ some (some r')
          → rank q s' ≡ last
      before other none there e' = absurd (clash other (entry_same q fields r r' e'))
        where
          clash : fields_beq q fields ≡ false → fields_beq q fields ≡ true → ⊥
          clash a b = ground arith
      before other (some w) there e' = kept q w other there ∙ old r' (there ∙ e')

  pub Means-snoc :
      (types : List Bytes) (type : Bytes) (rules : List (Rule R)) (rule : Rule R) (s s' : State R)
      → GrownIf
          (has_type type (types_of types rule))
          (fields_of rule)
          rule.rule_result
          (length rules)
          s
          s'
      → Means types type rules s
      → Means types type (rules ++ rule ∷ []) s'
  Means-snoc types type rules rule s s' g (bounded, view_s, rank_s) =
      go (has_type type (types_of types rule)) refl g
    where
      from_zero : 0 + length rules ≡ length rules
      from_zero = omega arith

      go :
          (b : Bool)
          → has_type type (types_of types rule) ≡ b
          → GrownIf b (fields_of rule) rule.rule_result (length rules) s s'
          → Means types type (rules ++ rule ∷ []) s'
      go false other same = subst (Means types type (rules ++ rule ∷ [])) (sym same) (
        bounded,
        λ f q.
            rw (meaning-snoc types type rules rule (f ∷ q), other)
              (view_s f q ∙ sym (or_else-none (meaning types type rules (f ∷ q)))),
        λ f q r e. rw (last_rule-snoc types type 0 none rules rule (f ∷ q), other) (rank_s f q r e),
      )
      go true for_type grown = (
        grown.0 bounded,
        λ f q.
            rw (meaning-snoc types type rules rule (f ∷ q), for_type)
              (grown.1 (f ∷ q)
                ∙ ap (λ o. or_else o (entry (f ∷ q) (fields_of rule) rule.rule_result))
                    (view_s f q)),
        λ f q r e.
            rw (last_rule-snoc types type 0 none rules rule (f ∷ q), for_type, from_zero)
              (Grown-rank (f ∷ q) (fields_of rule) rule.rule_result r (length rules) _ s s' grown
                (rank_s f q) e),
      )
