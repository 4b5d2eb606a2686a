-- ===== src/Fsm/Shadow.antt =====
-- AddState: the rules whose last state is already there, and the captures that it counts.
use statsd_bridge.Prelude.{Bool}
use statsd_bridge.Prelude.{
  ℕ, suc, ◌≡◌, refl, sym, ap, ◌∙◌, inl, inr, true, false, Option, none, some, List, [], ◌∷◌, ◌++◌,
  arith, Bytes, bytes_beq, bytes_beq_iff, Option-cases, length, All, ◌>>=◌,
}
use mathlib.Core.Option.{some-injective}
use statsd_bridge.Fsm.{State, Fsm, find, star, capture_count, add_state, result, transitions}
use statsd_bridge.Fsm.Walk.{Glob, ends, field, any, state_at}
use statsd_bridge.Fsm.Grow.{view, entry}
use statsd_bridge.Fsm.Rules.{Rule, has_type, types_of, fields_of, meaning}
use statsd_bridge.Fsm.Adds.{count_captures-has_type}
use statsd_bridge.Fsm.Runs.{Built, Built-IsModel, add_state_lem}

-- A match has as many captures as the rule has stars, if no field of the metric is
-- itself a star.
Glob-capture_count :
    (p fields caps : List Bytes)
    → Glob p fields caps
    → All (λ f. bytes_beq f star ≡ false) fields
    → length caps ≡ capture_count p
unfolding capture_count
Glob-capture_count _ _ _ ends h = refl
Glob-capture_count _ _ _ (field f p fields caps g) (h, hs) =
    rw h (Glob-capture_count p fields caps g hs)
Glob-capture_count _ _ _ (any f p fields caps g) (h, hs) =
    rw ((bytes_beq_iff star star).1 refl) (ap suc (Glob-capture_count p fields caps g hs))

module _ {R : Type 0} where
  -- A rule leaves no result on its way.
  entry_on_way : (p q : List Bytes) (f : Bytes) (r : R) → entry p (p ++ f ∷ q) r ≡ some none
  unfolding entry
  entry_on_way [] q f r = refl
  entry_on_way (g ∷ p) q f r = rw ((bytes_beq_iff g g).1 refl) (entry_on_way p q f r)

  pub state_at-view :
      (p : List Bytes) (s t : State R) → state_at p s ≡ some t → view p s ≡ some (result t)
  unfolding state_at view
  state_at-view [] s t e = ap (λ (o : Option (State R)). o >>= λ u. some (result u)) e
  state_at-view (f ∷ p) s t e = elim (Option-cases (find f (transitions s))) [
    | inl gone ↦ absurd (no_state (rw gone at e))
    | inr (u, there) ↦ rw there (state_at-view p u t (rw there at e))
  ]
    where
      no_state : none ≡ some t → ⊥
      no_state e = ground arith

  -- Where the first rule goes on behind the fields `p`, the state there never gets a result,
  -- whatever rules follow, one with the fields `p` included.
  pub shadowed :
      (types : List Bytes) (disabled : Bool) (type : Bytes) (first : Rule R) (rules : List (Rule R))
      (m : Fsm R) (s t : State R) (g f : Bytes) (p q : List Bytes)
      → Built types disabled (first ∷ rules) m
      → find type m.root ≡ some s
      → has_type type (types_of types first) ≡ true
      → fields_of first ≡ (g ∷ p) ++ f ∷ q
      → state_at (g ∷ p) s ≡ some t
      → result t ≡ none
  unfolding meaning
  shadowed types disabled type first rules m s t g f p q b there h fields at =
      let (_, _, _, means) = Built-IsModel types disabled (first ∷ rules) m b in
      let (_, view_s, _) = means type s there in
      let here : meaning types type (first ∷ rules) (g ∷ p) ≡ some none =
        rw (h, fields, entry_on_way (g ∷ p) q f first.rule_result) refl in
      some-injective (result t) none (sym (state_at-view (g ∷ p) s t at) ∙ view_s g p ∙ here)

  -- For a rule with a metric type, AddState returns the number of captures of every match in which no
  -- field of the metric is itself a star.
  pub add_state-captures :
      (rule : Rule R) (m m' : Fsm R) (n : ℕ) (type : Bytes) (fields caps : List Bytes)
      → has_type type (types_of m.metric_types rule) ≡ true
      → add_state rule.match rule.match_metric_type rule.rule_result m ≡ some (m', n)
      → Glob (fields_of rule) fields caps
      → All (λ f. bytes_beq f star ≡ false) fields
      → length caps ≡ n
  add_state-captures rule m m' n type fields caps typed e g h =
      let (_, _, _, count) = add_state_lem rule m m' n e in
      Glob-capture_count (fields_of rule) fields caps g h
      ∙ sym (count ∙ count_captures-has_type type _ (fields_of rule) typed)
