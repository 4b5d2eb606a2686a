-- ===== src/Fsm/Best.antt =====
-- GetMapping on a machine that backtracks and keeps the order of the rules, against the rules that
-- match.
use statsd_bridge.Prelude.{
  ℕ, ◌≤◌, ◌≡◌, sym, inl, inr, Option, none, some, List, [], ◌∷◌, arith, ltb, length, take, Bytes,
  Bool-cases, Returns, Returns-mono, split, All,
}
use mathlib.Core.Path.{subst}
use mathlib.Core.List.{Memᴰ}
use statsd_bridge.Fsm.{State, find, Fsm, result_priority}
use statsd_bridge.Fsm.Search.{Found, get_mapping}
use statsd_bridge.Fsm.Hits.{Hit, hits, choose, better, Shows}
use statsd_bridge.Fsm.Backtrack.{IsOrdered, get_mapping-Shows}
use statsd_bridge.Fsm.Walk.{Glob, Leads, Bounded, IsHit, hits_sound, hits_complete}

module _ {R : Type 0} where
  -- a hit with the property, if there is a hit
  abbrev IfHit : (Hit R → Type 0) → Option (Hit R) → Type 0
  IfHit P none = Unit
  IfHit P (some h) = P h

  better-IfHit :
      (P : Hit R → Type 0) (b : Option (Hit R)) (h : Hit R) → IfHit P b → P h → IfHit P (better b h)
  unfolding better
  better-IfHit P none h pb ph = ph
  better-IfHit P (some b) h pb ph =
      elim (Bool-cases (ltb (result_priority h.final) (result_priority b.final))) [
        | inl e ↦ rw e ph
        | inr e ↦ rw e pb
      ]

  choose-IfHit :
      (P : Hit R → Type 0) (b : Option (Hit R)) (hs : List (Hit R))
      → IfHit P b
      → All P hs
      → IfHit P (choose b hs)
  unfolding choose
  choose-IfHit P b [] pb ph = pb
  choose-IfHit P b (h ∷ hs) pb (p, ph) = choose-IfHit P (better b h) hs (better-IfHit P b h pb p) ph

  -- a hit whose priority is not above `n`
  abbrev IsBelow : ℕ → Option (Hit R) → Type 0
  IsBelow n none = ⊥
  IsBelow n (some h) = result_priority h.final ≤ n

  better-IsBelow : (n : ℕ) (b : Option (Hit R)) (h : Hit R) → IsBelow n b → IsBelow n (better b h)
  unfolding better
  better-IsBelow n none h k = absurd k
  better-IsBelow n (some b) h k =
      elim (Bool-cases (ltb (result_priority h.final) (result_priority b.final))) [
        | inl e ↦ rw e (ground arith)
        | inr e ↦ rw e k
      ]

  better-IsBelow_new :
      (b : Option (Hit R)) (h : Hit R) → IsBelow (result_priority h.final) (better b h)
  unfolding better
  better-IsBelow_new none h = omega arith
  better-IsBelow_new (some b) h =
      elim (Bool-cases (ltb (result_priority h.final) (result_priority b.final))) [
        | inl e ↦ rw e (omega arith)
        | inr e ↦ rw e (ground arith)
      ]

  choose-IsBelow :
      (n : ℕ) (b : Option (Hit R)) (hs : List (Hit R)) → IsBelow n b → IsBelow n (choose b hs)
  unfolding choose
  choose-IsBelow n b [] k = k
  choose-IsBelow n b (h ∷ hs) k = choose-IsBelow n (better b h) hs (better-IsBelow n b h k)

  choose_least :
      (b : Option (Hit R)) (hs : List (Hit R)) (g : Hit R)
      → Memᴰ g hs
      → IsBelow (result_priority g.final) (choose b hs)
  unfolding choose
  choose_least b [] g k = elim k [ ]
  choose_least b (h ∷ hs) g (Memᴰ.head e) =
      choose-IsBelow (result_priority g.final) (better b h) hs (
        subst (λ x. IsBelow (result_priority x.final) (better b h)) (sym e)
          (better-IsBelow_new b h))
  choose_least b (h ∷ hs) g (Memᴰ.tail k) = choose_least (better b h) hs g k

  -- No rule matches the fields and leads to a result; or the state found is one that a matching rule
  -- leads to, with what the rule's stars stand for as the first captures, and no match has a smaller
  -- priority.
  abbrev pub IsBest : State R → List Bytes → Option (Found R) → Type 0
  IsBest s fields none =
      (p caps : List Bytes) (t : State R) (r : R) → Glob p fields caps → ¬ Leads p s t r
  IsBest s fields (some f) =
      ((p : List Bytes) × (caps : List Bytes) × (r : R) × Glob p fields caps
        × Leads p s f.final_state r
        × (take (length caps) f.final_captures ≡ caps))
      × ((p caps : List Bytes) (t : State R) (r : R)
          → Glob p fields caps
          → Leads p s t r
          → result_priority f.final_state ≤ result_priority t)

  Shows-IsBest :
      (s : State R) (fields : List Bytes) (found : Option (Found R))
      → Bounded s
      → Shows found (choose none (hits [] s fields))
      → IsBest s fields found
  Shows-IsBest s fields found bounded sh =
      shown (choose none (hits [] s fields)) found
        (choose-IfHit (IsHit [] s fields) none (hits [] s fields) tt (hits_sound [] s fields))
        (λ p caps t r g l.
          choose_least none (hits [] s fields) (record { final = t; captured = caps })
            (hits_complete [] s p fields caps t r bounded g l))
        sh
    where
      shown :
          (b : Option (Hit R)) (found : Option (Found R))
          → IfHit (IsHit [] s fields) b
          → ((p caps : List Bytes) (t : State R) (r : R)
              → Glob p fields caps
              → Leads p s t r
              → IsBelow (result_priority t) b)
          → Shows found b
          → IsBest s fields found
      shown none none hit least sh = least
      shown none (some f) hit least sh = absurd sh
      shown (some h) none hit least sh = absurd sh
      shown (some h) (some f) (p, caps, r, g, l, c) least (same, at) = (
        (p, caps, r, g, rw same l, subst (λ cs. take (length cs) f.final_captures ≡ cs) c at),
        λ p' caps' t' r' g' l'. rw same (least p' caps' t' r' g' l'),
      )

  pub get_mapping-IsBest :
      (name type : Bytes) (m : Fsm R) (s : State R)
      → IsOrdered m
      → find type m.root ≡ some s
      → Bounded s
      → Returns (IsBest s (split b'.' name)) (get_mapping name type m)
  get_mapping-IsBest name type m s ordered e bounded =
      Returns-mono _ _ (get_mapping name type m)
        (λ found sh. Shows-IsBest s (split b'.' name) found bounded sh)
        (get_mapping-Shows name type m s ordered e)
