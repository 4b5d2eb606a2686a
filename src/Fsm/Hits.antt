-- ===== src/Fsm/Hits.antt =====
-- What the search is to find: the final states that the fields lead to, in the order in which the
-- search meets them, and the choice among them by the priority.
use statsd_bridge.Prelude.{
  ◌≡◌, Option, none, some, List, [], ◌∷◌, ◌++◌, ltb, length, take, if◌then◌else◌, Bytes,
}
use statsd_bridge.Fsm.{State, star, transitions, result, result_priority, find}
use statsd_bridge.Fsm.Search.{within, Found}

module _ (R : Type 0) where
  -- a final state and the captured fields
  pub record Hit : Type 0 where
    pub final : State R
    pub captured : List Bytes

module _ {R : Type 0} where
  unfoldable pub final_hits : List Bytes → State R → Option R → List (Hit R)
  final_hits caps s none = []
  final_hits caps s (some r) = (record { final = s; captured = caps }) ∷ []

  abbrev pub behind : Option (State R) → (State R → List (Hit R)) → List (Hit R)
  behind none f = []
  behind (some t) f = f t

  -- The hits behind a state, with `caps` captured so far: those behind the field before those
  -- behind *, states that the bounds exclude left out.
  unfoldable pub hits : List Bytes → State R → List Bytes → List (Hit R)
  unfolding final_hits
  hits caps s [] = final_hits caps s (result s)
  hits caps s (field ∷ rest) =
      behind (within (length rest) (find field (transitions s))) (λ t. hits caps t rest)
      ++ behind (within (length rest) (find star (transitions s)))
          (λ t. hits (caps ++ field ∷ []) t rest)

  -- the hit of the smaller priority, the earlier one where they are the same
  unfoldable pub better : Option (Hit R) → Hit R → Option (Hit R)
  better none h = some h
  better (some b) h =
      if ltb (result_priority h.final) (result_priority b.final) then some h else some b

  unfoldable pub choose : Option (Hit R) → List (Hit R) → Option (Hit R)
  unfolding better
  choose b [] = b
  choose b (h ∷ hs) = choose (better b h) hs

  -- What the search has found is the hit: the same state, and captures that begin with the hit's.
  -- Behind those the array keeps what earlier searches left.
  abbrev pub Shows : Option (Found R) → Option (Hit R) → Type 0
  Shows none none = Unit
  Shows none (some h) = ⊥
  Shows (some f) none = ⊥
  Shows (some f) (some h) =
      (f.final_state ≡ h.final) × (take (length h.captured) f.final_captures ≡ h.captured)
