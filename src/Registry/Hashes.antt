-- ===== src/Registry/Hashes.antt =====
-- HashLabels and the order in which `range` visits the labels.
use statsd_bridge.Prelude.{
  ◌≡◌, refl, sym, ap, ◌∙◌, inl, inr, true, false, List, [], ◌∷◌, lookup, bytes_eq, bytes_beq_iff,
  Bytes, Bool-cases, UniqueKeys, arith,
}
use mathlib.Core.Path.{subst}
use mathlib.Core.List.{Permᴰ}
use statsd_bridge.Labels.{Labels}
use statsd_bridge.Registry.Hash.{
  bytes_leb, insert_sorted, sort_strings, value_parts, value_buf, label_names, hash_labels,
}

bytes_leb_antisymm : (a b : Bytes) → bytes_leb a b ≡ true → bytes_leb b a ≡ true → a ≡ b
unfolding bytes_leb
bytes_leb_antisymm [] [] h k = refl
bytes_leb_antisymm [] (y ∷ b) h k = absurd (ground arith)
bytes_leb_antisymm (x ∷ a) [] h k = absurd (ground arith)
bytes_leb_antisymm (x ∷ a) (y ∷ b) h k =
    let same : (x ≡ y) × (bytes_leb a b ≡ true) × (bytes_leb b a ≡ true) = ground arith in
    rw (same.0, bytes_leb_antisymm a b same.1 same.2) refl

bytes_leb-total : (a b : Bytes) → bytes_leb a b ≡ false → bytes_leb b a ≡ true
unfolding bytes_leb
bytes_leb-total [] b h = absurd (ground arith)
bytes_leb-total (x ∷ a) [] h = refl
bytes_leb-total (x ∷ a) (y ∷ b) h = let below = bytes_leb-total a b in ground arith

bytes_leb_trans :
    (a b c : Bytes) → bytes_leb a b ≡ true → bytes_leb b c ≡ true → bytes_leb a c ≡ true
unfolding bytes_leb
bytes_leb_trans [] b c h k = refl
bytes_leb_trans (x ∷ a) [] c h k = absurd (ground arith)
bytes_leb_trans (x ∷ a) (y ∷ b) [] h k = absurd (ground arith)
bytes_leb_trans (x ∷ a) (y ∷ b) (z ∷ c) h k = let below = bytes_leb_trans a b c in ground arith

insert_sorted-front :
    (s t : Bytes) (ts : List Bytes) → bytes_leb s t ≡ true → insert_sorted s (t ∷ ts) ≡ s ∷ t ∷ ts
unfolding insert_sorted
insert_sorted-front s t ts h = rw h refl

insert_sorted-behind :
    (s t : Bytes) (ts : List Bytes)
    → bytes_leb s t ≡ false
    → insert_sorted s (t ∷ ts) ≡ t ∷ insert_sorted s ts
unfolding insert_sorted
insert_sorted-behind s t ts h = rw h refl

insert_sorted-swap_le :
    (a b : Bytes) (ts : List Bytes)
    → bytes_leb a b ≡ true
    → insert_sorted a (insert_sorted b ts) ≡ insert_sorted b (insert_sorted a ts)
unfolding insert_sorted
insert_sorted-swap_le a b ts ab = elim (Bool-cases (bytes_leb b a)) [
  | inl ba ↦ rw (bytes_leb_antisymm a b ab ba) refl
  | inr nba ↦ go ts nba
]
  where
    go :
        (ts : List Bytes)
        → bytes_leb b a ≡ false
        → insert_sorted a (insert_sorted b ts) ≡ insert_sorted b (insert_sorted a ts)
    go [] nba = insert_sorted-front a b [] ab ∙ sym (insert_sorted-behind b a [] nba)
    go (t ∷ ts) nba = elim (Bool-cases (bytes_leb b t)) [
      | inl bt ↦
          let at' = bytes_leb_trans a b t ab bt in
          ap (insert_sorted a) (insert_sorted-front b t ts bt)
          ∙ insert_sorted-front a b (t ∷ ts) ab
          ∙ ap (λ xs. a ∷ xs) (sym (insert_sorted-front b t ts bt))
          ∙ sym (insert_sorted-behind b a (t ∷ ts) nba)
          ∙ ap (insert_sorted b) (sym (insert_sorted-front a t ts at'))
      | inr nbt ↦ elim (Bool-cases (bytes_leb a t)) [
        | inl at' ↦
            ap (insert_sorted a) (insert_sorted-behind b t ts nbt)
            ∙ insert_sorted-front a t (insert_sorted b ts) at'
            ∙ ap (λ xs. a ∷ xs) (sym (insert_sorted-behind b t ts nbt))
            ∙ sym (insert_sorted-behind b a (t ∷ ts) nba)
            ∙ ap (insert_sorted b) (sym (insert_sorted-front a t ts at'))
        | inr nat ↦
            ap (insert_sorted a) (insert_sorted-behind b t ts nbt)
            ∙ insert_sorted-behind a t (insert_sorted b ts) nat
            ∙ ap (λ xs. t ∷ xs) (go ts nba)
            ∙ sym (insert_sorted-behind b t (insert_sorted a ts) nbt)
            ∙ ap (insert_sorted b) (sym (insert_sorted-behind a t ts nat))
      ]
    ]

insert_sorted-swap :
    (a b : Bytes) (ts : List Bytes)
    → insert_sorted a (insert_sorted b ts) ≡ insert_sorted b (insert_sorted a ts)
insert_sorted-swap a b ts = elim (Bool-cases (bytes_leb a b)) [
  | inl ab ↦ insert_sorted-swap_le a b ts ab
  | inr nab ↦ sym (insert_sorted-swap_le b a ts (bytes_leb-total a b nab))
]

label_names-Perm : {l l' : Labels} → Permᴰ l l' → label_names l ≡ label_names l'
unfolding label_names sort_strings
label_names-Perm Permᴰ.nil = refl
label_names-Perm (Permᴰ.cons {a} {b} {l₁} {l₂} e p) =
    rw e (ap (insert_sorted b.0) (label_names-Perm p))
label_names-Perm (Permᴰ.swap {a} {b} {a'} {b'} {l} e e') =
    rw (e, e') (insert_sorted-swap b'.0 a'.0 (label_names l))
label_names-Perm (Permᴰ.trans p q) = label_names-Perm p ∙ label_names-Perm q

-- The same labels, with each name once.
abbrev SameLabels : Labels → Labels → Type 0
SameLabels l l' = UniqueKeys l' × ((n : Bytes) → lookup n l ≡ lookup n l')

SameLabels-swap :
    (a b : Bytes × Bytes) (l : Labels) → UniqueKeys (a ∷ b ∷ l) → SameLabels (a ∷ b ∷ l) (b ∷ a ∷ l)
unfolding lookup
SameLabels-swap a b l (first, (second, unique)) = (
  (
    ground (arith, bytes_beq_iff b.0 a.0, bytes_beq_iff a.0 b.0),
    (ground (arith, bytes_beq_iff b.0 a.0), unique),
  ),
  λ n. ground (arith, bytes_beq_iff a.0 n, bytes_beq_iff b.0 n, bytes_beq_iff b.0 a.0),
)

lookup-Perm : (l l' : Labels) → Permᴰ l l' → UniqueKeys l → SameLabels l l'
unfolding lookup
lookup-Perm _ _ Permᴰ.nil h = (tt, λ n. refl)
lookup-Perm _ _ (Permᴰ.cons {a} {b} {l₁} {l₂} e p) (fresh, h) =
    let (unique, same) = lookup-Perm l₁ l₂ p h in
    ((sym (same b.0) ∙ (rw e at fresh), unique), λ n. rw (e, same n) refl)
lookup-Perm _ _ (Permᴰ.swap {a} {b} {a'} {b'} {l} e e') h =
    subst (λ x. SameLabels (a ∷ b ∷ l) (x ∷ b' ∷ l)) e'
      (subst (λ y. SameLabels (a ∷ b ∷ l) (b ∷ y ∷ l)) e (SameLabels-swap a b l h))
lookup-Perm _ _ (Permᴰ.trans {l₁} {l₂} {l₃} p q) h =
    let (unique, same) = lookup-Perm l₁ l₂ p h in
    let (unique', same') = lookup-Perm l₂ l₃ q unique in (unique', λ n. same n ∙ same' n)

value_parts-same :
    (l l' : Labels) (ns : List Bytes)
    → ((n : Bytes) → lookup n l ≡ lookup n l')
    → value_parts l ns ≡ value_parts l' ns
unfolding value_parts
value_parts-same l l' [] h = refl
value_parts-same l l' (n ∷ ns) h = rw (h n, value_parts-same l l' ns h) refl

-- HashLabels gives the same hashes and the same sorted names, in whatever order `range` visits the
-- labels. Each label has one value.
pub hash_labels-Perm : (l l' : Labels) → Permᴰ l l' → UniqueKeys l → hash_labels l ≡ hash_labels l'
unfolding hash_labels value_buf
hash_labels-Perm l l' p h =
    let (_, same) = lookup-Perm l l' p h in
    rw (label_names-Perm p, value_parts-same l l' (label_names l') same) refl
