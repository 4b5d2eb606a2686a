-- ===== src/Registry/Hash.antt =====
-- HashLabels: the two hashes of a label set.
use Prim.Native.Nat.{bit_xor}
use statsd_bridge.Prelude.{
  ℕ, ◌*◌, ◌%◌, ◌^◌, Bool, true, false, ◌&&◌, ◌||◌, List, [], ◌∷◌, ◌++◌, ltb, ◌==◌, if◌then◌else◌,
  lookup, bytes_eq, Bytes, map,
}
use mathlib.Core.List.{foldl}
use mathlib.Core.Option.{get_or}
use statsd_bridge.Labels.{Labels}
use statsd_bridge.Metrics.{LabelHash}

-- hash/fnv's New64a
fnv_byte : ℕ → ℕ → ℕ
fnv_byte h b = bit_xor h b * 1099511628211 % 2 ^ 64

unfoldable pub fnv64a : Bytes → ℕ
unfolding fnv_byte
fnv64a = foldl fnv_byte 14695981039346656037

-- the order of strings, byte by byte
unfoldable pub bytes_leb : Bytes → Bytes → Bool
bytes_leb [] b = true
bytes_leb (x ∷ a) [] = false
bytes_leb (x ∷ a) (y ∷ b) = ltb x y || (x == y && bytes_leb a b)

unfoldable pub insert_sorted : Bytes → List Bytes → List Bytes
unfolding bytes_leb
insert_sorted s [] = s ∷ []
insert_sorted s (t ∷ ts) = if bytes_leb s t then s ∷ t ∷ ts else t ∷ insert_sorted s ts

-- sort.Strings
unfoldable pub sort_strings : List Bytes → List Bytes
unfolding insert_sorted
sort_strings [] = []
sort_strings (s ∷ ss) = insert_sorted s (sort_strings ss)

-- model.SeparatorByte
abbrev pub separator_byte : ℕ
separator_byte = 255

-- NameBuf, for the names in order
unfoldable pub name_buf : List Bytes → Bytes
name_buf [] = []
name_buf (n ∷ ns) = n ++ separator_byte ∷ name_buf ns

-- what the loop writes to ValueBuf; a missing label reads as the empty string
unfoldable pub value_parts : Labels → List Bytes → Bytes
value_parts labels [] = []
value_parts labels (n ∷ ns) = get_or (lookup n labels) [] ++ separator_byte ∷ value_parts labels ns

unfoldable pub value_buf : Labels → List Bytes → Bytes
unfolding value_parts
value_buf labels ns = separator_byte ∷ value_parts labels ns

unfoldable pub label_names : Labels → List Bytes
unfolding sort_strings
label_names labels = sort_strings (map (λ (p : Bytes × Bytes). p.0) labels)

unfoldable pub hash_labels : Labels → LabelHash × List Bytes
unfolding fnv64a name_buf value_buf label_names
hash_labels labels =
    let names = label_names labels in
    (
      record {
        names = fnv64a (name_buf names);
        values = fnv64a (name_buf names ++ value_buf labels names);
      },
      names,
    )
