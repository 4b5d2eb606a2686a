-- ===== src/Labels.antt =====
-- The label maps that events carry (map[string]string). An event holds a reference to its map, and
-- several events of one line share one, so the maps stand in a store.
use statsd_bridge.Prelude.{
  ℕ, zero, suc, ◌<◌, ◌≡◌, refl, List, [], ◌∷◌, ◌++◌, arith, Map, lookup, insert, lookup-insert,
  Bytes, bytes_eq, length,
}

abbrev pub Labels : Type 0
Labels = Map Bytes Bytes

abbrev pub Ref : Type 0
Ref = ℕ

abbrev pub Heap : Type 0
Heap = List Labels

-- The map behind a reference. No reference of the program dangles; there the map is empty.
unfoldable pub deref : Heap → Ref → Labels
deref [] r = []
deref (m ∷ h) zero = m
deref (m ∷ h) (suc r) = deref h r

-- An assignment through a reference.
unfoldable pub store : Heap → Ref → Labels → Heap
store [] r m = []
store (l ∷ h) zero m = m ∷ h
store (l ∷ h) (suc r) m = l ∷ store h r m

-- make(map[string]string) with the entries of `m`
unfoldable pub alloc : Heap → Labels → Heap × Ref
alloc h m = (h ++ m ∷ [], length h)

-- copyLabels: the loop over the entries, from the back
unfoldable pub copy_labels : Labels → Labels
copy_labels [] = []
copy_labels ((k, v) ∷ m) = insert k v (copy_labels m)

pub deref-append_below : (h h' : Heap) (r : Ref) → r < length h → deref (h ++ h') r ≡ deref h r
unfolding deref
deref-append_below [] h' r lt = elim lt [ ]
deref-append_below (m ∷ h) h' zero lt = refl
deref-append_below (m ∷ h) h' (suc r) lt = deref-append_below h h' r (ground arith)

pub deref-append_end : (h : Heap) (m : Labels) → deref (h ++ m ∷ []) (length h) ≡ m
unfolding deref
deref-append_end [] m = refl
deref-append_end (l ∷ h) m = deref-append_end h m

pub length-store : (h : Heap) (r : Ref) (m : Labels) → length (store h r m) ≡ length h
unfolding store
length-store [] r m = refl
length-store (l ∷ h) zero m = refl
length-store (l ∷ h) (suc r) m = ground (arith, length-store h r m)

pub deref-store_self : (h : Heap) (r : Ref) (m : Labels) → r < length h → deref (store h r m) r ≡ m
unfolding deref store
deref-store_self [] r m lt = elim lt [ ]
deref-store_self (l ∷ h) zero m lt = refl
deref-store_self (l ∷ h) (suc r) m lt = deref-store_self h r m (ground arith)

-- A copy has the entries of the original.
pub lookup-copy_labels : (m : Labels) (k : Bytes) → lookup k (copy_labels m) ≡ lookup k m
unfolding copy_labels lookup
lookup-copy_labels [] k = refl
lookup-copy_labels ((j, v) ∷ m) k =
    ground (arith, lookup-insert j k v (copy_labels m), lookup-copy_labels m k)
