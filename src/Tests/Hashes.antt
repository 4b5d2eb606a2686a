-- ===== src/Tests/Hashes.antt =====
-- A label set that is visited in two orders.
use statsd_bridge.Prelude.{◌≡◌, refl, [], ◌∷◌, codes, lookup, bytes_beq}
use mathlib.Core.List.{Permᴰ}
use statsd_bridge.Labels.{Labels}
use statsd_bridge.Registry.Hash.{hash_labels}
use statsd_bridge.Registry.Hashes.{hash_labels-Perm}

abbrev host_first : Labels
host_first = (codes "host", codes "a") ∷ (codes "code", codes "b") ∷ []

abbrev code_first : Labels
code_first = (codes "code", codes "b") ∷ (codes "host", codes "a") ∷ []

hash_labels-Perm_example : hash_labels host_first ≡ hash_labels code_first
hash_labels-Perm_example =
    hash_labels-Perm host_first code_first (Permᴰ.swap refl refl)
      (unfold lookup bytes_beq in (refl, (refl, tt)))
