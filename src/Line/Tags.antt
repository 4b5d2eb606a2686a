-- ===== src/Line/Tags.antt =====
-- The parser's options and the four styles of tags. `none` is a panic. Every separator is an ASCII
-- byte, so the loops over runes read the bytes one by one.
pub mod Brackets
pub mod Returns
use statsd_bridge.Prelude.{
  ℕ, suc, ◌+◌, Bool, true, false, ◌&&◌, ◌||◌, Option, none, some, List, [], ◌∷◌, ◌++◌, ◌==◌, length,
  take, drop, if◌then◌else◌, Bytes, ◌>>=◌, insert, bytes_eq, cut, map,
}
use statsd_bridge.Labels.{Labels}
use statsd_bridge.Escape.{escape_metric_name, slice}

pub record Parser : Type 0 where
  pub dogstatsd_tags_enabled : Bool
  pub influxdb_tags_enabled : Bool
  pub librato_tags_enabled : Bool
  pub signalfx_tags_enabled : Bool

-- NewParser
abbrev pub new_parser : Parser
new_parser = record {
  dogstatsd_tags_enabled = false;
  influxdb_tags_enabled = false;
  librato_tags_enabled = false;
  signalfx_tags_enabled = false;
}

unfoldable pub enable_dogstatsd_parsing : Parser → Parser
enable_dogstatsd_parsing p = record p { dogstatsd_tags_enabled = true }

unfoldable pub enable_influxdb_parsing : Parser → Parser
enable_influxdb_parsing p = record p { influxdb_tags_enabled = true }

unfoldable pub enable_librato_parsing : Parser → Parser
enable_librato_parsing p = record p { librato_tags_enabled = true }

unfoldable pub enable_signalfx_parsing : Parser → Parser
enable_signalfx_parsing p = record p { signalfx_tags_enabled = true }

-- the labels of the line, and the counter of tag errors
pub record Tagged : Type 0 where
  pub labels : Labels
  pub tag_errors : ℕ

abbrev tag_error : Tagged → Tagged
tag_error t = record t { tag_errors = t.tag_errors + 1 }

is_empty : Bytes → Bool
is_empty b = length b == 0

set_label : Bytes → Bytes → Tagged → Option Tagged
set_label k v t = do
  name ← escape_metric_name k
  some (record t { labels = insert name v t.labels })

parse_parts : Option (Bytes × Bytes) → Tagged → Option Tagged
unfolding is_empty set_label
parse_parts none t = some (tag_error t)
parse_parts (some (k, v)) t =
    if is_empty k || is_empty v then some (tag_error t) else set_label k v t

-- parseTag
unfoldable pub parse_tag : ℕ → Bytes → Tagged → Option Tagged
unfolding parse_parts is_empty
parse_tag separator tag t =
    if is_empty tag then some (tag_error t) else parse_parts (cut separator tag) t

-- The tags between commas, from the bytes `tag` of the present one on; an empty last one is left
-- out.
unfoldable pub tags_from : Bytes → Bytes → List Bytes
unfolding is_empty
tags_from tag [] = if is_empty tag then [] else tag ∷ []
tags_from tag (c ∷ s) =
    let next = tags_from [] s in
    let more = tags_from (tag ++ c ∷ []) s in if c == b',' then tag ∷ next else more

unfoldable pub parse_tags : ℕ → List Bytes → Tagged → Option Tagged
unfolding parse_tag
parse_tags separator [] t = some t
parse_tags separator (tag ∷ tags) t = do
  t' ← parse_tag separator tag t
  parse_tags separator tags t'

-- parseNameTags
unfoldable pub parse_name_tags : Bytes → Tagged → Option Tagged
unfolding parse_tags tags_from
parse_name_tags component t = parse_tags b'=' (tags_from [] component) t

-- trimLeftHash
unfoldable pub trim_left_hash : Bytes → Bytes
trim_left_hash [] = []
trim_left_hash (c ∷ s) = if c == b'#' then s else c ∷ s

-- ParseDogStatsDTags
unfoldable pub parse_dogstatsd_tags : Parser → Bytes → Tagged → Option Tagged
unfolding parse_tags tags_from trim_left_hash
parse_dogstatsd_tags p component t =
    if p.dogstatsd_tags_enabled
    then parse_tags b':' (map trim_left_hash (tags_from [] component)) t
    else some t

-- strings.IndexRune for an ASCII byte
unfoldable pub index_byte : ℕ → Bytes → Option ℕ
index_byte b [] = none
index_byte b (c ∷ s) =
    let rest = index_byte b s in
    if c == b then some 0 else elim rest [ none ↦ none | some i ↦ some (suc i) ]

-- the bytes before and behind the start of Librato or InfluxDB tags
unfoldable pub cut_tags : Parser → Bytes → Option (Bytes × Bytes)
cut_tags p [] = none
cut_tags p (c ∷ s) =
    let rest = cut_tags p s in
    if (c == b'#' && p.librato_tags_enabled) || (c == b',' && p.influxdb_tags_enabled)
    then some ([], s)
    else elim rest [ none ↦ none | some q ↦ some (c ∷ q.0, q.1) ]

-- the metric's name and the tags
abbrev pub Named : Type 0
Named = Bytes × Tagged

-- the loop of parseNameAndTags over the name
unfoldable pub name_with_tags : Bytes → Option (Bytes × Bytes) → Tagged → Option Named
name_with_tags name none t = some (name, t)
name_with_tags name (some (before, tags)) t = do t' ← parse_name_tags tags t; some (before, t')

-- SignalFx tags in brackets at `start` and `end`: the slices panic where they are out of order
unfoldable pub signalfx_tags : Bytes → ℕ → ℕ → Tagged → Option Named
signalfx_tags name start end t = do
  tags ← slice name (start + 1) end
  t' ← parse_name_tags tags t
  some (take start name ++ drop (end + 1) name, t')

signalfx_name : Parser → Bytes → Option ℕ → Option ℕ → Tagged → Option Named
signalfx_name p name (some start) (some end) t = signalfx_tags name start end t
signalfx_name p name (some start) none t = some (name, tag_error t)
signalfx_name p name none (some end) t = some (name, tag_error t)
signalfx_name p name none none t = name_with_tags name (cut_tags p name) t

-- parseNameAndTags
unfoldable pub parse_name_and_tags : Parser → Bytes → Tagged → Option Named
unfolding signalfx_name signalfx_tags name_with_tags cut_tags index_byte parse_name_tags
parse_name_and_tags p name t =
    if p.signalfx_tags_enabled
    then signalfx_name p name (index_byte b'[' name) (index_byte b']' name) t
    else name_with_tags name (cut_tags p name) t
