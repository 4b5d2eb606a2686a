-- ===== src/Line/Parse.antt =====
-- LineToEvents
pub mod Returns
use statsd_bridge.Prelude.{
  ℕ, Bool, not, ◌&&◌, ◌||◌, Option, none, some, List, [], ◌∷◌, ◌++◌, ◌==◌, length, if◌then◌else◌,
  Bytes, codes, bytes_beq, split, cut, contains, contains_byte, ◌>>=◌, map,
}
use statsd_bridge.Prelude.Utf8.{valid_string}
use statsd_bridge.Float.{Float}
use statsd_bridge.Labels.{Ref}
use statsd_bridge.Line.Tags.{Parser, Tagged, parse_name_and_tags}
use statsd_bridge.Line.Sample.{
  Parsed, malformed_line, mixed_tagging_styles, not_enough_parts_after_colon,
  invalid_extended_aggregate_type, sample_error, sample_to_events,
}

is_aggregate_type : Bytes → Bool
is_aggregate_type t = bytes_beq t (codes "ms") || bytes_beq t (codes "h") || bytes_beq t (codes "d")

-- lineParts[1], from what follows the first |
type_part : Option (Bytes × Bytes) → Bytes → Bytes
type_part none suffix = suffix
type_part (some (t, rest)) suffix = t

module _ (f : Float) where
  -- the loop over the samples
  unfoldable pub samples_to_events :
      Parser → Bytes → Ref → List Bytes → Parsed f → Option (Parsed f)
  samples_to_events p metric ref [] st = some st
  samples_to_events p metric ref (s ∷ samples) st =
      sample_to_events f p metric ref s st >>= samples_to_events p metric ref samples

  -- The samples that the text behind the first colon stands for; `none` is an aggregation of the
  -- wrong type.
  unfoldable pub samples_of : Bytes → Bool → Bytes → Bytes → Option (List Bytes)
  unfolding is_aggregate_type type_part
  samples_of text using_dogstatsd values suffix =
      if contains_byte b':' values
      then (if is_aggregate_type (type_part (cut b'|' suffix) suffix)
          then some (map (λ v. v ++ b'|' ∷ suffix) (split b':' values))
          else none)
      else some (if using_dogstatsd then text ∷ [] else split b':' text)

  from_samples : Parser → Bytes → Ref → Option (List Bytes) → Parsed f → Option (Parsed f)
  from_samples p metric ref none st = some (sample_error f invalid_extended_aggregate_type st)
  from_samples p metric ref (some samples) st = samples_to_events p metric ref samples st

  from_parts :
      Parser → Bytes → Ref → Bytes → Bool → Option (Bytes × Bytes) → Parsed f → Option (Parsed f)
  unfolding from_samples
  from_parts p metric ref text dogstatsd none st =
      some (sample_error f not_enough_parts_after_colon st)
  from_parts p metric ref text dogstatsd (some (values, suffix)) st =
      from_samples p metric ref (samples_of text dogstatsd values suffix) st

  from_name : Parser → Ref → Bytes → Parsed f → Bytes × Tagged → Option (Parsed f)
  unfolding from_parts
  from_name p ref text st (metric, tagged) =
      let st' = record st { tagged = tagged } in
      let dogstatsd = contains text (codes "|#") in
      if dogstatsd && not (length tagged.labels == 0)
      then some (sample_error f mixed_tagging_styles st')
      else from_parts p metric ref text dogstatsd (cut b'|' text) st'

  from_elements : Parser → Ref → Bytes → Option (Bytes × Bytes) → Parsed f → Option (Parsed f)
  unfolding from_name
  from_elements p ref line none st = some (sample_error f malformed_line st)
  from_elements p ref line (some (name, text)) st =
      if length name == 0 || not (valid_string line)
      then some (sample_error f malformed_line st)
      else (parse_name_and_tags p name st.tagged >>= from_name p ref text st)

  -- the counters before the line, with no labels and no events yet
  abbrev pub new_line : ℕ → ℕ → ℕ → Parsed f
  new_line tag_errors samples_received tags_received = record {
    tagged = record { labels = []; tag_errors = tag_errors };
    sample_errors = [];
    samples_received = samples_received;
    tags_received = tags_received;
    events = [];
  }

  -- LineToEvents. `ref` is the address of the label map that the line allocates: every event of
  -- the line has it, and the result holds the map's final contents.
  unfoldable pub line_to_events : Parser → Ref → Bytes → Parsed f → Option (Parsed f)
  unfolding from_elements
  line_to_events p ref line st =
      if length line == 0 then some st else from_elements p ref line (cut b':' line) st
