-- ===== src/Tests/Line.antt =====
-- Lines: a whole line with tags, and the properties of LineToEvents at it.
use statsd_bridge.Prelude.{
  ◌≡◌, refl, some, none, [], ◌∷◌, Bytes, codes, arith, split, cut, contains, contains_byte,
  has_prefix, lookup, insert, bytes_beq, true,
}
use statsd_bridge.Prelude.Utf8.{valid_from, decode}
use statsd_bridge.Event.{counter_event}
use statsd_bridge.Line.Tags.{Parser, new_parser, index_byte, parse_name_and_tags}
use statsd_bridge.Escape.{escape_metric_name, slice}
use statsd_bridge.Line.Sample.{Parsed, sample_to_events}
use statsd_bridge.Line.Parse.{line_to_events, new_line, samples_to_events, samples_of}
use statsd_bridge.Line.Parse.Returns.{AddsLine, line_to_events-Returns, line_to_events_panics}
use statsd_bridge.Tests.{nat_float}

abbrev signalfx_parser : Parser
signalfx_parser = record new_parser { signalfx_tags_enabled = true; dogstatsd_tags_enabled = true }

abbrev fresh : Parsed nat_float
fresh = new_line nat_float 0 0 0

abbrev tagged_line : Bytes
tagged_line = codes "api[host=a]:12:7|ms"

abbrev misbracketed_line : Bytes
misbracketed_line = codes "api]host=a[:1|c"

-- The parse of nat_float takes a text's length for its value.
line_to_events_bracketed :
    line_to_events nat_float signalfx_parser 3 (codes "api[host=a]:12|c") fresh
    ≡ some (record {
      tagged = record { labels = (codes "host", codes "a") ∷ []; tag_errors = 0 };
      sample_errors = [];
      samples_received = 1;
      tags_received = 1;
      events = counter_event (record { metric_name = codes "api"; value = 2; labels = 3 }) ∷ [];
    })
unfolding line_to_events cut valid_from decode parse_name_and_tags samples_to_events samples_of
    sample_to_events split contains contains_byte has_prefix escape_metric_name insert lookup
    bytes_beq slice
line_to_events_bracketed = refl

line_to_events-Returns_example :
    (st : Parsed nat_float) × (line_to_events nat_float signalfx_parser 3 tagged_line fresh
      ≡ some st)
    × AddsLine nat_float signalfx_parser 3 fresh st
line_to_events-Returns_example =
    line_to_events-Returns nat_float signalfx_parser 3 tagged_line fresh
      (unfold cut index_byte in λ h. omega arith)

line_to_events_panics_example :
    line_to_events nat_float signalfx_parser 3 misbracketed_line fresh ≡ none
line_to_events_panics_example =
    line_to_events_panics nat_float signalfx_parser 3 misbracketed_line fresh
      (unfold valid_from decode in refl) (unfold cut index_byte in (refl, omega arith))
