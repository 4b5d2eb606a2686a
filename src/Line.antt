-- ===== src/Line.antt =====
-- pkg/line/line.go: a StatsD line to events. Tags holds the tag styles, Sample the events of one
-- sample, Parse the whole line.
pub mod Tags
pub mod Sample
pub mod Parse
