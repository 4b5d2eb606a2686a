-- ===== src/Tests/Main.antt =====
-- Addresses, caches by their sizes, reloads between lookups, and texts of the configuration.
use statsd_bridge.Prelude.{
  bytes_beq, true, false, ℕ, ◌≡◌, refl, Option, some, none, List, [], ◌∷◌, Bytes, codes, Returns,
  pos, negsuc, lookup, insert, Map, bytes_eq, ◌==◌, if◌then◌else◌,
}
use statsd_bridge.Event.{counter, gauge, observer}
use statsd_bridge.Config.{MatchType, ActionType, ObserverType, MapperConfigDefaults, MetricMapping}
use statsd_bridge.Config.Decode.{
  decode_match_type, decode_action_type, decode_observer_type, decode_metric_type, match_type_text,
  action_type_text, observer_type_text, timer_text,
}
use statsd_bridge.Config.Texts.{IsDecoded, decode-text}
use statsd_bridge.Address.{
  IpAddr, IsReadFrom, udp_addr_from_string, tcp_addr_from_string, addr_from_string-IsReadFrom,
}
use statsd_bridge.Mapper.{type_name}
use statsd_bridge.Mapper.Patterns.{is_label_name, is_metric_name, is_metric_line}
use statsd_bridge.Fsm.{add_state, new_fsm, find, put}
use statsd_bridge.Mapper.Init.{read_config, with_match_type, with_action, with_observer_type}
use statsd_bridge.MapperCache.{Lru}
use statsd_bridge.MapperCache.Laws.{rr_cache}
use statsd_bridge.Main.{Server, post, get_cache}
use statsd_bridge.Main.Caches.{IsGot, IsBroken, get_cache-IsGot, get_cache-IsBroken}
use statsd_bridge.Main.Start.{Host, Flags}
use statsd_bridge.Main.Reloads.{Step, signal, request, query, run, IsServing, run-IsServing}
use statsd_bridge.Tests.{nat_float}
use statsd_bridge.Tests.Mapper.{matcher}
use statsd_bridge.Tests.Init.{parsed, short_label, compile, nothing_yet}

-- a host that is one byte, and the port behind a colon
abbrev split_host_port : Bytes → Option (Bytes × Bytes)
split_host_port (h ∷ c ∷ port) = if c == b':' then some (h ∷ [], port) else none
split_host_port _ = none

abbrev resolve : Bytes → Option IpAddr
resolve host = some (record { ip = host; zone = [] })

addr_from_string-IsReadFrom_example :
    IsReadFrom split_host_port resolve
      (codes "h:9125")
      (udp_addr_from_string split_host_port resolve (codes "h:9125"))
    × (tcp_addr_from_string split_host_port resolve (codes "h:9125")
        ≡ udp_addr_from_string split_host_port resolve (codes "h:9125"))
addr_from_string-IsReadFrom_example =
    addr_from_string-IsReadFrom split_host_port resolve (codes "h:9125")

-- An LRU cache that never has to evict.
abbrev plain_lru : Lru ℕ
plain_lru = record {
  Store = Map Bytes ℕ;
  new = λ n. [];
  get = λ k s. (lookup k s, s);
  add = insert;
  clear = λ s. [];
}

get_cache-IsGot_example :
    IsGot plain_lru 1000 (codes "lru") (get_cache plain_lru (pos 1000) (codes "lru"))
get_cache-IsGot_example = get_cache-IsGot plain_lru 1000 (codes "lru")

-- the size -1
get_cache-IsBroken_example :
    IsBroken plain_lru (get_cache plain_lru (negsuc 0) (codes "lru"))
    × IsBroken plain_lru (get_cache plain_lru (negsuc 0) (codes "random"))
get_cache-IsBroken_example = get_cache-IsBroken plain_lru 0

-- A text stands for the configuration with two rules, and every other text for one with an error.
abbrev unmarshal :
    Bytes → Option (MapperConfigDefaults nat_float × List (MetricMapping nat_float Bytes))
unmarshal [] = none
unmarshal (c ∷ []) = some parsed
unmarshal _ = some short_label

abbrev server : Server nat_float matcher (rr_cache (λ n. n)) compile unmarshal
server = record { mapper = nothing_yet; failure = 0; success = 0 }

-- A good file, a lookup, a file with an error, a file that is gone, and a lookup.
abbrev steps : List Step
steps =
    signal (some (codes "a"))
    ∷ query (codes "a.b.c") counter
    ∷ request (some (codes "ab")) post
    ∷ signal none
    ∷ query (codes "a.b.c") counter
    ∷ []

run-IsServing_example :
    Returns
      (IsServing nat_float matcher (rr_cache (λ n. n)) compile unmarshal (2, 1) server)
      (run nat_float matcher (rr_cache (λ n. n)) compile unmarshal (codes "f") steps server)
unfolding read_config is_label_name is_metric_name is_metric_line add_state new_fsm find put
    bytes_beq
run-IsServing_example =
    run-IsServing nat_float matcher (rr_cache (λ n. n)) compile unmarshal (codes "f") steps server
      (refl, tt) refl

decode-text_example :
    (decode_match_type (some (match_type_text MatchType.regex))
      ≡ some (with_match_type MatchType.regex MatchType.glob))
    × (decode_action_type (some (action_type_text ActionType.drop))
        ≡ some (with_action ActionType.drop))
    × (decode_observer_type (some (observer_type_text ObserverType.unset))
        ≡ some (with_observer_type ObserverType.unset ObserverType.summary))
    × (decode_metric_type (some (type_name gauge)) ≡ some gauge)
    × (decode_metric_type (some (codes "timer")) ≡ some observer)
    × IsDecoded match_type_text MatchType.glob [] timer_text (decode_match_type (some timer_text))
    × IsDecoded action_type_text ActionType.map [] timer_text (decode_action_type (some timer_text))
    × IsDecoded observer_type_text ObserverType.summary [] timer_text
        (decode_observer_type (some timer_text))
    × IsDecoded type_name observer timer_text timer_text (decode_metric_type (some timer_text))
decode-text_example =
    decode-text MatchType.regex ActionType.drop ObserverType.unset gauge timer_text

abbrev open_host : Host
open_host = record {
  split_host_port = split_host_port;
  resolve = resolve;
  open_relay = λ target. true;
  open_udp = λ a. true;
  open_tcp = λ a. true;
  open_unixgram = λ socket. true;
  set_read_buffer = λ n. true;
  set_unixgram_read_buffer = λ n. true;
  is_there = λ socket. false;
  is_there_behind = λ socket. true;
  parse_octal = λ text. some (pos 493);
}

abbrev udp_only : Flags
udp_only = record {
  listen_udp = codes "h:9125";
  listen_tcp = [];
  listen_unixgram = [];
  unix_socket_mode = codes "755";
  read_buffer = pos 0;
  udp_packet_queue_size = pos 10000;
  relay_address = codes "r:9125";
  relay_packet_length = 1400;
}
