-- ===== src/Main/Starts.antt =====
-- main.go: what is started for which flags, and why main exits.
use statsd_bridge.Prelude.{◌≡◌}
use statsd_bridge.Relay.{Relay, new_relay}
use statsd_bridge.Main.Start.{Flags, Host, Start, started, exited, crashed, IsExit, IsBadSize}

module _ (host : Host) (flags : Flags) where
  -- a result with `P`, an exit for a reason, or a panic for the size of the queue
  abbrev Ends {ℓ} : {A : Type ℓ} → (A → Type 0) → Start A → Type 0
  Ends P (started a) = P a
  Ends P (exited r) = IsExit host flags r
  Ends P crashed = IsBadSize host flags

  abbrev IsRelay : Relay → Type 0
  IsRelay relay = relay ≡ new_relay flags.relay_packet_length
