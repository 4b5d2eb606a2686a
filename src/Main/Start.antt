-- ===== src/Main/Start.antt =====
-- main.go: the relay and the listeners that main starts, or why it exits.
use statsd_bridge.Prelude.{
  ℕ, ◌≡◌, Bool, true, false, not, ◌||◌, Option, none, some, ◌++◌, [], ◌∷◌, Bytes, codes, ℤ, pos,
  negsuc, ◌⊎◌, inl, inr, length, ◌==◌, if◌then◌else◌, is_zero,
}
use statsd_bridge.Address.{
  IpAddr, SocketAddr, AddressError, udp_addr_from_string, tcp_addr_from_string,
}
use statsd_bridge.Relay.{Relay, new_relay}

-- the flags that are read here
pub record Flags : Type 0 where
  pub listen_udp : Bytes
  pub listen_tcp : Bytes
  pub listen_unixgram : Bytes
  pub unix_socket_mode : Bytes
  pub read_buffer : ℤ
  pub udp_packet_queue_size : ℤ
  pub relay_address : Bytes
  pub relay_packet_length : ℕ

-- What the packages net, os and strconv answer.
pub record Host : Type 0 where
  pub split_host_port : Bytes → Option (Bytes × Bytes)
  pub resolve : Bytes → Option IpAddr
  -- the target is resolved and a socket is open
  pub open_relay : Bytes → Bool
  pub open_udp : SocketAddr → Bool
  pub open_tcp : SocketAddr → Bool
  pub open_unixgram : Bytes → Bool
  pub set_read_buffer : ℤ → Bool
  pub set_unixgram_read_buffer : ℤ → Bool
  -- whether a file is there before the socket is opened, and behind it
  pub is_there : Bytes → Bool
  pub is_there_behind : Bytes → Bool
  -- ParseInt with base 8 and 32 bits
  pub parse_octal : Bytes → Option ℤ

pub data Reason : Type 0 where
  no_relay no_listener bad_udp_address no_udp udp_read_buffer bad_tcp_address no_tcp : Reason
  socket_exists no_unixgram unixgram_read_buffer : Reason

-- a result, an exit with code 1 or a panic
pub data Start {ℓ} (A : Type ℓ) : Type ℓ where
  started : A → Start A
  exited : Reason → Start A
  crashed : Start A

infixl 5 ◌>>=◌ ◌>>◌
abbrev pub ◌>>=◌ {ℓ κ} : {A : Type ℓ} {B : Type κ} → Start A → (A → Start B) → Start B
started a >>= f = f a
exited r >>= f = exited r
crashed >>= f = crashed

abbrev pub ◌>>◌ {ℓ} : {B : Type ℓ} → Start (Unit {0}) → Start B → Start B
m >> k = m >>= λ _. k

abbrev pub require : Bool → Reason → Start (Unit {0})
require true r = started tt
require false r = exited r

abbrev pub address_or : Reason → AddressError ⊎ SocketAddr → Start SocketAddr
address_or r (inl e) = exited r
address_or r (inr a) = started a

abbrev pub is_set : Bytes → Bool
is_set text = not (length text == 0)

-- make of a channel with such a capacity
abbrev pub make_channel : ℤ → Start ℕ
make_channel (pos n) = started n
make_channel (negsuc n) = crashed

-- the UDP listener: its address and the capacity of its channel
pub record UdpListener : Type 0 where
  pub address : SocketAddr
  pub capacity : ℕ

-- the Unixgram listener: its socket, and the mode asked for
pub record UnixgramListener : Type 0 where
  pub socket : Bytes
  pub mode : Option ℤ

pub record Running : Type 0 where
  pub relay : Option Relay
  pub udp : Option UdpListener
  pub tcp : Option SocketAddr
  pub unixgram : Option UnixgramListener

module _ (host : Host) (flags : Flags) where
  abbrev pub some_listener : Bool
  some_listener = is_set flags.listen_udp || is_set flags.listen_tcp || is_set flags.listen_unixgram

  unfoldable pub start_relay : Start (Option Relay)
  start_relay =
      if is_set flags.relay_address
      then (require (host.open_relay flags.relay_address) no_relay
          >> started (some (new_relay flags.relay_packet_length)))
      else started none

  unfoldable pub open_udp_listener : Start UdpListener
  open_udp_listener = do
    address ←
        address_or bad_udp_address
          (udp_addr_from_string host.split_host_port host.resolve flags.listen_udp)
    require (host.open_udp address) no_udp
    require (is_zero flags.read_buffer || host.set_read_buffer flags.read_buffer) udp_read_buffer
    capacity ← make_channel flags.udp_packet_queue_size
    started (record { address = address; capacity = capacity })

  unfoldable pub open_tcp_listener : Start SocketAddr
  open_tcp_listener = do
    address ←
        address_or bad_tcp_address
          (tcp_addr_from_string host.split_host_port host.resolve flags.listen_tcp)
    require (host.open_tcp address) no_tcp
    started address

  unfoldable pub open_unixgram_listener : Start UnixgramListener
  open_unixgram_listener = do
    require (not (host.is_there flags.listen_unixgram)) socket_exists
    require (host.open_unixgram flags.listen_unixgram) no_unixgram
    require (is_zero flags.read_buffer || host.set_unixgram_read_buffer flags.read_buffer)
        unixgram_read_buffer
    started (record {
      socket = flags.listen_unixgram;
      mode =
          if host.is_there_behind flags.listen_unixgram
          then host.parse_octal (codes "0" ++ flags.unix_socket_mode)
          else none;
    })

  -- what the flag asks for
  unfoldable pub if_set {ℓ} : {A : Type ℓ} → Bytes → Start A → Start (Option A)
  if_set text m = if is_set text then (m >>= λ a. started (some a)) else started none

  -- main from the relay to the last listener
  unfoldable pub start_listeners : Start Running
  unfolding start_relay open_udp_listener open_tcp_listener open_unixgram_listener if_set
  start_listeners = do
    relay ← start_relay
    require some_listener no_listener
    udp ← if_set flags.listen_udp open_udp_listener
    tcp ← if_set flags.listen_tcp open_tcp_listener
    unixgram ← if_set flags.listen_unixgram open_unixgram_listener
    started (record { relay = relay; udp = udp; tcp = tcp; unixgram = unixgram })

  -- there exactly if the flag is set
  abbrev pub IsThereIf : {A : Type 0} → Bool → (A → Type 0) → Option A → Type 0
  IsThereIf true P none = ⊥
  IsThereIf true P (some a) = P a
  IsThereIf false P none = Unit
  IsThereIf false P (some a) = ⊥

  abbrev pub IsUdp : UdpListener → Type 0
  IsUdp u =
      (udp_addr_from_string host.split_host_port host.resolve flags.listen_udp ≡ inr u.address)
      × (flags.udp_packet_queue_size ≡ pos u.capacity)

  abbrev pub IsTcp : SocketAddr → Type 0
  IsTcp a = tcp_addr_from_string host.split_host_port host.resolve flags.listen_tcp ≡ inr a

  -- The mode asked for: the octal number in the flag, if the socket is there and the number can be read.
  abbrev pub IsUnixgram : UnixgramListener → Type 0
  IsUnixgram u =
      (u.socket ≡ flags.listen_unixgram)
      × ((host.is_there_behind flags.listen_unixgram ≡ true)
          → u.mode ≡ host.parse_octal (b'0' ∷ flags.unix_socket_mode))
      × ((host.is_there_behind flags.listen_unixgram ≡ false) → u.mode ≡ none)

  -- What is wrong where main exits.
  abbrev pub IsExit : Reason → Type 0
  IsExit no_relay = ¬ (flags.relay_address ≡ []) × (host.open_relay flags.relay_address ≡ false)
  IsExit no_listener =
      (flags.listen_udp ≡ []) × (flags.listen_tcp ≡ []) × (flags.listen_unixgram ≡ [])
  IsExit bad_udp_address =
      ¬ (flags.listen_udp ≡ [])
      × ((e : AddressError) × (udp_addr_from_string host.split_host_port host.resolve
              flags.listen_udp
            ≡ inl e))
  IsExit no_udp =
      (a : SocketAddr) × (udp_addr_from_string host.split_host_port host.resolve flags.listen_udp
        ≡ inr a)
      × (host.open_udp a ≡ false)
  IsExit udp_read_buffer =
      ¬ (flags.listen_udp ≡ [])
      × ¬ (flags.read_buffer ≡ pos 0)
      × (host.set_read_buffer flags.read_buffer ≡ false)
  IsExit bad_tcp_address =
      ¬ (flags.listen_tcp ≡ [])
      × ((e : AddressError) × (tcp_addr_from_string host.split_host_port host.resolve
              flags.listen_tcp
            ≡ inl e))
  IsExit no_tcp =
      (a : SocketAddr) × (tcp_addr_from_string host.split_host_port host.resolve flags.listen_tcp
        ≡ inr a)
      × (host.open_tcp a ≡ false)
  IsExit socket_exists =
      ¬ (flags.listen_unixgram ≡ []) × (host.is_there flags.listen_unixgram ≡ true)
  IsExit no_unixgram =
      (host.is_there flags.listen_unixgram ≡ false)
      × (host.open_unixgram flags.listen_unixgram ≡ false)
  IsExit unixgram_read_buffer =
      ¬ (flags.listen_unixgram ≡ [])
      × ¬ (flags.read_buffer ≡ pos 0)
      × (host.set_unixgram_read_buffer flags.read_buffer ≡ false)

  abbrev pub IsRunning : Running → Type 0
  IsRunning r =
      IsThereIf (is_set flags.relay_address) (λ relay. relay ≡ new_relay flags.relay_packet_length)
        r.relay
      × IsThereIf (is_set flags.listen_udp) IsUdp r.udp
      × IsThereIf (is_set flags.listen_tcp) IsTcp r.tcp
      × IsThereIf (is_set flags.listen_unixgram) IsUnixgram r.unixgram
      × (some_listener ≡ true)

  abbrev pub IsBadSize : Type 0
  IsBadSize =
      (is_set flags.listen_udp ≡ true) × ((n : ℕ) × (flags.udp_packet_queue_size ≡ negsuc n))

  -- What runs is what the flags ask for, with a listener at least; or what is wrong.
  abbrev pub IsStarted : Start Running → Type 0
  IsStarted (started r) = IsRunning r
  IsStarted (exited r) = IsExit r
  IsStarted crashed = IsBadSize
