-- ===== src/Listener/Relayed.antt =====
-- What the listeners do to the relay: the lines that reach it, and when none of them waits.
use statsd_bridge.Prelude.{
  ℕ, suc, ◌+◌, ◌≤◌, ◌<◌, ◌^◌, ◌≡◌, refl, sym, ap, ◌∙◌, inl, inr, false, Option, none, some, List,
  [], ◌∷◌, ◌++◌, append-nil, append_assoc, arith, length, length-append, flatten, flatten-snoc, map,
  Bytes, Bool-cases, ltb, ◌>>=◌, Option-cases, bytes_eq,
}
use mathlib.Core.Path.{subst}
use mathlib.Core.Option
use mathlib.Core.Option.{some-injective}
use mathlib.Core.List.{map-append}
use statsd_bridge.Relay.{Relay, new_relay, relay_line, relay_line_now, with_newline}
use statsd_bridge.Relay.Packets
use statsd_bridge.Relay.Packets.{accepted, Delivered, Run-delivers_lines}
use statsd_bridge.Listener.{relayed}

-- the relay after the lines, if none of them waits
unfoldable pub relay_all : List Bytes → Option Relay → Option (Option Relay)
relay_all [] r = some r
relay_all (l ∷ ls) r = relayed l r >>= relay_all ls

-- the lines that the relay accepts, as it buffers them
abbrev pub log_of : ℕ → List Bytes → List Bytes
log_of n lines = flatten (map (accepted n) lines)

log_of-snoc :
    (n : ℕ) (lines : List Bytes) (l : Bytes)
    → log_of n (lines ++ l ∷ []) ≡ log_of n lines ++ accepted n l
log_of-snoc n lines l =
    rw (map-append (accepted n) lines (l ∷ []))
      (flatten-snoc (map (accepted n) lines) (accepted n l))

-- A relay that has done nothing, with a packet length that is positive and fits 64 bits, or none.
abbrev pub IsFreshRelay : Option Relay → Type 0
IsFreshRelay none = Unit
IsFreshRelay (some r) =
    (r ≡ new_relay r.packet_length) × (0 < r.packet_length) × (r.packet_length < 2 ^ 64)

-- The relay `o`, which was `o0`, has been given the lines.
abbrev pub IsGiven : List Bytes → Option Relay → Option Relay → Type 0
IsGiven lines none o = o ≡ none
IsGiven lines (some r0) none = ⊥
IsGiven lines (some r0) (some r) = Packets.Run r0.packet_length (log_of r0.packet_length lines) r

pub IsGiven-fresh : (o : Option Relay) → IsFreshRelay o → IsGiven [] o o
unfolding flatten
IsGiven-fresh none h = refl
IsGiven-fresh (some r) (same, h, k) =
    subst (Packets.Run r.packet_length []) (sym same) Packets.created

-- An empty line leaves the relay as it is.
relay_line-nil : (l : Bytes) (r : Relay) → ltb 0 (length l) ≡ false → relay_line l r ≡ r
unfolding relay_line
relay_line-nil l r e = ground arith

-- A line that does not wait reaches the relay.
relayed-some :
    (l : Bytes) (r : Relay) (o : Option Relay)
    → relayed l (some r) ≡ some o
    → some (relay_line l r) ≡ o
unfolding relayed relay_line_now
relayed-some l r o e = elim (Bool-cases (ltb 0 (length l))) [
  | inr empty ↦ ap some (relay_line-nil l r empty) ∙ some-injective (some r) o (rw empty at e)
  | inl line ↦ elim (Bool-cases (ltb 100 (length (relay_line l r).buffer_channel))) [
    | inl full ↦ absurd (waits (rw (line, full) at e))
    | inr room ↦ some-injective (some (relay_line l r)) o (rw (line, room) at e)
  ]
]
  where
    waits : ◌≡◌ {A = Option (Option Relay)} none (some o) → ⊥
    waits e = ground arith

IsGiven-relayed :
    (l : Bytes) (lines : List Bytes) (o0 o o' : Option Relay)
    → relayed l o ≡ some o'
    → IsGiven lines o0 o
    → IsGiven (lines ++ l ∷ []) o0 o'
unfolding relayed
IsGiven-relayed l lines none none o' e h = sym (some-injective none o' e)
IsGiven-relayed l lines none (some r) o' e h = absurd (ground arith)
IsGiven-relayed l lines (some r0) none o' e h = absurd h
IsGiven-relayed l lines (some r0) (some r) o' e h =
    let n = r0.packet_length in
    subst (IsGiven (lines ++ l ∷ []) (some r0)) (relayed-some l r o' e) (
      subst (λ log. Packets.Run n log (relay_line l r)) (sym (log_of-snoc n lines l))
        (Packets.line l h))

pub IsGiven-relay_all :
    (ls lines : List Bytes) (o0 o o' : Option Relay)
    → relay_all ls o ≡ some o'
    → IsGiven lines o0 o
    → IsGiven (lines ++ ls) o0 o'
unfolding relay_all
IsGiven-relay_all [] lines o0 o o' e h =
    subst (λ ls. IsGiven ls o0 o') (sym (append-nil lines))
      (subst (IsGiven lines o0) (some-injective o o' e) h)
IsGiven-relay_all (l ∷ ls) lines o0 o o' e h = elim (Option-cases (relayed l o)) [
  | inl waits ↦ absurd (waiting (rw waits at e))
  | inr (o1, there) ↦
      subst (λ ls. IsGiven ls o0 o') (append_assoc lines (l ∷ []) ls)
        (IsGiven-relay_all ls (lines ++ l ∷ []) o0 o1 o' (rw there at e)
          (IsGiven-relayed l lines o0 o o1 there h))
]
  where
    waiting : ◌≡◌ {A = Option (Option Relay)} none (some o') → ⊥
    waiting e = ground arith

-- A step of relayOutput.
pub IsGiven-step :
    (g : Relay → Relay) (lines : List Bytes) (o0 o : Option Relay)
    → ((n : ℕ) (log : List Bytes) (r : Relay) → Packets.Run n log r → Packets.Run n log (g r))
    → IsGiven lines o0 o
    → IsGiven lines o0 (Option.map g o)
IsGiven-step g lines none none k h = refl
IsGiven-step g lines none (some r) k h = absurd (ground arith)
IsGiven-step g lines (some r0) none k h = absurd h
IsGiven-step g lines (some r0) (some r) k h = k r0.packet_length (log_of r0.packet_length lines) r h

-- The relay has sent, buffers, or has on its channel the lines that it accepts, in order; what it has
-- not sent is lost only if relayOutput has returned.
abbrev pub IsRelayed : List Bytes → Option Relay → Option Relay → Type 0
IsRelayed lines none o = o ≡ none
IsRelayed lines (some r0) none = ⊥
IsRelayed lines (some r0) (some r) = Delivered (log_of r0.packet_length lines) r

pub IsGiven-IsRelayed :
    (lines : List Bytes) (o0 o : Option Relay)
    → IsFreshRelay o0
    → IsGiven lines o0 o
    → IsRelayed lines o0 o
IsGiven-IsRelayed lines none o f h = h
IsGiven-IsRelayed lines (some r0) none f h = h
IsGiven-IsRelayed lines (some r0) (some r) (same, pos, word) h = Run-delivers_lines pos word h

-- There is room for `n` more lines on the channel of the relay, if there is one.
abbrev pub HasRoom : ℕ → Option Relay → Type 0
HasRoom n none = Unit
HasRoom n (some r) = length r.buffer_channel + n ≤ 100

channel-le :
    (l : Bytes) (r : Relay) → length (relay_line l r).buffer_channel ≤ suc (length r.buffer_channel)
unfolding relay_line
channel-le l r = ground (arith, length-append r.buffer_channel (with_newline l ∷ []))

-- With room for it, a line does not wait.
pub relayed-HasRoom :
    (l : Bytes) (n : ℕ) (o : Option Relay)
    → HasRoom (suc n) o
    → (o' : Option Relay) × (relayed l o ≡ some o') × HasRoom n o'
unfolding relayed relay_line_now
relayed-HasRoom l n none h = (none, refl, tt)
relayed-HasRoom l n (some r) h =
    let le = channel-le l r in
    elim (Bool-cases (ltb 0 (length l))) [
      | inr empty ↦ rw empty (some r, refl, omega arith)
      | inl line ↦
          let room : ltb 100 (length (relay_line l r).buffer_channel) ≡ false = ground arith in
          rw (line, room) (some (relay_line l r), refl, omega arith)
    ]
