-- ===== src/Address.antt =====
-- pkg/address/address.go: the addresses to listen on.
use statsd_bridge.Prelude.{
  ℕ, ◌≤◌, ◌≡◌, refl, sym, ap, ◌∙◌, inl, inr, false, Option, none, some, [], ◌∷◌, Bytes, codes, ℤ,
  pos, negsuc, ltb, ◌⊎◌, if◌then◌else◌, atoi, arith, Bool-cases,
}

-- net.IPAddr
pub record IpAddr : Type 0 where
  pub ip : Bytes
  pub zone : Bytes

-- net.UDPAddr and net.TCPAddr
pub record SocketAddr : Type 0 where
  pub ip : Bytes
  pub port : ℕ
  pub zone : Bytes

pub data AddressError : Type 0 where
  bad_address unresolved bad_port : Bytes → AddressError

-- the port for the result of Atoi, if it is one
unfoldable pub port_of : Option ℤ → Option ℕ
port_of none = none
port_of (some (negsuc n)) = none
port_of (some (pos n)) = if ltb 65535 n then none else some n

abbrev pub host_of : Bytes → Bytes
host_of [] = codes "0.0.0.0"
host_of (c ∷ host) = c ∷ host

-- `split_host_port` is net.SplitHostPort and `resolve` is net.ResolveIPAddr for "ip".
module _ (split_host_port : Bytes → Option (Bytes × Bytes)) (resolve : Bytes → Option IpAddr) where
  unfoldable pub with_port : Bytes → IpAddr → AddressError ⊎ (IpAddr × ℕ)
  unfolding port_of
  with_port port_text ip = elim (port_of (atoi port_text)) [
    | none ↦ inl (bad_port port_text)
    | some port ↦ inr (ip, port)
  ]

  unfoldable pub with_host : Bytes → Bytes → AddressError ⊎ (IpAddr × ℕ)
  unfolding with_port
  with_host host port_text = elim (resolve host) [
    | none ↦ inl (unresolved host)
    | some ip ↦ with_port port_text ip
  ]

  -- IPPortFromString
  unfoldable pub ip_port_from_string : Bytes → AddressError ⊎ (IpAddr × ℕ)
  unfolding with_host
  ip_port_from_string addr = elim (split_host_port addr) [
    | none ↦ inl (bad_address addr)
    | some (host, port_text) ↦ with_host (host_of host) port_text
  ]

  unfoldable pub socket_addr : AddressError ⊎ (IpAddr × ℕ) → AddressError ⊎ SocketAddr
  socket_addr (inl e) = inl e
  socket_addr (inr (ip, port)) = inr (record { ip = ip.ip; port = port; zone = ip.zone })

  -- UDPAddrFromString
  unfoldable pub udp_addr_from_string : Bytes → AddressError ⊎ SocketAddr
  unfolding ip_port_from_string socket_addr
  udp_addr_from_string addr = socket_addr (ip_port_from_string addr)

  -- TCPAddrFromString
  unfoldable pub tcp_addr_from_string : Bytes → AddressError ⊎ SocketAddr
  unfolding ip_port_from_string socket_addr
  tcp_addr_from_string addr = socket_addr (ip_port_from_string addr)

  -- The host that is resolved for the host of an address.
  abbrev pub IsHost : Bytes → Bytes → Type 0
  IsHost text host = ((text ≡ []) × (host ≡ codes "0.0.0.0")) ⊎ (¬ (text ≡ []) × (host ≡ text))

  -- What an address is read from: a host and a port that is a number of 16 bits; or what is wrong.
  abbrev pub IsReadFrom : Bytes → AddressError ⊎ SocketAddr → Type 0
  IsReadFrom addr (inr a) =
      (text : Bytes) × (host : Bytes) × (port_text : Bytes) × (ip : IpAddr) × (split_host_port addr
        ≡ some (text, port_text))
      × IsHost text host
      × (resolve host ≡ some ip)
      × (atoi port_text ≡ some (pos a.port))
      × (a.port ≤ 65535)
      × (a.ip ≡ ip.ip)
      × (a.zone ≡ ip.zone)
  IsReadFrom addr (inl (bad_address text)) = (text ≡ addr) × (split_host_port addr ≡ none)
  IsReadFrom addr (inl (unresolved host)) =
      (text : Bytes) × (port_text : Bytes) × (split_host_port addr ≡ some (text, port_text))
      × IsHost text host
      × (resolve host ≡ none)
  IsReadFrom addr (inl (bad_port port_text)) =
      (host : Bytes) × (split_host_port addr ≡ some (host, port_text))
      × ((n : ℕ) → n ≤ 65535 → ¬ (atoi port_text ≡ some (pos n)))

port_of-some :
    (z : Option ℤ) (port : ℕ) → port_of z ≡ some port → (z ≡ some (pos port)) × (port ≤ 65535)
unfolding port_of
port_of-some none port e = absurd (ground arith)
port_of-some (some (negsuc n)) port e = absurd (ground arith)
port_of-some (some (pos n)) port e = elim (Bool-cases (ltb 65535 n)) [
  | inl large ↦ absurd (no_port (rw large at e))
  | inr small ↦ is_port small (rw small at e)
]
  where
    no_port : none ≡ some port → ⊥
    no_port e = ground arith

    is_port :
        ltb 65535 n ≡ false → some n ≡ some port → (some (pos n) ≡ some (pos port)) × (port ≤ 65535)
    is_port small e = (ground arith, ground arith)

port_of-pos : (n : ℕ) → n ≤ 65535 → port_of (some (pos n)) ≡ some n
unfolding port_of
port_of-pos n h = ground arith

module _ (split_host_port : Bytes → Option (Bytes × Bytes)) (resolve : Bytes → Option IpAddr) where
  host_of-IsHost : (text : Bytes) → IsHost split_host_port resolve text (host_of text)
  host_of-IsHost [] = inl (refl, refl)
  host_of-IsHost (c ∷ text) = inr (λ e. absurd (ground arith), refl)

  with_port-IsReadFrom :
      (addr host port_text : Bytes) (ip : IpAddr)
      → split_host_port addr ≡ some (host, port_text)
      → resolve (host_of host) ≡ some ip
      → IsReadFrom split_host_port resolve addr
          (socket_addr split_host_port resolve (with_port split_host_port resolve port_text ip))
  unfolding with_port socket_addr
  with_port-IsReadFrom addr host port_text ip e e' =
      elim (port_of (atoi port_text))
          as (λ o.
            port_of (atoi port_text) ≡ o
            → IsReadFrom split_host_port resolve addr (
                socket_addr split_host_port resolve
                  (elim o [ none ↦ inl (bad_port port_text) | some port ↦ inr (ip, port) ]))) [
                    | none ↦ λ bad. (
                      host,
                      e,
                      λ n h same. absurd (clash n (ap port_of (sym same) ∙ bad) (port_of-pos n h)),
                    )
                    | some port ↦ λ good.
                        let (number, small) = port_of-some (atoi port_text) port good in
                        (
                          host,
                          host_of host,
                          port_text,
                          ip,
                          e,
                          host_of-IsHost host,
                          e',
                          number,
                          small,
                          refl,
                          refl,
                        )
                  ]
        refl
    where
      clash : (n : ℕ) → port_of (some (pos n)) ≡ none → port_of (some (pos n)) ≡ some n → ⊥
      clash n a b = ground arith

  with_host-IsReadFrom :
      (addr host port_text : Bytes)
      → split_host_port addr ≡ some (host, port_text)
      → IsReadFrom split_host_port resolve addr (
          socket_addr split_host_port resolve
            (with_host split_host_port resolve (host_of host) port_text))
  unfolding with_host socket_addr
  with_host-IsReadFrom addr host port_text e =
      elim (resolve (host_of host))
          as (λ o.
            resolve (host_of host) ≡ o
            → IsReadFrom split_host_port resolve addr (
                socket_addr split_host_port resolve (elim o [
                  | none ↦ inl (unresolved (host_of host))
                  | some ip ↦ with_port split_host_port resolve port_text ip
                ]))) [
                  | none ↦ λ e'. (host, port_text, e, host_of-IsHost host, e')
                  | some ip ↦ λ e'. with_port-IsReadFrom addr host port_text ip e e'
                ]
        refl

  ip_port_from_string-IsReadFrom :
      (addr : Bytes)
      → IsReadFrom split_host_port resolve addr
          (socket_addr split_host_port resolve (ip_port_from_string split_host_port resolve addr))
  unfolding ip_port_from_string socket_addr
  ip_port_from_string-IsReadFrom addr =
      elim (split_host_port addr)
          as (λ o.
            split_host_port addr ≡ o
            → IsReadFrom split_host_port resolve addr (
                socket_addr split_host_port resolve (elim o [
                  | none ↦ inl (bad_address addr)
                  | some (host, port_text) ↦
                      with_host split_host_port resolve (host_of host) port_text
                ]))) [
                  | none ↦ λ e. (refl, e)
                  | some (host, port_text) ↦ λ e. with_host-IsReadFrom addr host port_text e
                ]
        refl

-- UDPAddrFromString and TCPAddrFromString give the same. An address has the resolved host, that of
-- 0.0.0.0 for an empty text, and a port from 0 to 65535, which is the number in the text; an
-- error names the step that fails.
pub addr_from_string-IsReadFrom :
    (split_host_port : Bytes → Option (Bytes × Bytes)) (resolve : Bytes → Option IpAddr)
    (addr : Bytes)
    → IsReadFrom split_host_port resolve addr (udp_addr_from_string split_host_port resolve addr)
      × (tcp_addr_from_string split_host_port resolve addr
          ≡ udp_addr_from_string split_host_port resolve addr)
unfolding udp_addr_from_string tcp_addr_from_string
addr_from_string-IsReadFrom split_host_port resolve addr =
    (ip_port_from_string-IsReadFrom split_host_port resolve addr, refl)
