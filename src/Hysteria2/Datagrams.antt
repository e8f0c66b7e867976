-- ===== src/Hysteria2/Datagrams.antt =====
-- src/hysteria2.rs, run_udp_local_to_remote_loop: datagrams that are read, and the sessions they belong to.
pub mod Reading
pub mod Sessions
use rust_proxy.Prelude.{
  ℕ, ◌+◌, ◌-◌, ◌*◌, ◌^◌, Bool, false, not, ◌&&◌, Option, none, some, List, [], ◌∷◌, ◌++◌, map, ltb,
  leb, ◌==◌, if◌then◌else◌, length, get_or, drop, from_be16, from_be32, slice, Result, ok, err,
  panic, ◌>>=◌,
}
use rust_proxy.Utf8.{is_utf8}
use rust_proxy.Address.{Address, ipv4, ipv6, hostname, NetLocation, SocketAddr, v4, v6}
use rust_proxy.Address.Parse.{from_str, print_ipv4, print_location, colon}
use rust_proxy.Decimal.{decimal}
use rust_proxy.Anytls.StringMap.{same_text}
use rust_proxy.Hysteria2.Varint.{varint_at}
use rust_proxy.Hysteria2.Fragments.{FragmentedPacket, Fragment, Received, receive}

-- A datagram that is not ignored.
pub record Datagram : Type 0 where
  pub session_id : ℕ
  pub packet_id : ℕ
  pub fragment : Fragment

-- Behind the address: the text is checked and parsed, and what is wrong is ignored (`none`).
module _ (parse_ipv6 : List ℕ → Option (List ℕ)) where
  unfoldable pub with_location : List ℕ → List ℕ → Result NetLocation → Result (Option Datagram)
  with_location received payload_fragment (err e) = ok none
  with_location received payload_fragment panic = panic
  with_location received payload_fragment (ok remote_location) = ok (
      some (record {
        session_id =
            from_be32 (get_or received 0 0) (get_or received 1 0) (get_or received 2 0)
              (get_or received 3 0);
        packet_id = from_be16 (get_or received 4 0) (get_or received 5 0);
        fragment = record {
          fragment_id = get_or received 6 0;
          fragment_count = get_or received 7 0;
          bytes = payload_fragment;
          location = remote_location;
        };
      }))

  unfoldable pub with_address : List ℕ → ℕ × ℕ → Result (Option Datagram)
  with_address received (address_len, next_index) =
      let address_bytes = slice received next_index (next_index + address_len) in
      if address_len == 0
      then ok none
      else if ltb 2048 address_len
      then ok none
      else if ltb (length received) (next_index + address_len)
      then ok none
      else if not (is_utf8 address_bytes)
      then ok none
      else with_location received (drop (next_index + address_len) received)
          (from_str parse_ipv6 address_bytes none)

  unfoldable pub parse_datagram : List ℕ → Result (Option Datagram)
  parse_datagram received =
      if ltb (length received) 9 then ok none else varint_at received 8 >>= with_address received

-- The cache of the packets in parts, a map that may forget old entries: `lru::LruCache` of 256.
pub record Cache : Type 1 where
  pub Map : Type 0
  pub empty : Map
  pub peek : ℕ → Map → Option FragmentedPacket
  pub put : ℕ → FragmentedPacket → Map → Map
  pub pop : ℕ → Map → Map

-- `SocketAddr` as text; an IPv6 address stands in brackets.
unfoldable pub print_socket : (List ℕ → List ℕ) → SocketAddr → List ℕ
print_socket print_ipv6 (v4 octets port) = print_ipv4 octets ++ (colon ∷ decimal port)
print_socket print_ipv6 (v6 octets port) = (91 ∷ print_ipv6 octets) ++ (93 ∷ colon ∷ decimal port)

-- What a turn of the loop meets outside: the time in nanoseconds, what the resolver answers for each
-- location, and whether a new socket and a send succeed.
pub record Outside : Type 0 where
  pub now : ℕ
  pub resolve : NetLocation → Result SocketAddr
  pub socket : Result (Unit {0})
  pub send_to : Result (Unit {0})

unfoldable pub same_address : Address → Address → Bool
same_address (ipv4 a) (ipv4 b) = same_text a b
same_address (ipv6 a) (ipv6 b) = same_text a b
same_address (hostname a) (hostname b) = same_text a b
same_address _ _ = false

abbrev pub same_location : NetLocation → NetLocation → Bool
same_location a b = same_address a.address b.address && (a.port == b.port)

-- `FxHashMap<u32, _>`, with one entry for a session.
unfoldable pub lookup {ℓ} : {A : Type ℓ} → ℕ → List (ℕ × A) → Option A
lookup id [] = none
lookup id ((i, a) ∷ rest) = let found = lookup id rest in if i == id then some a else found

unfoldable pub erase {ℓ} : {A : Type ℓ} → ℕ → List (ℕ × A) → List (ℕ × A)
erase id [] = []
erase id ((i, a) ∷ rest) =
    let others = erase id rest in if i == id then others else ((i, a) ∷ others)

abbrev pub store {ℓ} : {A : Type ℓ} → ℕ → A → List (ℕ × A) → List (ℕ × A)
store id a m = (id, a) ∷ erase id m

unfoldable pub retain {ℓ} : {A : Type ℓ} → (A → Bool) → List (ℕ × A) → List (ℕ × A)
retain keeps [] = []
retain keeps ((i, a) ∷ rest) =
    let others = retain keeps rest in if keeps a then ((i, a) ∷ others) else others

abbrev pub cleanup_interval : ℕ
cleanup_interval = 10 * 10 ^ 9

abbrev pub idle_timeout : ℕ
idle_timeout = 60 * 10 ^ 9

module _ (cache : Cache) where
  pub record UdpSession : Type 0 where
    pub fragments : cache.Map
    pub last_location : NetLocation
    pub last_socket_addr : SocketAddr
    pub override_remote_write_address : Option SocketAddr
    pub last_activity : ℕ

  -- The state of the loop; `sent` are the payloads that its sockets have taken.
  pub record Loop : Type 0 where
    pub sessions : List (ℕ × UdpSession)
    pub last_cleanup : ℕ
    pub sent : List (ℕ × SocketAddr × List ℕ)

  unfoldable pub cleanup : Outside → Loop → Loop
  cleanup o l =
      if ltb cleanup_interval (o.now - l.last_cleanup)
      then record l {
        sessions = retain (λ s. not (ltb idle_timeout (o.now - s.last_activity))) l.sessions;
        last_cleanup = o.now;
      }
      else l

  -- A session for the first location, whose address was resolved.
  unfoldable pub start : (List ℕ → List ℕ) → Outside → NetLocation → SocketAddr → UdpSession
  start print_ipv6 o location addr = record {
    fragments = cache.empty;
    last_location = location;
    last_socket_addr = addr;
    override_remote_write_address =
        if same_text (print_socket print_ipv6 addr) (print_location print_ipv6 location)
        then none
        else some addr;
    last_activity = o.now;
  }

  -- The session of a datagram: none where its location is not resolved, and the loop then goes on.
  unfoldable pub started :
      (List ℕ → List ℕ) → Outside → NetLocation → Result SocketAddr → Result (Option UdpSession)
  started print_ipv6 o location (err e) = ok none
  started print_ipv6 o location panic = panic
  started print_ipv6 o location (ok addr) =
      o.socket >>= λ _. ok (some (start print_ipv6 o location addr))

  unfoldable pub session_of :
      (List ℕ → List ℕ) → Outside → NetLocation → Option UdpSession → Result (Option UdpSession)
  session_of print_ipv6 o location none = started print_ipv6 o location (o.resolve location)
  session_of print_ipv6 o location (some s) = ok (some s)

  -- The cache behind a fragment, whose packet has now this entry.
  unfoldable pub cached : Datagram → UdpSession → Option FragmentedPacket → UdpSession
  cached d s none =
      if leb d.fragment.fragment_count 1
      then s
      else record s { fragments = cache.pop d.packet_id s.fragments }
  cached d s (some entry) =
      if leb d.fragment.fragment_count 1
      then s
      else record s { fragments = cache.put d.packet_id entry s.fragments }

  -- Where a payload goes, and the session afterwards.
  unfoldable pub updated :
      UdpSession → NetLocation → Result SocketAddr → Result (SocketAddr × UdpSession)
  updated s location (ok addr) =
      ok (addr, record s { last_location = location; last_socket_addr = addr })
  updated s location (err e) = err e
  updated s location panic = panic

  unfoldable pub choose :
      Outside → UdpSession → NetLocation → Option SocketAddr → Result (SocketAddr × UdpSession)
  choose o s location (some addr) = ok (addr, s)
  choose o s location none =
      if same_location location s.last_location
      then ok (s.last_socket_addr, s)
      else updated s location (o.resolve location)

  abbrev pub target : Outside → UdpSession → NetLocation → Result (SocketAddr × UdpSession)
  target o s location = choose o s location s.override_remote_write_address

  -- A turn: the loop goes on, or it ends with an error, or in a panic.
  abbrev pub Turned : Type 0
  Turned = Result (Unit {0}) × Loop

  abbrev pub keep_session : ℕ → UdpSession → Loop → Loop
  keep_session id s l = record l { sessions = store id s l.sessions }

  unfoldable pub forwarded :
      ℕ → List ℕ → SocketAddr → UdpSession → Loop → Result (Unit {0}) → Turned
  forwarded id payload addr s l (ok _) = (
    ok tt,
    record l { sessions = store id s l.sessions; sent = l.sent ++ ((id, addr, payload) ∷ []) },
  )
  forwarded id payload addr s l (err e) = (ok tt, record l { sessions = erase id l.sessions })
  forwarded id payload addr s l panic = (panic, l)

  unfoldable pub send :
      Outside → ℕ → List ℕ → UdpSession → Loop → Result (SocketAddr × UdpSession) → Turned
  send o id payload s l (ok (addr, s')) = forwarded id payload addr s' l o.send_to
  send o id payload s l (err e) = (ok tt, keep_session id s l)
  send o id payload s l panic = (panic, l)

  unfoldable pub joined : Outside → Datagram → UdpSession → Loop → Received → Turned
  joined o d s l (ok none, entry) = (ok tt, keep_session d.session_id (cached d s entry) l)
  joined o d s l (ok (some (payload, location)), entry) =
      let s' = cached d s entry in send o d.session_id payload s' l (target o s' location)
  joined o d s l (err e, entry) = (err e, l)
  joined o d s l (panic, entry) = (panic, l)

  unfoldable pub in_session : Outside → Datagram → Loop → Result (Option UdpSession) → Turned
  in_session o d l (ok none) = (ok tt, l)
  in_session o d l (ok (some s)) =
      joined o d s l (receive (cache.peek d.packet_id s.fragments) d.fragment)
  in_session o d l (err e) = (err e, l)
  in_session o d l panic = (panic, l)

  unfoldable pub handle_parsed :
      (List ℕ → List ℕ) → Outside → Loop → Result (Option Datagram) → Turned
  handle_parsed print_ipv6 o l (ok none) = (ok tt, l)
  handle_parsed print_ipv6 o l (ok (some d)) =
      in_session o d l
        (session_of print_ipv6 o d.fragment.location (lookup d.session_id l.sessions))
  handle_parsed print_ipv6 o l (err e) = (err e, l)
  handle_parsed print_ipv6 o l panic = (panic, l)

  -- One turn of the loop, for a datagram that was read.
  unfoldable pub turn :
      (List ℕ → Option (List ℕ)) → (List ℕ → List ℕ) → Outside → List ℕ → Loop → Turned
  turn parse_ipv6 print_ipv6 o received l =
      handle_parsed print_ipv6 o (cleanup o l) (parse_datagram parse_ipv6 received)
