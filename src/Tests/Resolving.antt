-- ===== src/Tests/Resolving.antt =====
-- src/resolver.rs, src/hysteria2.rs: the theorems at concrete inputs.
use rust_proxy.Prelude.{
  ℕ, ◌-◌, ◌*◌, ◌^◌, ◌<◌, ◌≡◌, refl, true, Option, none, some, List, [], ◌∷◌, arith, length, Error,
  Result, ok, err, ◌>>=◌,
}
use rust_proxy.Address.{NetLocation, SocketAddr, v4, v6, ipv4}
use rust_proxy.Address.Parse.Printed.{from_str-print_location}
use rust_proxy.Address.Parse as Parse
use rust_proxy.Resolver as Resolver
use rust_proxy.Resolver.{CacheEntry, lookup_host, fresh, key_of, resolve, cache_ttl}
use rust_proxy.Resolver.Answers.{preferred, named, lookup_host-preferred, resolve_again}
use rust_proxy.Hysteria2.Fragments.{Header, datagram}
use rust_proxy.Hysteria2.Datagrams as Datagrams
use rust_proxy.Hysteria2.Datagrams.{
  Datagram, Outside, Loop, UdpSession, parse_datagram, cleanup, turn, lookup, idle_timeout,
  cleanup_interval,
}
use rust_proxy.Hysteria2.Datagrams.Reading.{parse_datagram-datagram}
use rust_proxy.Hysteria2.Datagrams.Sessions.{Alone, turn-Alone}
use rust_proxy.Utf8.{is_utf8}
use rust_proxy.Hysteria2.Varint.{encode_varint}

-- A cache with the one entry that was put last.
abbrev last_only : Resolver.Cache
last_only = record {
  Map = Option CacheEntry;
  get = λ key m. m;
  put = λ key entry m. some entry;
  get-put = λ key entry m. refl;
}

abbrev answer : Result (List SocketAddr)
answer = ok (v6 (1 ∷ []) 80 ∷ v4 (9 ∷ 9 ∷ 9 ∷ 9 ∷ []) 80 ∷ [])

lookup_host-preferred_example : lookup_host answer ≡ (answer >>= preferred)
lookup_host-preferred_example = lookup_host-preferred answer

resolve_again_example :
    ((resolve last_only 5 (named (97 ∷ []) 80) answer none).0 ≡ ok (v4 (9 ∷ 9 ∷ 9 ∷ 9 ∷ []) 80))
    × ((later : ℕ) (answer' : Result (List SocketAddr))
        → later - 5 < cache_ttl
        → (let m' = (resolve last_only 5 (named (97 ∷ []) 80) answer none).1 in
            resolve last_only later (named (97 ∷ []) 80) answer' m'
            ≡ (ok (v4 (9 ∷ 9 ∷ 9 ∷ 9 ∷ []) 80), m')))
unfolding fresh lookup_host Resolver.sort_by_key Resolver.sorted_in Resolver.first_of
resolve_again_example =
    resolve_again last_only 5 80 (97 ∷ []) answer none (v4 (9 ∷ 9 ∷ 9 ∷ 9 ∷ []) 80) refl refl

-- A datagram for 8.8.8.8:53.
abbrev header : Header
header = record {
  session_id = 7;
  packet_id = 1;
  address_len_bytes = 10 ∷ [];
  address_bytes = 56 ∷ 46 ∷ 56 ∷ 46 ∷ 56 ∷ 46 ∷ 56 ∷ 58 ∷ 53 ∷ 51 ∷ [];
}

abbrev place : NetLocation
place = record { address = ipv4 (8 ∷ 8 ∷ 8 ∷ 8 ∷ []); port = 53 }

abbrev parsed : Datagram
parsed = record {
  session_id = 7;
  packet_id = 1;
  fragment = record { fragment_id = 0; fragment_count = 1; bytes = 1 ∷ 2 ∷ []; location = place };
}

-- The text of its address is that of the place.
reads_place : Parse.from_str (λ s. none) header.address_bytes none ≡ ok place
unfolding Parse.print_location Parse.print_address Parse.print_ipv4 rust_proxy.Decimal.digits
reads_place =
    from_str-print_location (λ s. none) (λ o. o) 8 8 8 8 53 none
      (omega arith, (omega arith, (omega arith, (omega arith, tt)))) (omega arith)

header_utf8 : is_utf8 header.address_bytes ≡ true
unfolding is_utf8 rust_proxy.Utf8.scan rust_proxy.Utf8.lead
header_utf8 = refl

header_len : encode_varint (length header.address_bytes) ≡ ok header.address_len_bytes
unfolding encode_varint
header_len = refl

reads_datagram : parse_datagram (λ s. none) (datagram header 0 1 (1 ∷ 2 ∷ [])) ≡ ok (some parsed)
reads_datagram =
    parse_datagram-datagram (λ s. none) header 0 1 (1 ∷ 2 ∷ []) place (omega arith) (omega arith)
      header_len (omega arith) (omega arith) header_utf8 reads_place

parse_datagram-datagram_example :
    parse_datagram (λ s. none) (datagram header 0 1 (1 ∷ 2 ∷ [])) ≡ ok (some parsed)
parse_datagram-datagram_example =
    parse_datagram-datagram (λ s. none) header 0 1 (1 ∷ 2 ∷ []) place (omega arith) (omega arith)
      header_len (omega arith) (omega arith) header_utf8 reads_place

-- A cache that forgets everything.
abbrev forgetful : Datagrams.Cache
forgetful = record {
  Map = Unit {0};
  empty = tt;
  peek = λ id m. none;
  put = λ id entry m. m;
  pop = λ id m. m;
}

abbrev old_session : UdpSession forgetful
old_session = record {
  fragments = tt;
  last_location = place;
  last_socket_addr = v4 (8 ∷ 8 ∷ 8 ∷ 8 ∷ []) 53;
  override_remote_write_address = none;
  last_activity = 0;
}

abbrev loop : Loop forgetful
loop = record { sessions = (7, old_session) ∷ []; last_cleanup = 0; sent = [] }

abbrev outside : Outside
outside = record {
  now = 50 * 10 ^ 9;
  resolve = λ location. err Error.other;
  socket = ok tt;
  send_to = ok tt;
}

turn-Alone_example : Alone forgetful 7 ((cleanup forgetful outside loop).sessions) (
    (turn forgetful
      (λ s. none)
      (λ o. o)
      outside
      (datagram header 0 1 (1 ∷ 2 ∷ []))
      loop).1.sessions)
turn-Alone_example =
    turn-Alone forgetful (λ s. none) (λ o. o) outside (datagram header 0 1 (1 ∷ 2 ∷ [])) loop parsed
      reads_datagram
