-- ===== src/Tests/Destinations.antt =====
-- src/anytls/session.rs, read_location_direct and handle_new_stream: the theorem and a run at concrete inputs.
use rust_proxy.Prelude.{
  ℕ, ◌≡◌, refl, true, none, List, [], ◌∷◌, arith, Arrival, not_yet, arrives, ok, ready,
}
use rust_proxy.Address.{hostname}
use rust_proxy.Address.Parse as Parse
use rust_proxy.Utf8.{is_utf8}
use rust_proxy.Anytls.Session.Frames.{flow_bytes}
use rust_proxy.Anytls.Session.Forward.{read_location_direct}
use rust_proxy.Anytls.Session.Forward.Locations.{place, read_location_direct-written}

-- The host name "h-x" with port 443 and a byte behind it, in pieces.
abbrev name : List ℕ
name = 104 ∷ 45 ∷ 120 ∷ []

abbrev arrivals : List Arrival
arrivals =
    arrives (3 ∷ 3 ∷ 104 ∷ [])
    ∷ not_yet
    ∷ arrives (45 ∷ 120 ∷ 1 ∷ [])
    ∷ arrives (187 ∷ 42 ∷ [])
    ∷ []

name_utf8 : is_utf8 name ≡ true
unfolding is_utf8 rust_proxy.Utf8.scan rust_proxy.Utf8.lead
name_utf8 = refl

reads_name : Parse.from (λ s. none) name ≡ ok (hostname name)
unfolding Parse.from Parse.as_ipv4 Parse.as_ipv6 Parse.as_hostname Parse.guess Parse.guess_byte
    Parse.four_octets Parse.split_dots
reads_name = refl

read_location_direct-written_example :
    (es' : List Arrival) × (read_location_direct (λ s. none) arrivals
      ≡ (ready (ok (place (hostname name) 443)), es'))
    × (flow_bytes es' ≡ 42 ∷ [])
read_location_direct-written_example =
    read_location_direct-written (λ s. none) (hostname name) 443 (42 ∷ []) arrivals
      (name_utf8, reads_name) (omega arith) refl
