-- ===== src/Tests/Routes.antt =====
-- src/udp_relay.rs, run_udp_routing: the theorem at a concrete input.
use rust_proxy.Prelude.{◌*◌, ◌^◌, ◌≡◌, refl, inr, false, some, [], ◌∷◌, ◌++◌, if◌then◌else◌, ok}
use rust_proxy.Address.{ipv4, NetLocation, v4, unspecified}
use rust_proxy.Anytls.StringMap.{same_text}
use rust_proxy.Hysteria2.Datagrams.{same_address, same_location}
use rust_proxy.Relay.Routing.{Outside, Routing, find, cleanup, goes_on, packet, turn}
use rust_proxy.Relay.Routing.Destinations.{turn-packet}

abbrev destination : NetLocation
destination = record { address = ipv4 (8 ∷ 8 ∷ 8 ∷ 8 ∷ []); port = 53 }

abbrev routing : Routing
routing = record {
  sessions =
      (unspecified, record { last_activity = 1 })
      ∷ (destination, record { last_activity = 2 })
      ∷ [];
  last_cleanup = 0;
  sent = [];
  delivered = [];
}

abbrev outside : Outside
outside = record {
  started = 280 * 10 ^ 9;
  now = 300 * 10 ^ 9;
  resolve = λ l. ok (v4 (8 ∷ 8 ∷ 8 ∷ 8 ∷ []) l.port);
  socket = ok tt;
}

named : same_location destination unspecified ≡ false
unfolding same_address same_text
named = refl

turn-packet_example :
    (let after = turn outside (packet (ok (destination, 1 ∷ []))) routing in
      (after.0 ≡ goes_on)
      × (after.1.sent
          ≡ (cleanup outside routing).sent
            ++ ((destination, v4 (8 ∷ 8 ∷ 8 ∷ 8 ∷ []) 53, 1 ∷ []) ∷ []))
      × ((other : NetLocation)
          → find other (after.1.sessions) ≡ (
              if same_location destination other
              then some (record { last_activity = 300 * 10 ^ 9 })
              else find other ((cleanup outside routing).sessions))))
turn-packet_example =
    turn-packet outside destination (1 ∷ []) (v4 (8 ∷ 8 ∷ 8 ∷ 8 ∷ []) 53) routing named refl
      (inr refl)
