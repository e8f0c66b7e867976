-- ===== src/Relay/Routing/Destinations.antt =====
-- src/udp_relay.rs, run_udp_routing: what a packet does to the sessions.
use rust_proxy.Prelude.{
  ℕ, ◌≡◌, refl, sym, ap, ap₂, ◌∙◌, subst, ◌≢◌, ◌⊎◌, inl, inr, true, false, Option, none, some, List,
  [], ◌∷◌, ◌++◌, arith, ◌==◌, if◌then◌else◌, Bool-cases, ok, if-cases,
}
use rust_proxy.Address.{Address, ipv4, ipv6, hostname, NetLocation, SocketAddr, unspecified}
use rust_proxy.Anytls.StringMap.{same_text_lem, same_text_refl}
use rust_proxy.Hysteria2.Datagrams.{same_address, same_location}
use rust_proxy.Relay.Routing.{
  Session, Sessions, find, put, Outside, Routing, cleanup, goes_on, Turned, forward, created,
  in_session, resolved, from_client, packet, take_event, turn,
}

same_address_lem : (a b : Address) → same_address a b ≡ true → a ≡ b
unfolding same_address
same_address_lem (ipv4 a) (ipv4 b) h = ap ipv4 (same_text_lem a b h)
same_address_lem (ipv6 a) (ipv6 b) h = ap ipv6 (same_text_lem a b h)
same_address_lem (hostname a) (hostname b) h = ap hostname (same_text_lem a b h)
same_address_lem (ipv4 a) (ipv6 b) h = absurd cc
same_address_lem (ipv4 a) (hostname b) h = absurd cc
same_address_lem (ipv6 a) (ipv4 b) h = absurd cc
same_address_lem (ipv6 a) (hostname b) h = absurd cc
same_address_lem (hostname a) (ipv4 b) h = absurd cc
same_address_lem (hostname a) (ipv6 b) h = absurd cc

same_address_refl : (a : Address) → same_address a a ≡ true
unfolding same_address
same_address_refl (ipv4 a) = same_text_refl a
same_address_refl (ipv6 a) = same_text_refl a
same_address_refl (hostname a) = same_text_refl a

same_location_lem : (a b : NetLocation) → same_location a b ≡ true → a ≡ b
same_location_lem a b h =
    let p : same_address a.address b.address ≡ true = ground (arith, h) in
    let q : a.port ≡ b.port = ground (arith, h) in
    ap₂ (λ x y. record { address = x; port = y }) (same_address_lem a.address b.address p) q

same_location_refl : (a : NetLocation) → same_location a a ≡ true
same_location_refl a =
    let p : (a.port == a.port) ≡ true = ground arith in rw (same_address_refl a.address, p) refl

-- Two destinations that are the same as one are the same.
differ :
    (k key other : NetLocation)
    → same_location k other ≡ true
    → same_location k key ≡ false
    → same_location key other ≡ false
differ k key other f e = elim (Bool-cases (same_location key other)) [
  | inr t ↦ t
  | inl t ↦
      let same : k ≡ key = same_location_lem k other f ∙ sym (same_location_lem key other t) in
      let z : same_location k key ≡ true =
        subst (λ x. same_location k x ≡ true) same (same_location_refl k) in
      absurd cc
]

find-cons :
    (k other : NetLocation) (s : Session) (rest : Sessions)
    → find other ((k, s) ∷ rest) ≡ (if same_location k other then some s else find other rest)
unfolding find
find-cons k other s rest = refl

-- What is put is found, and any other destination is as before.
find-put :
    (key other : NetLocation) (s : Session) (m : Sessions)
    → find other (put key s m) ≡ (if same_location key other then some s else find other m)
unfolding put find
find-put key other s [] = refl
find-put key other s ((k, t) ∷ rest) =
    let Goal : Sessions → Type 0 = λ m.
      find other m ≡ (if same_location key other then some s else find other ((k, t) ∷ rest)) in
    if-cases Goal (same_location k key) ((k, s) ∷ rest) ((k, t) ∷ put key s rest) replaced
      (further (find-put key other s rest))
  where
    replaced :
        same_location k key ≡ true
        → find other ((k, s) ∷ rest)
          ≡ (if same_location key other then some s else find other ((k, t) ∷ rest))
    replaced e =
        let q = same_location_lem k key e in
        find-cons k other s rest
        ∙ (ap (λ x. if same_location x other then some s else find other rest) q
            ∙ if-cases
                (λ (o : Option Session).
                  (if same_location key other then some s else find other rest) ≡ o)
                (same_location key other) (some s) _
                (λ f. ap (λ b. if b then some s else find other rest) f)
                (λ f.
                  let g : same_location k other ≡ false =
                    subst (λ x. same_location x other ≡ false) (sym q) f in
                  ap (λ b. if b then some s else find other rest) f
                  ∙ sym (
                      find-cons k other t rest
                      ∙ ap (λ b. if b then some t else find other rest) g)))

    further :
        find other (put key s rest) ≡ (if same_location key other then some s else find other rest)
        → same_location k key ≡ false
        → find other ((k, t) ∷ put key s rest)
          ≡ (if same_location key other then some s else find other ((k, t) ∷ rest))
    further ih e = elim (Bool-cases (same_location k other)) [
      | inl f ↦
          let g = differ k key other f e in
          find-cons k other t (put key s rest)
          ∙ (ap (λ b. if b then some t else find other (put key s rest)) f
              ∙ sym (
                  ap (λ b. if b then some s else find other ((k, t) ∷ rest)) g
                  ∙ (find-cons k other t rest ∙ ap (λ b. if b then some t else find other rest) f)))
      | inr f ↦
          let tail : find other ((k, t) ∷ rest) ≡ find other rest =
            find-cons k other t rest ∙ ap (λ b. if b then some t else find other rest) f in
          find-cons k other t (put key s rest)
          ∙ (ap (λ b. if b then some t else find other (put key s rest)) f
              ∙ (ih ∙ ap (λ o. if same_location key other then some s else o) (sym tail)))
    ]

reached :
    (o : Outside) (destination : NetLocation) (payload : List ℕ) (addr : SocketAddr) (l : Routing)
    → same_location destination unspecified ≡ false
    → o.resolve destination ≡ ok addr
    → (find destination l.sessions ≢ none) ⊎ (o.socket ≡ ok tt)
    → from_client o (ok (destination, payload)) l ≡ forward o destination payload addr l
unfolding from_client resolved
reached o destination payload addr l named found ready_to =
    rw (named, found) (went (find destination l.sessions) refl)
  where
    went :
        (x : Option Session)
        → find destination l.sessions ≡ x
        → in_session o destination payload addr l x ≡ forward o destination payload addr l
    went (some s) e = unfold in_session in refl
    went none e = elim ready_to [
      | inl f ↦ absurd (f e)
      | inr f ↦ unfold in_session in unfold created in rw f refl
    ]

-- A packet for a destination that is resolved, and that has a session or gets a socket, is sent to the address, and the
-- session of the destination is active now; the sessions of all other destinations are as the cleanup left them.
pub turn-packet :
    (o : Outside) (destination : NetLocation) (payload : List ℕ) (addr : SocketAddr) (l : Routing)
    → same_location destination unspecified ≡ false
    → o.resolve destination ≡ ok addr
    → (find destination ((cleanup o l).sessions) ≢ none) ⊎ (o.socket ≡ ok tt)
    → (let after = turn o (packet (ok (destination, payload))) l in
        (after.0 ≡ goes_on)
        × (after.1.sent ≡ (cleanup o l).sent ++ ((destination, addr, payload) ∷ []))
        × ((other : NetLocation)
            → find other (after.1.sessions) ≡ (
                if same_location destination other
                then some (record { last_activity = o.now })
                else find other ((cleanup o l).sessions))))
unfolding turn take_event from_client
turn-packet o destination payload addr l named found ready_to =
    let l' = cleanup o l in
    subst Sends (sym (reached o destination payload addr l' named found ready_to)) (
      unfold forward in
      (
        refl,
        refl,
        λ other. find-put destination other (record { last_activity = o.now }) (l'.sessions),
      ))
  where
    Sends : Turned → Type 0
    Sends after =
        (after.0 ≡ goes_on)
        × (after.1.sent ≡ (cleanup o l).sent ++ ((destination, addr, payload) ∷ []))
        × ((other : NetLocation)
            → find other (after.1.sessions) ≡ (
                if same_location destination other
                then some (record { last_activity = o.now })
                else find other ((cleanup o l).sessions)))
