-- ===== src/Hysteria2/Datagrams/Sessions.antt =====
-- src/hysteria2.rs, run_udp_local_to_remote_loop: what a turn does to the sessions.
use rust_proxy.Prelude.{
  ℕ, ◌≡◌, refl, sym, ◌∙◌, subst, inl, inr, true, false, Option, none, some, List, [], ◌∷◌, arith,
  leb, ◌==◌, if◌then◌else◌, Bool-cases, Result, ok, err, panic, if-cases,
}
use rust_proxy.Address.{NetLocation, SocketAddr}
use rust_proxy.Hysteria2.Fragments.{FragmentedPacket, Received, receive}
use rust_proxy.Hysteria2.Datagrams.{
  Datagram, parse_datagram, Cache, Outside, same_location, lookup, erase, store, UdpSession, Loop,
  cleanup, session_of, cached, updated, choose, target, Turned, forwarded, send, joined, in_session,
  handle_parsed, turn,
}

module _ {A : Type 0} where
  lookup-erase :
      (id j : ℕ) (m : List (ℕ × A)) → lookup j (erase id m) ≡ (if id == j then none else lookup j m)
  unfolding lookup erase
  lookup-erase id j [] =
      if-cases (λ (o : Option A). none ≡ o) (id == j) none none (λ _. refl) (λ _. refl)
  lookup-erase id j ((i, a) ∷ rest) = elim (Bool-cases (i == id)) [
    | inl e ↦ elim (Bool-cases (id == j)) [
      | inl f ↦ rw (e, f) (lookup-erase id j rest ∙ rw f refl)
      | inr f ↦
          let g : (i == j) ≡ false = ground arith in
          rw (e, f, g) (lookup-erase id j rest ∙ rw f refl)
    ]
    | inr e ↦ elim (Bool-cases (i == j)) [
      | inl f ↦ let g : (id == j) ≡ false = ground arith in rw (e, f, g) refl
      | inr f ↦ rw (e, f) (lookup-erase id j rest)
    ]
  ]

  lookup-store :
      (id j : ℕ) (a : A) (m : List (ℕ × A))
      → lookup j (store id a m) ≡ (if id == j then some a else lookup j m)
  lookup-store id j a m =
      unfold lookup in
      elim (Bool-cases (id == j)) [
        | inl e ↦ rw e refl
        | inr e ↦ rw e (lookup-erase id j m ∙ rw e refl)
      ]

module _ (cache : Cache) where
  -- What stays of a session, whatever datagrams it gets.
  pub record Same (s s' : UdpSession cache) : Type 0 where
    pub activity : s'.last_activity ≡ s.last_activity
    pub overrides : s'.override_remote_write_address ≡ s.override_remote_write_address

  abbrev pub Sessions : Type 0
  Sessions = List (ℕ × UdpSession cache)

  -- A step of the session `id` alone.
  pub record Alone (id : ℕ) (m m' : Sessions) : Type 0 where
    pub others : (j : ℕ) → (id == j) ≡ false → lookup j m' ≡ lookup j m
    pub itself :
        (s s' : UdpSession cache) → lookup id m ≡ some s → lookup id m' ≡ some s' → Same s s'

  abbrev Known : ℕ → Sessions → UdpSession cache → Type 0
  Known id m s = (s0 : UdpSession cache) → lookup id m ≡ some s0 → Same s0 s

  Same-refl : (s : UdpSession cache) → Same s s
  Same-refl s = record { activity = refl; overrides = refl }

  unchanged : (id : ℕ) (m : Sessions) → Alone id m m
  unchanged id m = record {
    others = λ j e. refl;
    itself = λ s s' e f.
        let q : s ≡ s' = let z : some s ≡ some s' = sym e ∙ f in cc in
        subst (Same s) q (Same-refl s);
  }

  stored-Alone :
      (id : ℕ) (m : Sessions) (s : UdpSession cache) → Known id m s → Alone id m (store id s m)
  stored-Alone id m s k = record {
    others = λ j e. lookup-store id j s m ∙ rw e refl;
    itself = λ s0 s' e f.
        let here : (id == id) ≡ true = ground arith in
        let q : s ≡ s' =
          let z : some s ≡ some s' = sym (lookup-store id id s m ∙ rw here refl) ∙ f in cc in
        subst (Same s0) q (k s0 e);
  }

  erased-Alone : (id : ℕ) (m : Sessions) → Alone id m (erase id m)
  erased-Alone id m = record {
    others = λ j e. lookup-erase id j m ∙ rw e refl;
    itself = λ s s' e f.
        let here : (id == id) ≡ true = ground arith in
        let z : none ≡ some s' = sym (lookup-erase id id m ∙ rw here refl) ∙ f in absurd cc;
  }

  -- What a turn of the session `id` gives, from `l` on.
  abbrev Turns : ℕ → Loop cache → Turned cache → Type 0
  Turns id l t = Alone id l.sessions (t.1.sessions)

  cached-Same :
      (d : Datagram) (s : UdpSession cache) (o : Option FragmentedPacket)
      → Same s (cached cache d s o)
  unfolding cached
  cached-Same d s none =
      if-cases (Same s) (leb d.fragment.fragment_count 1) s _ (λ _. Same-refl s)
        (λ _. record { activity = refl; overrides = refl })
  cached-Same d s (some e) =
      if-cases (Same s) (leb d.fragment.fragment_count 1) s _ (λ _. Same-refl s)
        (λ _. record { activity = refl; overrides = refl })

  Known-Same :
      (id : ℕ) (m : Sessions) (s s' : UdpSession cache) → Known id m s → Same s s' → Known id m s'
  Known-Same id m s s' k e s0 q =
      let a = k s0 q in
      record { activity = e.activity ∙ a.activity; overrides = e.overrides ∙ a.overrides }

  -- The session behind the choice of the address.
  abbrev Chosen : UdpSession cache → Result (SocketAddr × UdpSession cache) → Type 0
  Chosen s (ok (addr, s')) = Same s s'
  Chosen s (err e) = Unit
  Chosen s panic = Unit

  updated-Chosen :
      (s : UdpSession cache) (location : NetLocation) (r : Result SocketAddr)
      → Chosen s (updated cache s location r)
  unfolding updated
  updated-Chosen s location (ok addr) = record { activity = refl; overrides = refl }
  updated-Chosen s location (err e) = tt
  updated-Chosen s location panic = tt

  choose-Chosen :
      (o : Outside) (s : UdpSession cache) (location : NetLocation) (addr : Option SocketAddr)
      → Chosen s (choose cache o s location addr)
  unfolding choose
  choose-Chosen o s location (some addr) = Same-refl s
  choose-Chosen o s location none =
      if-cases (Chosen s) (same_location location s.last_location) _ _ (λ _. Same-refl s)
        (λ _. updated-Chosen s location (o.resolve location))

  forwarded-Turns :
      (id : ℕ) (payload : List ℕ) (addr : SocketAddr) (s : UdpSession cache) (l : Loop cache)
      (r : Result (Unit {0}))
      → Known id l.sessions s
      → Turns id l (forwarded cache id payload addr s l r)
  unfolding forwarded
  forwarded-Turns id payload addr s l (ok _) k = stored-Alone id l.sessions s k
  forwarded-Turns id payload addr s l (err e) k = erased-Alone id l.sessions
  forwarded-Turns id payload addr s l panic k = unchanged id l.sessions

  send-Turns :
      (o : Outside) (id : ℕ) (payload : List ℕ) (s : UdpSession cache) (l : Loop cache)
      (r : Result (SocketAddr × UdpSession cache))
      → Known id l.sessions s
      → Chosen s r
      → Turns id l (send cache o id payload s l r)
  unfolding send
  send-Turns o id payload s l (ok (addr, s')) k c =
      forwarded-Turns id payload addr s' l o.send_to (Known-Same id l.sessions s s' k c)
  send-Turns o id payload s l (err e) k c = stored-Alone id l.sessions s k
  send-Turns o id payload s l panic k c = unchanged id l.sessions

  joined-Turns :
      (o : Outside) (d : Datagram) (s : UdpSession cache) (l : Loop cache) (r : Received)
      → Known d.session_id l.sessions s
      → Turns d.session_id l (joined cache o d s l r)
  unfolding joined
  joined-Turns o d s l (ok none, entry) k =
      stored-Alone d.session_id l.sessions _
        (Known-Same d.session_id l.sessions s (cached cache d s entry) k (cached-Same d s entry))
  joined-Turns o d s l (ok (some (payload, location)), entry) k =
      let s' = cached cache d s entry in
      send-Turns o d.session_id payload s' l (target cache o s' location)
        (Known-Same d.session_id l.sessions s s' k (cached-Same d s entry))
        (choose-Chosen o s' location s'.override_remote_write_address)
  joined-Turns o d s l (err e, entry) k = unchanged d.session_id l.sessions
  joined-Turns o d s l (panic, entry) k = unchanged d.session_id l.sessions

  in_session-Turns :
      (o : Outside) (d : Datagram) (l : Loop cache) (r : Result (Option (UdpSession cache)))
      → ((s : UdpSession cache) → r ≡ ok (some s) → Known d.session_id l.sessions s)
      → Turns d.session_id l (in_session cache o d l r)
  unfolding in_session
  in_session-Turns o d l (ok none) k = unchanged d.session_id l.sessions
  in_session-Turns o d l (ok (some s)) k =
      joined-Turns o d s l (receive (cache.peek d.packet_id s.fragments) d.fragment) (k s refl)
  in_session-Turns o d l (err e) k = unchanged d.session_id l.sessions
  in_session-Turns o d l panic k = unchanged d.session_id l.sessions

  session_of-Known :
      (print_ipv6 : List ℕ → List ℕ) (o : Outside) (d : Datagram) (m : Sessions)
      (s : UdpSession cache)
      → session_of cache print_ipv6 o d.fragment.location (lookup d.session_id m) ≡ ok (some s)
      → Known d.session_id m s
  unfolding session_of
  session_of-Known print_ipv6 o d m s e s0 q =
      let found : session_of cache print_ipv6 o d.fragment.location (lookup d.session_id m)
          ≡ ok (some s0) =
        rw (q, session_of) refl in
      let z : s0 ≡ s = let y : ok (some s0) ≡ ok (some s) = sym found ∙ e in cc in
      subst (Same s0) z (Same-refl s0)

-- A turn of the loop, on any datagram, leaves the sessions of all other numbers as the cleanup left them. In the
-- session of the datagram, where it was there before and is there afterwards, the moment of its last activity
-- and the address that overrides its target are as before: also a session that is used is taken for idle.
pub turn-Alone :
    (cache : Cache) (parse_ipv6 : List ℕ → Option (List ℕ)) (print_ipv6 : List ℕ → List ℕ)
    (o : Outside) (received : List ℕ) (l : Loop cache) (d : Datagram)
    → parse_datagram parse_ipv6 received ≡ ok (some d)
    → Alone cache d.session_id
        ((cleanup cache o l).sessions)
        ((turn cache parse_ipv6 print_ipv6 o received l).1.sessions)
unfolding turn handle_parsed
turn-Alone cache parse_ipv6 print_ipv6 o received l d e =
    let l' = cleanup cache o l in
    subst
      (λ r.
        Alone cache d.session_id (l'.sessions) ((handle_parsed cache print_ipv6 o l' r).1.sessions))
      (sym e)
      (in_session-Turns cache o d l' _ (session_of-Known cache print_ipv6 o d (l'.sessions)))
