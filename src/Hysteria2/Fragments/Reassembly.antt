-- ===== src/Hysteria2/Fragments/Reassembly.antt =====
-- src/hysteria2.rs: the fragments of a packet, in whatever order they come.
use rust_proxy.Prelude.{
  ℕ, zero, suc, ◌+◌, ◌%◌, ◌^◌, ◌≤◌, ◌<◌, ◌≡◌, refl, sym, ap, ◌≢◌, ◌⊎◌, inl, inr, true, false,
  Option, none, some, List, [], ◌∷◌, ◌++◌, arith, ◌==◌, length, get_elem?, set, replicate, ok,
  if-cases,
}
use rust_proxy.Address.{NetLocation}
use rust_proxy.Hysteria2.Fragments.{
  FragmentedPacket, Fragment, complete_payload, Received, new_packet, with_fragment, completed,
  stored, joins, entry_of, receive,
}

abbrev pub joined : List (List ℕ) → List ℕ
joined [] = []
joined (p ∷ ps) = p ++ joined ps

-- The parts that have come are those of the payload.
abbrev pub Agrees : List (Option (List ℕ)) → List (List ℕ) → Type 0
Agrees [] [] = Unit
Agrees (none ∷ os) (p ∷ ps) = Agrees os ps
Agrees (some x ∷ os) (p ∷ ps) = (x ≡ p) × Agrees os ps
Agrees [] (p ∷ ps) = ⊥
Agrees (o ∷ os) [] = ⊥

abbrev pub count_some : List (Option (List ℕ)) → ℕ
count_some [] = 0
count_some (none ∷ os) = count_some os
count_some (some x ∷ os) = suc (count_some os)

count_some_le : (os : List (Option (List ℕ))) → count_some os ≤ length os
count_some_le [] = omega arith
count_some_le (none ∷ os) = omega (arith, count_some_le os)
count_some_le (some x ∷ os) = omega (arith, count_some_le os)

Agrees-none : (ps : List (List ℕ)) → Agrees (replicate (length ps) none) ps
Agrees-none [] = tt
Agrees-none (p ∷ ps) = Agrees-none ps

count_some-none : (n : ℕ) → count_some (replicate n none) ≡ 0
count_some-none zero = refl
count_some-none (suc n) = count_some-none n

Agrees-length :
    (os : List (Option (List ℕ))) (ps : List (List ℕ)) → Agrees os ps → length os ≡ length ps
Agrees-length [] [] h = refl
Agrees-length (none ∷ os) (p ∷ ps) h = ap suc (Agrees-length os ps h)
Agrees-length (some x ∷ os) (p ∷ ps) h = ap suc (Agrees-length os ps h.1)
Agrees-length [] (p ∷ ps) h = absurd h
Agrees-length (none ∷ os) [] h = absurd h
Agrees-length (some x ∷ os) [] h = absurd h

-- A part that comes to its place.
Agrees-set :
    (os : List (Option (List ℕ))) (ps : List (List ℕ)) (i : ℕ) (x : List ℕ)
    → Agrees os ps
    → get_elem? ps i ≡ some x
    → get_elem? os i ≡ some none
    → Agrees (set os i (some x)) ps × (count_some (set os i (some x)) ≡ suc (count_some os))
Agrees-set [] ps i x h e f = absurd cc
Agrees-set (none ∷ os) (p ∷ ps) zero x h e f = (let q : p ≡ x = cc in (sym q, h), refl)
Agrees-set (some y ∷ os) (p ∷ ps) zero x h e f = absurd cc
Agrees-set (none ∷ os) (p ∷ ps) (suc i) x h e f = Agrees-set os ps i x h e f
Agrees-set (some y ∷ os) (p ∷ ps) (suc i) x h e f =
    let (a, c) = Agrees-set os ps i x h.1 e f in ((h.0, a), ap suc c)
Agrees-set (none ∷ os) [] i x h e f = absurd h
Agrees-set (some y ∷ os) [] i x h e f = absurd h

-- All parts together are the payload.
complete_payload-joined :
    (os : List (Option (List ℕ))) (ps : List (List ℕ))
    → Agrees os ps
    → count_some os ≡ length os
    → complete_payload os ≡ ok (joined ps)
unfolding complete_payload
complete_payload-joined [] [] h c = refl
complete_payload-joined (none ∷ os) (p ∷ ps) h c = absurd (omega (arith, c, count_some_le os))
complete_payload-joined (some x ∷ os) (p ∷ ps) h c =
    rw (complete_payload-joined os ps h.1 (omega (arith, c)), h.0) refl
complete_payload-joined [] (p ∷ ps) h c = absurd h
complete_payload-joined (none ∷ os) [] h c = absurd h
complete_payload-joined (some x ∷ os) [] h c = absurd h

-- The entry of a packet with these parts, of which some are still to come.
pub record Holds (parts : List (List ℕ)) (to : NetLocation) (entry : FragmentedPacket)
    : Type 0 where
  pub agrees : Agrees entry.received parts
  pub counted : entry.fragment_count ≡ length parts
  pub received_lem : entry.fragment_received ≡ count_some entry.received
  pub waits : count_some entry.received < length parts
  pub place : entry.remote_location ≡ to

-- The fragment of the payload with this number.
abbrev pub fragment_of : List (List ℕ) → NetLocation → ℕ → List ℕ → Fragment
fragment_of parts to i bytes = record {
  fragment_id = i;
  fragment_count = length parts;
  bytes = bytes;
  location = to;
}

-- What comes of a fragment: nothing yet, and one more part is there than before or the packet is
-- forgotten; or the whole payload.
abbrev pub Progresses : List (List ℕ) → NetLocation → FragmentedPacket → ℕ → Received → Type 0
Progresses parts to entry i (r, none) =
    ((r ≡ ok none) × (get_elem? entry.received i ≢ some none)) ⊎ (r ≡ ok (some (joined parts, to)))
Progresses parts to entry i (r, some entry') =
    (r ≡ ok none)
    × Holds parts to entry'
    × (count_some entry'.received ≡ suc (count_some entry.received))

module _ (parts : List (List ℕ)) (to : NetLocation) (few : length parts < 256) where
  completed-Progresses :
      (entry : FragmentedPacket) (i : ℕ) (bytes : List ℕ)
      → Holds parts to entry
      → get_elem? parts i ≡ some bytes
      → get_elem? entry.received i ≡ some none
      → Progresses parts to entry i (completed (with_fragment entry (fragment_of parts to i bytes)))
  unfolding completed
  completed-Progresses entry i bytes h e f =
      let (agrees, grown) = Agrees-set entry.received parts i bytes h.agrees e f in
      let len = Agrees-length _ parts agrees in
      let next = set entry.received i (some bytes) in
      let received_next : (entry.fragment_received + 1) % 2 ^ 8 ≡ count_some next =
        omega (arith, h.received_lem, h.waits, grown) in
      if-cases (Progresses parts to entry i)
        ((entry.fragment_received + 1) % 2 ^ 8 == entry.fragment_count) _ _
        (λ q.
          let full : count_some next ≡ length next =
            ground (arith, received_next, len, h.counted) in
          inr (rw (complete_payload-joined next parts agrees full, h.place) refl))
        (λ q. (
          refl,
          record {
            agrees = agrees;
            counted = h.counted;
            received_lem = received_next;
            waits = ground (arith, received_next, h.counted, grown, h.waits);
            place = h.place;
          },
          grown,
        ))

  stored-Progresses :
      (entry : FragmentedPacket) (i : ℕ) (bytes : List ℕ) (o : Option (Option (List ℕ)))
      → Holds parts to entry
      → get_elem? parts i ≡ some bytes
      → get_elem? entry.received i ≡ o
      → o ≢ none
      → Progresses parts to entry i (stored entry (fragment_of parts to i bytes) o)
  unfolding stored
  stored-Progresses entry i bytes none h e f c = absurd (c refl)
  stored-Progresses entry i bytes (some (some x)) h e f c = inl (refl, λ g. cc)
  stored-Progresses entry i bytes (some none) h e f c = completed-Progresses entry i bytes h e f

  inside :
      (os : List (Option (List ℕ))) (ps : List (List ℕ)) (i : ℕ) (x : List ℕ)
      → length os ≡ length ps
      → get_elem? ps i ≡ some x
      → get_elem? os i ≢ none
  inside [] [] i x h e = absurd cc
  inside (o ∷ os) (p ∷ ps) zero x h e = λ g. cc
  inside (o ∷ os) (p ∷ ps) (suc i) x h e = inside os ps i x (omega (arith, h)) e
  inside [] (p ∷ ps) i x h e = absurd (omega (arith, h))
  inside (o ∷ os) [] i x h e = absurd (omega (arith, h))

  joins-Progresses :
      (entry : FragmentedPacket) (i : ℕ) (bytes : List ℕ)
      → Holds parts to entry
      → get_elem? parts i ≡ some bytes
      → Progresses parts to entry i (joins entry (fragment_of parts to i bytes))
  unfolding joins
  joins-Progresses entry i bytes h e =
      let same : (entry.fragment_count == length parts) ≡ true = ground (arith, h.counted) in
      simp same (
        stored-Progresses entry i bytes (get_elem? entry.received i) h e refl
          (inside entry.received parts i bytes (Agrees-length entry.received parts h.agrees) e))

  new_packet-Holds :
      (i : ℕ) (bytes : List ℕ)
      → 0 < length parts
      → Holds parts to (new_packet (fragment_of parts to i bytes))
  new_packet-Holds i bytes h = record {
    agrees = Agrees-none parts;
    counted = refl;
    received_lem = sym (count_some-none (length parts));
    waits = omega (arith, count_some-none (length parts));
    place = refl;
  }

-- What the cache may hold for a packet.
abbrev pub Cached : List (List ℕ) → NetLocation → Option FragmentedPacket → Type 0
Cached parts to none = Unit
Cached parts to (some entry) = Holds parts to entry

-- A fragment of a packet of two parts at least, whatever parts came before it and in whatever order, does
-- not panic. It gives nothing yet, and one more part is there; or the whole payload, its parts in the
-- order of their numbers, for the location that came with it; only a part that was there already makes
-- the packet forgotten without a payload.
pub receive-Progresses :
    (parts : List (List ℕ)) (to : NetLocation) (cached : Option FragmentedPacket) (i : ℕ)
    (bytes : List ℕ)
    → 1 < length parts
    → length parts < 256
    → Cached parts to cached
    → get_elem? parts i ≡ some bytes
    → (let f = fragment_of parts to i bytes in
        Progresses parts to (entry_of cached f) i (receive cached f))
unfolding receive entry_of
receive-Progresses parts to cached i bytes h k c e =
    let f = fragment_of parts to i bytes in
    let z : (length parts == 0) ≡ false = ground arith in
    let o : (length parts == 1) ≡ false = ground arith in
    rw (z, o) (joins-Progresses parts to k (entry_of cached f) i bytes (held cached c) e)
  where
    held :
        (cached : Option FragmentedPacket)
        → Cached parts to cached
        → Holds parts to (entry_of cached (fragment_of parts to i bytes))
    held none c = new_packet-Holds parts to k i bytes (omega arith)
    held (some entry) c = c
