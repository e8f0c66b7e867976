-- ===== src/Hysteria2/Fragments/Sending.antt =====
-- src/hysteria2.rs: the datagrams that a payload is sent in.
use rust_proxy.Prelude.{
  ℕ, zero, suc, ◌+◌, ◌-◌, ◌*◌, ◌%◌, ◌^◌, ◌≤◌, ◌<◌, min, ◌≡◌, refl, sym, ap, ◌∙◌, subst, inl, inr,
  true, false, List, [], ◌∷◌, ◌++◌, append-nil, arith, ltb, leb, Bool-cases, length, drop,
  length-append, length-take, length-drop, take-append-drop, All, slice, drop-drop, take_all,
  drop_all, ok,
}
use native.Mathlib.Nat.{div-add-mod'}
use rust_proxy.Hysteria2.Fragments.{
  Header, header_overhead, datagram, div_ceil, part, send_parts, send_payload,
}
use rust_proxy.Hysteria2.Fragments.Reassembly.{joined}

-- A part and what is behind it.
slice-drop :
    (xs : List ℕ) (s a : ℕ) → slice xs s (min (s + a) (length xs)) ++ drop (s + a) xs ≡ drop s xs
slice-drop xs s a = elim (Bool-cases (leb (s + a) (length xs))) [
  | inl e ↦
      let z : min (s + a) (length xs) - s ≡ a = ground arith in
      rw (z, sym (drop-drop a s xs)) (take-append-drop a (drop s xs))
  | inr e ↦
      let all : length (drop s xs) ≤ min (s + a) (length xs) - s =
        ground (arith, length-drop s xs) in
      let none_left : drop (s + a) xs ≡ [] = drop_all (s + a) xs (ground arith) in
      rw (take_all _ (drop s xs) all, none_left, append-nil) refl
]

-- The parts with the numbers from `i` on, and their datagrams.
abbrev pub parts_from : List ℕ → ℕ → ℕ → ℕ → List (List ℕ)
parts_from payload available zero i = []
parts_from payload available (suc more) i =
    part payload available i ∷ parts_from payload available more (i + 1)

abbrev pub datagrams : Header → ℕ → ℕ → List (List ℕ) → List (List ℕ)
datagrams h count i [] = []
datagrams h count i (p ∷ ps) = datagram h i count p ∷ datagrams h count (i + 1) ps

next_start : (i a : ℕ) → (i + 1) * a ≡ i * a + a
next_start i a = omega arith

joined-parts_from :
    (payload : List ℕ) (a more i : ℕ)
    → length payload ≤ (i + more) * a
    → joined (parts_from payload a more i) ≡ drop (i * a) payload
joined-parts_from payload a zero i h =
    let z : i + zero ≡ i = omega arith in
    sym (drop_all (i * a) payload (subst (λ k. length payload ≤ k * a) z h))
joined-parts_from payload a (suc more) i h =
    let z : i + suc more ≡ i + 1 + more = omega arith in
    let rest = joined-parts_from payload a more (i + 1) (subst (λ k. length payload ≤ k * a) z h) in
    rw (rest, next_start i a) (slice-drop payload (i * a) a)

length-parts_from : (payload : List ℕ) (a more i : ℕ) → length (parts_from payload a more i) ≡ more
length-parts_from payload a zero i = refl
length-parts_from payload a (suc more) i = ap suc (length-parts_from payload a more (i + 1))

send_parts-datagrams :
    (h : Header) (payload : List ℕ) (a count more i : ℕ)
    → send_parts h payload a count more i ≡ datagrams h count i (parts_from payload a more i)
unfolding send_parts
send_parts-datagrams h payload a count zero i = refl
send_parts-datagrams h payload a count (suc more) i =
    ap (λ t. datagram h i count (part payload a i) ∷ t)
      (send_parts-datagrams h payload a count more (i + 1))

parts_from-short :
    (payload : List ℕ) (a more i : ℕ) → All (λ p. length p ≤ a) (parts_from payload a more i)
parts_from-short payload a zero i = tt
parts_from-short payload a (suc more) i = (
  omega (arith, length-take (min (i * a + a) (length payload) - i * a) (drop (i * a) payload)),
  parts_from-short payload a more (i + 1),
)

length-datagram :
    (h : Header) (i count : ℕ) (p : List ℕ)
    → length (datagram h i count p) ≡ header_overhead h + length p
length-datagram h i count p = omega (
  arith,
  length-append h.address_len_bytes (h.address_bytes ++ p),
  length-append h.address_bytes p,
)

datagrams-short :
    (h : Header) (size count i : ℕ) (ps : List (List ℕ))
    → header_overhead h < size
    → All (λ p. length p ≤ size - header_overhead h) ps
    → All (λ d. length d ≤ size) (datagrams h count i ps)
datagrams-short h size count i [] k s = tt
datagrams-short h size count i (p ∷ ps) k s =
    (omega (arith, length-datagram h i count p, s.0), datagrams-short h size count (i + 1) ps k s.1)

div_ceil_lem : (n d : ℕ) → 0 < d → n ≤ div_ceil n d * d
div_ceil_lem n d h =
    let e = div-add-mod' (n + (d - 1)) d in
    let m : (n + (d - 1)) % d < d = omega arith in omega (arith, e, m)

-- A payload that does not fit one datagram, where the header leaves room for a byte and no more than 255
-- parts are needed, is sent in datagrams that are numbered from 0 and carry their count, none longer than
-- the connection allows, whose parts are together the payload.
pub send_payload-joined :
    (h : Header) (size : ℕ) (payload : List ℕ)
    → header_overhead h < size
    → size < header_overhead h + length payload
    → div_ceil (length payload) (size - header_overhead h) < 256
    → (ps : List (List ℕ)) × (send_payload h size payload ≡ ok (datagrams h (length ps) 0 ps))
      × (joined ps ≡ payload)
      × All (λ d. length d ≤ size) (datagrams h (length ps) 0 ps)
unfolding send_payload
send_payload-joined h size payload k big few =
    let a = size - header_overhead h in
    let n = div_ceil (length payload) a in
    let ps = parts_from payload a n 0 in
    let room : ltb (header_overhead h) size ≡ true = ground arith in
    let long : leb (header_overhead h + length payload) size ≡ false = ground arith in
    let m : n % 2 ^ 8 ≡ n = omega arith in
    let len : length ps ≡ n = length-parts_from payload a n 0 in
    let z : 0 * a ≡ 0 = omega arith in
    let zero_on : n ≡ 0 + n = omega arith in
    let whole : joined ps ≡ payload =
      joined-parts_from payload a n 0 (
        subst (λ k. length payload ≤ k * a) zero_on (div_ceil_lem (length payload) a (omega arith)))
      ∙ ap (λ t. drop t payload) z in
    (
      ps,
      rw (room, long, m, len) (ap ok (send_parts-datagrams h payload a n n 0)),
      whole,
      datagrams-short h size (length ps) 0 ps k (parts_from-short payload a n 0),
    )
