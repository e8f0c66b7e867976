-- ===== src/Anytls/Session/Forward/Locations.antt =====
-- src/anytls/session.rs, read_location_direct: a destination that is written is read.
use rust_proxy.Prelude.{
  ℕ, ◌+◌, ◌-◌, ◌/◌, ◌%◌, ◌≤◌, ◌<◌, ◌≡◌, refl, sym, ap, ap₂, ◌∙◌, true, Option, List, [], ◌∷◌, ◌++◌,
  append-nil, append_assoc, arith, ltb, ◌==◌, ltb→lt, length, get_or, take, drop, length-append,
  length-drop, take-append, drop-append, take-append_le, drop-append_le, be16, from_be16,
  from_be16-be16, take-append_ge, drop-append_ge, Arrival, not_yet, breaks, arrives, ok, ready,
  get_or-append_length, if-cases,
}
use rust_proxy.Utf8.{is_utf8}
use rust_proxy.Address.{Address, ipv4, ipv6, hostname, NetLocation}
use rust_proxy.Address.Parse.{from}
use rust_proxy.Anytls.Session.Frames.{flow_bytes}
use rust_proxy.Anytls.Session.Forward.{
  Taken, read_more, read_exact, awaited, port_at, with_domain, location_of, read_location_direct,
}

-- A read that gives `a` and leaves just the bytes `rest`, up to an end, an error or a wait.
abbrev pub Reads : {A : Type 0} → A → List ℕ → Taken A → Type 0
Reads a rest o = (es : List Arrival) × (o ≡ (ready (ok a), es)) × (flow_bytes es ≡ rest)

-- Nothing more is needed.
enough :
    (need : ℕ) (got : List ℕ) (es : List Arrival)
    → need ≡ 0
    → Reads (got ++ take need (flow_bytes es)) (drop need (flow_bytes es)) (ready (ok got), es)
enough need got es e = rw e (es, rw (append-nil got) refl, refl)

kept_flow :
    (ys : List ℕ) (rest : List Arrival)
    → 0 < length ys
    → flow_bytes (arrives ys ∷ rest) ≡ ys ++ flow_bytes rest
kept_flow [] rest h = absurd (omega arith)
kept_flow (y ∷ ys) rest h = refl

-- A read gets the next bytes, whatever the pieces that they arrive in.
read_more-Reads :
    (need : ℕ) (got : List ℕ) (es : List Arrival)
    → need ≤ length (flow_bytes es)
    → Reads (got ++ take need (flow_bytes es)) (drop need (flow_bytes es)) (read_more need got es)
unfolding read_more
read_more-Reads need got [] h =
    if-cases (Reads (got ++ take need []) (drop need [])) (need == 0) _ _
      (λ t. enough need got [] (ground arith)) (λ t. absurd (ground arith))
read_more-Reads need got (not_yet ∷ rest) h =
    if-cases (Reads (got ++ take need (flow_bytes rest)) (drop need (flow_bytes rest))) (need == 0)
      _ _ (λ t. enough need got (not_yet ∷ rest) (ground arith))
      (λ t. read_more-Reads need got rest h)
read_more-Reads need got (breaks e ∷ rest) h =
    if-cases (Reads (got ++ take need []) (drop need [])) (need == 0) _ _
      (λ t. enough need got (breaks e ∷ rest) (ground arith)) (λ t. absurd (ground arith))
read_more-Reads need got (arrives [] ∷ rest) h =
    if-cases (Reads (got ++ take need []) (drop need [])) (need == 0) _ _
      (λ t. enough need got (arrives [] ∷ rest) (ground arith)) (λ t. absurd (ground arith))
read_more-Reads need got (arrives (x ∷ xs) ∷ rest) h =
    let bs : List ℕ = x ∷ xs in
    let more = flow_bytes rest in
    if-cases (Reads (got ++ take need (bs ++ more)) (drop need (bs ++ more))) (need == 0) _ _
      (λ t. enough need got (arrives bs ∷ rest) (ground arith))
      (λ t.
        if-cases (Reads (got ++ take need (bs ++ more)) (drop need (bs ++ more)))
          (ltb need (length bs)) _ _
          (λ l.
            let short : need < length bs = ltb→lt _ _ l in
            let front : take need (bs ++ more) ≡ take need bs =
              take-append_le need bs more (omega arith) in
            let back : drop need (bs ++ more) ≡ drop need bs ++ more =
              drop-append_le need bs more (omega arith) in
            (
              arrives (drop need bs) ∷ rest,
              ap (λ t. (ready (ok (got ++ t)), arrives (drop need bs) ∷ rest)) (sym front),
              kept_flow (drop need bs) rest (omega (arith, length-drop need bs)) ∙ sym back,
            ))
          (λ l.
            let long : length bs ≤ need = ground arith in
            let front : take need (bs ++ more) ≡ bs ++ take (need - length bs) more =
              take-append_ge need bs more long in
            let back : drop need (bs ++ more) ≡ drop (need - length bs) more =
              drop-append_ge need bs more long in
            let (es, e, f) =
              read_more-Reads (need - length bs) (got ++ bs) rest
                (omega (arith, h, length-append bs more)) in
            (
              es,
              e
                  ∙ ap (λ t. (ready (ok t), es))
                      (append_assoc got bs (take (need - length bs) more)
                        ∙ ap (λ t. got ++ t) (sym front)),
              f ∙ sym back,
            )))

-- Bytes that stand in front are read.
read_exact-Reads :
    (n : ℕ) (bs rest : List ℕ) (es : List Arrival)
    → n ≡ length bs
    → flow_bytes es ≡ bs ++ rest
    → Reads bs rest (read_exact n es)
read_exact-Reads n bs rest es e f =
    let (es', q, g) = read_more-Reads n [] es (rw (e, f) (omega (arith, length-append bs rest))) in
    let front : take n (flow_bytes es) ≡ bs = rw (e, f) (take-append bs rest) in
    let back : drop n (flow_bytes es) ≡ rest = rw (e, f) (drop-append bs rest) in
    (es', q ∙ ap (λ t. (ready (ok t), es')) front, g ∙ back)

awaited-Reads :
    {A B : Type 0} (a : A) (b : B) (middle rest : List ℕ) (o : Taken A)
    (f : A → List Arrival → Taken B)
    → Reads a middle o
    → ((es : List Arrival) → flow_bytes es ≡ middle → Reads b rest (f a es))
    → Reads b rest (awaited o f)
unfolding awaited
awaited-Reads a b middle rest o f (es, e, g) k = rw e (k es g)

-- The text or the octets of an address, and the port, in one buffer.
port_at-append :
    (t : List ℕ) (port n : ℕ) → n ≡ length t → port < 65536 → port_at n (t ++ be16 port) ≡ port
port_at-append t port n e h =
    let z : length t + 0 ≡ length t = omega arith in
    let first : get_or (t ++ be16 port) n 0 ≡ port / 256 % 256 =
      ap (λ i. get_or (t ++ be16 port) i 0) (e ∙ sym z) ∙ get_or-append_length t (be16 port) 0 0 in
    let second : get_or (t ++ be16 port) (n + 1) 0 ≡ port % 256 =
      ap (λ i. get_or (t ++ be16 port) (i + 1) 0) e ∙ get_or-append_length t (be16 port) 1 0 in
    ap₂ from_be16 first second ∙ from_be16-be16 port h

take_all_of : (t more : List ℕ) (n : ℕ) → n ≡ length t → take n (t ++ more) ≡ t
take_all_of t more n e = rw e (take-append t more)

-- A destination as a client writes it: the type, the address and the port.
abbrev pub written : Address → ℕ → List ℕ
written (ipv4 octets) port = 1 ∷ (octets ++ be16 port)
written (ipv6 octets) port = 4 ∷ (octets ++ be16 port)
written (hostname name) port = 3 ∷ length name ∷ (name ++ be16 port)

abbrev pub place : Address → ℕ → NetLocation
place address port = record { address = address; port = port }

module _ (parse_ipv6 : List ℕ → Option (List ℕ)) where
  -- An address that can be written: of its length, and a name that is parsed as a name.
  abbrev pub IsWritable : Address → Type 0
  IsWritable (ipv4 octets) = length octets ≡ 4
  IsWritable (ipv6 octets) = length octets ≡ 16
  IsWritable (hostname name) = (is_utf8 name ≡ true) × (from parse_ipv6 name ≡ ok (hostname name))

  with_domain_lem :
      (name : List ℕ) (port : ℕ)
      → IsWritable (hostname name)
      → port < 65536
      → with_domain parse_ipv6 (length name) (name ++ be16 port)
        ≡ ok (record { address = hostname name; port = port })
  unfolding with_domain
  with_domain_lem name port (u, f) h =
      let text = take_all_of name (be16 port) (length name) refl in
      let number = port_at-append name port (length name) refl h in rw (text, u, f, number) refl

  -- By the type: what follows it is read.
  location_of-Reads :
      (address : Address) (port : ℕ) (rest : List ℕ)
      → IsWritable address
      → port < 65536
      → (first : ℕ) × (body : List ℕ) × (written address port ≡ first ∷ body)
        × ((es : List Arrival)
            → flow_bytes es ≡ body ++ rest
            → Reads (place address port) rest (location_of parse_ipv6 first es))
  unfolding location_of
  location_of-Reads (ipv4 octets) port rest w h = (
    1,
    octets ++ be16 port,
    refl,
    λ es e.
        awaited-Reads (octets ++ be16 port) (place (ipv4 octets) port) rest rest (read_exact 6 es) _
          (read_exact-Reads 6 (octets ++ be16 port) rest es
            (omega (arith, w, length-append octets (be16 port))) e)
          (λ es' f. (
            es',
            ap₂ (λ o n. (ready (ok (place (ipv4 o) n)), es'))
                (take_all_of octets (be16 port) 4 (sym w)) (port_at-append octets port 4 (sym w) h),
            f,
          )),
  )
  location_of-Reads (ipv6 octets) port rest w h = (
    4,
    octets ++ be16 port,
    refl,
    λ es e.
        awaited-Reads (octets ++ be16 port) (place (ipv6 octets) port) rest rest (read_exact 18 es)
          _
          (read_exact-Reads 18 (octets ++ be16 port) rest es
            (omega (arith, w, length-append octets (be16 port))) e)
          (λ es' f. (
            es',
            ap₂ (λ o n. (ready (ok (place (ipv6 o) n)), es'))
                (take_all_of octets (be16 port) 16 (sym w))
                (port_at-append octets port 16 (sym w) h),
            f,
          )),
  )
  location_of-Reads (hostname name) port rest w h = (
    3,
    length name ∷ (name ++ be16 port),
    refl,
    λ es e.
        awaited-Reads (length name ∷ []) (place (hostname name) port) ((name ++ be16 port) ++ rest)
          rest (read_exact 1 es) _
          (read_exact-Reads 1 (length name ∷ []) ((name ++ be16 port) ++ rest) es refl e)
          (λ es' f.
            awaited-Reads (name ++ be16 port) (place (hostname name) port) rest rest
              (read_exact (length name + 2) es') _
              (read_exact-Reads (length name + 2) (name ++ be16 port) rest es'
                (omega (arith, length-append name (be16 port))) f)
              (λ es'' g. (es'', ap (λ r. (ready r, es'')) (with_domain_lem name port w h), g))),
  )

  -- A destination that a client writes is read as it is, in whatever pieces it arrives, and what follows it is left
  -- for the stream.
  pub read_location_direct-written :
      (address : Address) (port : ℕ) (rest : List ℕ) (es : List Arrival)
      → IsWritable address
      → port < 65536
      → flow_bytes es ≡ written address port ++ rest
      → (es' : List Arrival) × (read_location_direct parse_ipv6 es
          ≡ (ready (ok (place address port)), es'))
        × (flow_bytes es' ≡ rest)
  unfolding read_location_direct
  read_location_direct-written address port rest es w h e =
      let (first, body, q, k) = location_of-Reads address port rest w h in
      awaited-Reads (first ∷ []) (place address port) (body ++ rest) rest (read_exact 1 es) _
        (read_exact-Reads 1 (first ∷ []) (body ++ rest) es refl (e ∙ ap (λ t. t ++ rest) q)) k
