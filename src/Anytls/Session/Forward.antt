-- ===== src/Anytls/Session/Forward.antt =====
-- src/anytls/session.rs, read_location_direct and handle_new_stream: where a stream goes.
pub mod Locations
use rust_proxy.Prelude.{
  ℕ, ◌+◌, ◌-◌, Bool, not, Option, none, some, List, [], ◌∷◌, ◌++◌, ltb, ◌==◌, if◌then◌else◌, length,
  get_or, take, drop, from_be16, Arrival, not_yet, breaks, arrives, Error, Result, ok, err, panic,
  ◌>>=◌, Poll, pending, ready,
}
use rust_proxy.Utf8.{is_utf8}
use rust_proxy.Address.{Address, ipv4, ipv6, hostname, NetLocation}
use rust_proxy.Address.Parse.{from}
use rust_proxy.Anytls.StringMap.{same_text}
use rust_proxy.Anytls.Session.Wire.{Padding}
use rust_proxy.Anytls.Session.Receive.{Session, Handled, send_synack}

abbrev pub Taken : Type 0 → Type 0
Taken A = Poll (Result A) × List Arrival

-- `read_exact` of `need` more bytes, where `got` are those it has; the end of the stream is an error.
unfoldable pub read_more : ℕ → List ℕ → List Arrival → Taken (List ℕ)
read_more need got [] = if need == 0 then (ready (ok got), []) else (pending, [])
read_more need got (not_yet ∷ rest) =
    let later = read_more need got rest in
    if need == 0 then (ready (ok got), not_yet ∷ rest) else later
read_more need got (breaks e ∷ rest) =
    if need == 0 then (ready (ok got), breaks e ∷ rest) else (ready (err (Error.device e)), rest)
read_more need got (arrives [] ∷ rest) =
    if need == 0
    then (ready (ok got), arrives [] ∷ rest)
    else (ready (err Error.unexpected_eof), rest)
read_more need got (arrives (x ∷ xs) ∷ rest) =
    let bs = x ∷ xs in
    let later = read_more (need - length bs) (got ++ bs) rest in
    if need == 0
    then (ready (ok got), arrives bs ∷ rest)
    else if ltb need (length bs)
    then (ready (ok (got ++ take need bs)), arrives (drop need bs) ∷ rest)
    else later

abbrev pub read_exact : ℕ → List Arrival → Taken (List ℕ)
read_exact n es = read_more n [] es

-- `.await?`
unfoldable pub awaited : {A B : Type 0} → Taken A → (A → List Arrival → Taken B) → Taken B
awaited (ready (ok a), es) f = f a es
awaited (ready (err e), es) f = (ready (err e), es)
awaited (ready panic, es) f = (ready panic, es)
awaited (pending, es) f = (pending, es)

-- The port in the two bytes from `at` on.
abbrev pub port_at : ℕ → List ℕ → ℕ
port_at at buf = from_be16 (get_or buf at 0) (get_or buf (at + 1) 0)

module _ (parse_ipv6 : List ℕ → Option (List ℕ)) where
  unfoldable pub with_domain : ℕ → List ℕ → Result NetLocation
  with_domain domain_len buf =
      let domain = take domain_len buf in
      if not (is_utf8 domain)
      then err Error.invalid_data
      else from parse_ipv6 domain >>= λ address.
          ok (record { address = address; port = port_at domain_len buf })

  unfoldable pub location_of : ℕ → List Arrival → Taken NetLocation
  location_of addr_type es =
      if addr_type == 1
      then awaited (read_exact 6 es) (λ buf es'.
        (ready (ok (record { address = ipv4 (take 4 buf); port = port_at 4 buf })), es'))
      else if addr_type == 4
      then awaited (read_exact 18 es) (λ buf es'.
        (ready (ok (record { address = ipv6 (take 16 buf); port = port_at 16 buf })), es'))
      else if addr_type == 3
      then awaited (read_exact 1 es) (λ len es'.
        let domain_len = get_or len 0 0 in
        awaited (read_exact (domain_len + 2) es')
          (λ buf es''. (ready (with_domain domain_len buf), es'')))
      else (ready (err Error.invalid_input), es)

  unfoldable pub read_location_direct : List Arrival → Taken NetLocation
  read_location_direct es =
      awaited (read_exact 1 es) (λ addr_type es'. location_of (get_or addr_type 0 0) es')

  -- What is done with a stream.
  pub data Route : Type 0 where
    tcp_forward : NetLocation → Route
    uot_v2_connect : NetLocation → Route
    uot_multi_destination : Route

  -- "sp.udp-over-tcp.arpa"
  abbrev pub uot_v1_magic_address : List ℕ
  uot_v1_magic_address =
      115 ∷ 112 ∷ 46 ∷ 117 ∷ 100 ∷ 112 ∷ 45 ∷ 111 ∷ 118 ∷ 101 ∷ 114 ∷ 45 ∷ 116 ∷ 99 ∷ 112 ∷ 46 ∷ 97
      ∷ 114 ∷ 112 ∷ 97 ∷ []

  -- "sp.v2.udp-over-tcp.arpa"
  abbrev pub uot_v2_magic_address : List ℕ
  uot_v2_magic_address =
      115 ∷ 112 ∷ 46 ∷ 118 ∷ 50 ∷ 46 ∷ 117 ∷ 100 ∷ 112 ∷ 45 ∷ 111 ∷ 118 ∷ 101 ∷ 114 ∷ 45 ∷ 116 ∷ 99
      ∷ 112 ∷ 46 ∷ 97 ∷ 114 ∷ 112 ∷ 97 ∷ []

  unfoldable pub handle_uot_v2 : Bool → List Arrival → Taken Route
  handle_uot_v2 udp_enabled es =
      if not udp_enabled
      then (ready (err Error.unsupported), es)
      else awaited (read_exact 1 es) (λ is_connect es'.
        awaited (read_location_direct es') (λ destination es''. (
          ready (
              ok (
                if get_or is_connect 0 0 == 1
                then uot_v2_connect destination
                else uot_multi_destination)),
          es'',
        )))

  unfoldable pub handle_uot_v1 : Bool → List Arrival → Taken Route
  handle_uot_v1 udp_enabled es =
      if not udp_enabled
      then (ready (err Error.unsupported), es)
      else (ready (ok uot_multi_destination), es)

  unfoldable pub routed : Bool → NetLocation → List Arrival → Taken Route
  routed udp_enabled destination es = elim destination.address [
    | ipv4 octets ↦ (ready (ok (tcp_forward destination)), es)
    | ipv6 octets ↦ (ready (ok (tcp_forward destination)), es)
    | hostname host ↦
        if same_text host uot_v2_magic_address
        then handle_uot_v2 udp_enabled es
        else if same_text host uot_v1_magic_address
        then handle_uot_v1 udp_enabled es
        else (ready (ok (tcp_forward destination)), es)
  ]

  unfoldable pub handle_new_stream : Bool → List Arrival → Taken Route
  handle_new_stream udp_enabled es = awaited (read_location_direct es) (routed udp_enabled)

-- What connecting gives: an error with the text of the answer, which is also that of a timeout.
pub data Connected : Type 0 where
  connected : Connected
  failed : Error → List ℕ → Connected
  elapsed : List ℕ → Connected

-- The answer to a stream before its bytes are copied; an error of the answer itself is dropped.
unfoldable pub answer_connect : Padding → Bool → ℕ → Connected → Session → Handled
answer_connect p in_time id connected s = (ok tt, (send_synack p in_time id none s).1)
answer_connect p in_time id (failed e text) s = (err e, (send_synack p in_time id (some text) s).1)
answer_connect p in_time id (elapsed text) s =
    (err Error.other, (send_synack p in_time id (some text) s).1)
