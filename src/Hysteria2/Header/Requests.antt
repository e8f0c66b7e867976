-- ===== src/Hysteria2/Header/Requests.antt =====
-- src/hysteria2.rs, handle_tcp_header: which request is accepted, and what is left behind it.
use rust_proxy.Prelude.{
  ℕ, ◌≤◌, ◌≡◌, refl, sym, subst, ◌≢◌, not, Option, none, some, List, ◌++◌, arith, ltb, ◌==◌, length,
  Arrival, Error, Result, ok, err, panic, ◌>>=◌, ready, if-cases,
}
use rust_proxy.Address.{NetLocation}
use rust_proxy.Address.Parse.{from_str}
use rust_proxy.Address.Parse.Calm.{Calm, from_str-Calm}
use rust_proxy.Utf8.{is_utf8}
use rust_proxy.Reader.{StreamReader, read_slice}
use rust_proxy.Reader.Waiting.{IsValid, unread}
use rust_proxy.Hysteria2.Header.{
  read_varint, frame_type_tcp_request, response_bytes, respond, skip_padding, with_location,
  with_address, with_address_len, with_request_id, handle_tcp_header,
}
use rust_proxy.Hysteria2.Header.Numbers.{
  Varint, Done, awaited-Done, fails_with-Done, read_slice-Done, read_varint-Done,
}

-- A request that is accepted: the bytes are its number, the address with its length and the padding with its
-- length, and `left` is what stands behind them.
pub record Request (parse_ipv6 : List ℕ → Option (List ℕ)) (bytes : List ℕ) (location : NetLocation)
    (left : List ℕ) : Type 0 where
  pub address : List ℕ
  pub padding : List ℕ
  pub after_id : List ℕ
  pub after_address : List ℕ
  pub id : Varint bytes frame_type_tcp_request after_id
  pub address_len : Varint after_id (length address) (address ++ after_address)
  pub address_fits : length address ≤ 2048
  pub parses : from_str parse_ipv6 address none ≡ ok location
  pub padding_len : Varint after_address (length padding) (padding ++ left)
  pub padding_fits : length padding ≤ 4096

module _ (parse_ipv6 : List ℕ → Option (List ℕ)) (send : List ℕ → Result (Unit {0}))
    (padding : List ℕ) (calm : send (response_bytes padding) ≢ panic) (bytes : List ℕ) where
  abbrev Accepts : NetLocation → List ℕ → Type 0
  Accepts = Request parse_ipv6 bytes

  respond-Done :
      (location : NetLocation) (r : StreamReader) (es : List Arrival)
      → Accepts location (unread r es)
      → IsValid r
      → Done Accepts (respond parse_ipv6 send padding location r es)
  unfolding respond
  respond-Done location r es a v = went (send (response_bytes padding)) calm
    where
      went :
          (x : Result (Unit {0}))
          → x ≢ panic
          → Done Accepts (some (ready (x >>= λ _. ok location), r, es))
      went (ok _) c = ((ready (ok location), r, es), refl, (a, v))
      went (err e) c = ((ready (err e), r, es), refl, tt)
      went panic c = absurd (c refl)

  -- What is read of a request when its address is parsed.
  record Addressed (location : NetLocation) (left : List ℕ) : Type 0 where
    text : List ℕ
    after_id : List ℕ
    id : Varint bytes frame_type_tcp_request after_id
    text_len : Varint after_id (length text) (text ++ left)
    text_fits : length text ≤ 2048
    parses : from_str parse_ipv6 text none ≡ ok location

  skip_padding-Done :
      (location : NetLocation) (after : List ℕ) (n : ℕ) (r : StreamReader) (es : List Arrival)
      → Addressed location after
      → Varint after n (unread r es)
      → IsValid r
      → Done Accepts (skip_padding parse_ipv6 send padding location n r es)
  unfolding skip_padding
  skip_padding-Done location after n r es a k v =
      if-cases (Done Accepts) (ltb 4096 n) _ _ (λ _. fails_with-Done Accepts Error.other r es)
        (λ t.
          awaited-Done (λ bs rest. (length bs ≡ n) × (unread r es ≡ bs ++ rest)) Accepts
            (read_slice n r es) _ (read_slice-Done n r es v)
            (λ bs r' es' h v'.
              respond-Done location r' es'
                (record {
                  address = a.text;
                  padding = bs;
                  after_id = a.after_id;
                  after_address = after;
                  id = a.id;
                  address_len = a.text_len;
                  address_fits = a.text_fits;
                  parses = a.parses;
                  padding_len =
                      subst (λ t. Varint after (length bs) t) h.1
                        (subst (λ m. Varint after m (unread r es)) (sym h.0) k);
                  padding_fits = ground (arith, h.0, t);
                })
                v'))

  with_address-Done :
      (text after_id : List ℕ) (r : StreamReader) (es : List Arrival)
      → Varint bytes frame_type_tcp_request after_id
      → Varint after_id (length text) (text ++ unread r es)
      → length text ≤ 2048
      → IsValid r
      → Done Accepts (with_address parse_ipv6 send padding text r es)
  unfolding with_address
  with_address-Done text after_id r es k m l v =
      if-cases (Done Accepts) (not (is_utf8 text)) _ _
        (λ _. fails_with-Done Accepts Error.other r es)
        (λ _. went (from_str parse_ipv6 text none) refl (from_str-Calm parse_ipv6 text none))
    where
      went :
          (x : Result NetLocation)
          → from_str parse_ipv6 text none ≡ x
          → Calm x
          → Done Accepts (with_location parse_ipv6 send padding x r es)
      went (ok location) e c =
          unfold with_location in
          awaited-Done (Varint (unread r es)) Accepts (read_varint r es) _ (read_varint-Done r es v)
            (λ n r' es' q v'.
              skip_padding-Done location (unread r es) n r' es'
                (record {
                  text = text;
                  after_id = after_id;
                  id = k;
                  text_len = m;
                  text_fits = l;
                  parses = e;
                })
                q v')
      went (err x) e c = unfold with_location in fails_with-Done Accepts x r es
      went panic e c = absurd c

  with_address_len-Done :
      (n : ℕ) (after_id : List ℕ) (r : StreamReader) (es : List Arrival)
      → Varint bytes frame_type_tcp_request after_id
      → Varint after_id n (unread r es)
      → IsValid r
      → Done Accepts (with_address_len parse_ipv6 send padding n r es)
  unfolding with_address_len
  with_address_len-Done n after_id r es k m v =
      if-cases (Done Accepts) (ltb 2048 n) _ _ (λ _. fails_with-Done Accepts Error.other r es)
        (λ t.
          awaited-Done (λ bs rest. (length bs ≡ n) × (unread r es ≡ bs ++ rest)) Accepts
            (read_slice n r es) _ (read_slice-Done n r es v)
            (λ bs r' es' h v'.
              with_address-Done bs after_id r' es' k
                (subst (λ t. Varint after_id (length bs) t) h.1
                  (subst (λ i. Varint after_id i (unread r es)) (sym h.0) m))
                (ground (arith, h.0, t)) v'))

  with_request_id-Done :
      (n : ℕ) (r : StreamReader) (es : List Arrival)
      → Varint bytes n (unread r es)
      → IsValid r
      → Done Accepts (with_request_id parse_ipv6 send padding n r es)
  unfolding with_request_id
  with_request_id-Done n r es k v =
      if-cases (Done Accepts) (not (n == frame_type_tcp_request)) _ _
        (λ _. fails_with-Done Accepts Error.other r es)
        (λ t.
          let e : n ≡ frame_type_tcp_request = ground (arith, t) in
          awaited-Done (Varint (unread r es)) Accepts (read_varint r es) _ (read_varint-Done r es v)
            (λ m r' es' q v'.
              with_address_len-Done m (unread r es) r' es'
                (subst (λ i. Varint bytes i (unread r es)) e k) q v'))

-- The header of a TCP stream is read to an end, without a panic, where sending the response does not panic. A
-- location is given only for a whole request: its number, a length of at most 2048 and an address of that length
-- that is parsed as the location, a length of at most 4096 and as many bytes of padding; and what is left
-- unread is just what stands behind them.
pub handle_tcp_header-Request :
    (parse_ipv6 : List ℕ → Option (List ℕ)) (send : List ℕ → Result (Unit {0})) (padding : List ℕ)
    (r : StreamReader) (es : List Arrival)
    → send (response_bytes padding) ≢ panic
    → IsValid r
    → Done (Request parse_ipv6 (unread r es)) (handle_tcp_header parse_ipv6 send padding r es)
unfolding handle_tcp_header
handle_tcp_header-Request parse_ipv6 send padding r es calm v =
    awaited-Done (Varint (unread r es)) (Request parse_ipv6 (unread r es)) (read_varint r es) _
      (read_varint-Done r es v)
      (λ n r' es' k v'.
        with_request_id-Done parse_ipv6 send padding calm (unread r es) n r' es' k v')
