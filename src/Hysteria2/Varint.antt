-- ===== src/Hysteria2/Varint.antt =====
-- src/hysteria2.rs, encode_varint, read_varint and the same reading of a datagram.
use rust_proxy.Prelude.{
  ℕ, suc, ◌+◌, ◌-◌, ◌*◌, ◌/◌, ◌%◌, ◌^◌, ◌≤◌, ◌<◌, ◌≡◌, refl, sym, ap, ◌∙◌, true, List, [], ◌∷◌,
  ◌++◌, arith, ltb, leb, ◌==◌, if◌then◌else◌, ltb→lt, lt→ltb, leb→le, length, get_or, drop,
  length-append, take-append, drop-append, be16, be32, from_be32, from_be32-be32, slice, drop-drop,
  Error, Result, ok, err, panic, get_or-append_length, if-cases,
}

-- The four ranges and their tags; `|=` of a tag sets bits that are 0 there.
unfoldable pub tagged : ℕ → List ℕ → List ℕ
tagged tag [] = []
tagged tag (b ∷ bs) = (b + tag) ∷ bs

abbrev pub be64 : ℕ → List ℕ
be64 n = be32 (n / 4294967296 % 4294967296) ++ be32 (n % 4294967296)

unfoldable pub encode_varint : ℕ → Result (List ℕ)
encode_varint value =
    if leb value 63
    then ok (value ∷ [])
    else if ltb value 16384
    then ok (tagged 64 (be16 value))
    else if ltb value 1073741824
    then ok (tagged 128 (be32 value))
    else if ltb value 4611686018427387904
    then ok (tagged 192 (be64 value))
    else err Error.other

-- `value <<= 8; value |= byte` on 64 bits, over the bytes that follow the first.
unfoldable pub shift_in : ℕ → List ℕ → ℕ
shift_in value [] = value
shift_in value (b ∷ bs) = shift_in (value * 256 % 2 ^ 64 + b) bs

abbrev pub num_bytes : ℕ → ℕ
num_bytes length_indicator =
    if length_indicator == 0
    then 1
    else if length_indicator == 1
    then 2
    else if length_indicator == 2
    then 4
    else 8

-- The number at `data[at..]`, and the index behind it; the slice of the remaining bytes may reach over
-- the end of the data, where the code panics.
unfoldable pub varint_at : List ℕ → ℕ → Result (ℕ × ℕ)
varint_at bytes at =
    let first_byte = get_or bytes at 0 in
    let n = num_bytes (first_byte / 64) in
    let end = at + n in
    if leb end (length bytes)
    then ok (shift_in (first_byte % 64) (slice bytes (at + 1) end), end)
    else panic

shift_in_1 : (v a : ℕ) → v < 64 → shift_in v (a ∷ []) ≡ v * 256 + a
unfolding shift_in
shift_in_1 v a h = omega arith

shift_in_3 :
    (v a b c : ℕ)
    → v < 64
    → a < 256
    → b < 256
    → c < 256
    → shift_in v (a ∷ b ∷ c ∷ []) ≡ v * 16777216 + a * 65536 + b * 256 + c
unfolding shift_in
shift_in_3 v a b c h ha hb hc = omega arith

shift_in_small :
    (v a : ℕ) (bs : List ℕ)
    → v < 72057594037927936
    → shift_in v (a ∷ bs) ≡ shift_in (v * 256 + a) bs
unfolding shift_in
shift_in_small v a bs h = let e : v * 256 % 2 ^ 64 ≡ v * 256 = omega arith in rw e

shift_in_4 :
    (v a b c d : ℕ)
    → v < 4294967296
    → a < 256
    → b < 256
    → c < 256
    → d < 256
    → shift_in v (a ∷ b ∷ c ∷ d ∷ []) ≡ v * 4294967296 + from_be32 a b c d
unfolding shift_in
shift_in_4 v a b c d h ha hb hc hd = omega arith

-- What the first byte says of the bytes behind it.
record Encodes (value : ℕ) (bytes : List ℕ) : Type 0 where
  first : ℕ
  more : List ℕ
  whole : bytes ≡ first ∷ more
  counted : num_bytes (first / 64) ≡ suc (length more)
  valued : shift_in (first % 64) more ≡ value

bytes_4 :
    (n : ℕ)
    → n < 4294967296
    → from_be32 (n / 16777216 % 256) (n / 65536 % 256) (n / 256 % 256) (n % 256) ≡ n
bytes_4 n h = from_be32-be32 n h

-- The last three bytes of a number of 30 bits.
valued_4 :
    (n : ℕ)
    → n < 1073741824
    → shift_in (n / 16777216 % 256) (n / 65536 % 256 ∷ n / 256 % 256 ∷ n % 256 ∷ []) ≡ n
valued_4 n h =
    shift_in_3 (n / 16777216 % 256) (n / 65536 % 256) (n / 256 % 256) (n % 256) (omega arith)
      (omega arith) (omega arith) (omega arith)
    ∙ bytes_4 n (omega arith)

valued_8 :
    (hi lo : ℕ)
    → hi < 1073741824
    → lo < 4294967296
    → shift_in (hi / 16777216 % 256) (hi / 65536 % 256 ∷ hi / 256 % 256 ∷ hi % 256 ∷ be32 lo)
      ≡ hi * 4294967296 + lo
valued_8 hi lo h k =
    let a = hi / 16777216 % 256 in
    let b = hi / 65536 % 256 in
    let c = hi / 256 % 256 in
    let d = hi % 256 in
    let small : a < 64 = omega arith in
    let e : ((a * 256 + b) * 256 + c) * 256 + d ≡ hi = bytes_3 hi (omega arith) in
    shift_in_small a b _ (omega arith)
    ∙ (shift_in_small (a * 256 + b) c _ (omega arith)
        ∙ (shift_in_small ((a * 256 + b) * 256 + c) d _ (omega arith)
            ∙ rw e (
                shift_in_4 hi (lo / 16777216 % 256) (lo / 65536 % 256) (lo / 256 % 256) (lo % 256)
                  (omega arith) (omega arith) (omega arith) (omega arith) (omega arith)
                ∙ ap (λ t. hi * 4294967296 + t) (bytes_4 lo k))))
  where
    bytes_3 :
        (n : ℕ)
        → n < 4294967296
        → ((n / 16777216 % 256 * 256 + n / 65536 % 256) * 256 + n / 256 % 256) * 256 + n % 256 ≡ n
    bytes_3 n h = omega arith

encode_varint-Encodes :
    (value : ℕ)
    → value < 4611686018427387904
    → (bytes : List ℕ) × (encode_varint value ≡ ok bytes) × Encodes value bytes
unfolding encode_varint tagged
encode_varint-Encodes value h =
    let Good : Result (List ℕ) → Type 0 =
      λ r. (bytes : List ℕ) × (r ≡ ok bytes) × Encodes value bytes in
    if-cases Good (leb value 63) _ _
      (λ q.
        let small : value ≤ 63 = leb→le value 63 q in
        (
          value ∷ [],
          refl,
          record {
            first = value;
            more = [];
            whole = refl;
            counted = let z : value / 64 ≡ 0 = omega arith in rw z refl;
            valued = unfold shift_in in omega arith;
          },
        ))
      (λ _.
        if-cases Good (ltb value 16384) _ _
          (λ q.
            let small : value < 16384 = ltb→lt value 16384 q in
            let tag : (value / 256 % 256 + 64) / 64 ≡ 1 = omega arith in
            let low : (value / 256 % 256 + 64) % 64 ≡ value / 256 % 256 = omega arith in
            (
              _,
              refl,
              record {
                first = value / 256 % 256 + 64;
                more = value % 256 ∷ [];
                whole = refl;
                counted = rw tag refl;
                valued =
                    rw low
                      (shift_in_1 (value / 256 % 256) (value % 256) (omega arith) ∙ omega arith);
              },
            ))
          (λ _.
            if-cases Good (ltb value 1073741824) _ _
              (λ q.
                let small : value < 1073741824 = ltb→lt value 1073741824 q in
                let tag : (value / 16777216 % 256 + 128) / 64 ≡ 2 = omega arith in
                let low : (value / 16777216 % 256 + 128) % 64 ≡ value / 16777216 % 256 =
                  omega arith in
                (
                  _,
                  refl,
                  record {
                    first = value / 16777216 % 256 + 128;
                    more = value / 65536 % 256 ∷ value / 256 % 256 ∷ value % 256 ∷ [];
                    whole = refl;
                    counted = rw tag refl;
                    valued = rw low (valued_4 value small);
                  },
                ))
              (λ _.
                let hi = value / 4294967296 % 4294967296 in
                let lo = value % 4294967296 in
                let high : hi < 1073741824 = omega arith in
                let tag : (hi / 16777216 % 256 + 192) / 64 ≡ 3 = omega arith in
                let low : (hi / 16777216 % 256 + 192) % 64 ≡ hi / 16777216 % 256 = omega arith in
                let fits : ltb value 4611686018427387904 ≡ true =
                  lt→ltb value 4611686018427387904 h in
                rw fits (
                  _,
                  refl,
                  record {
                    first = hi / 16777216 % 256 + 192;
                    more = hi / 65536 % 256 ∷ hi / 256 % 256 ∷ hi % 256 ∷ be32 lo;
                    whole = refl;
                    counted = rw tag refl;
                    valued = rw low (valued_8 hi lo high (omega arith) ∙ omega arith);
                  },
                ))))

Encodes-varint_at :
    (value : ℕ) (bytes before rest : List ℕ)
    → Encodes value bytes
    → varint_at (before ++ (bytes ++ rest)) (length before)
      ≡ ok (value, length before + length bytes)
unfolding varint_at
Encodes-varint_at value bytes before rest e =
    let at = length before in
    let all = before ++ ((e.first ∷ e.more) ++ rest) in
    let z : at + 0 ≡ at = omega arith in
    let g : get_or all at 0 ≡ e.first =
      ap (λ i. get_or all i 0) (sym z)
      ∙ get_or-append_length before ((e.first ∷ e.more) ++ rest) 0 0 in
    let n : num_bytes (get_or all at 0 / 64) ≡ suc (length e.more) =
      ap (λ b. num_bytes (b / 64)) g ∙ e.counted in
    let behind : drop (at + 1) all ≡ e.more ++ rest =
      sym (drop-drop 1 at all) ∙ ap (drop 1) (drop-append before ((e.first ∷ e.more) ++ rest)) in
    let m : at + suc (length e.more) - (at + 1) ≡ length e.more = omega arith in
    let inside : leb (at + suc (length e.more)) (length all) ≡ true =
      ground
        (arith, length-append before ((e.first ∷ e.more) ++ rest), length-append e.more rest) in
    rw e.whole (rw (n, inside, g, behind, m, take-append e.more rest, e.valued) refl)

-- A number below 2 ^ 62 is encoded, and read back from any place of a datagram where its encoding stands,
-- whatever is before and behind it, with the index behind the encoding.
pub varint_at-encode_varint :
    (value : ℕ) (before rest : List ℕ)
    → value < 4611686018427387904
    → (bytes : List ℕ) × (encode_varint value ≡ ok bytes)
      × (varint_at (before ++ (bytes ++ rest)) (length before)
          ≡ ok (value, length before + length bytes))
varint_at-encode_varint value before rest h =
    let (bytes, e, k) = encode_varint-Encodes value h in
    (bytes, e, Encodes-varint_at value bytes before rest k)
