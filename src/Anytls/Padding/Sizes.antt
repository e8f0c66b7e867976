-- ===== src/Anytls/Padding/Sizes.antt =====
-- src/anytls/padding.rs: the sizes of the default scheme.
use rust_proxy.Prelude.{
  ℕ, ◌%◌, ◌^◌, ◌≤◌, ◌<◌, ◌≡◌, refl, ap, ◌∙◌, subst, ◌≢◌, ◌⊎◌, inl, inr, false, none, some, List, [],
  ◌∷◌, arith, Bool-cases, Option-cases, All, ok,
}
use rust_proxy.Text.{trim, trim_end, skip_spaces, space_length, split_on, split_first}
use rust_proxy.Decimal.{parse_number, parse_digits, decimal, parse_number-decimal}
use rust_proxy.Anytls.StringMap.{
  same_text_lem, StringMap, from_bytes, get, same_text, insert, insert_line, insert_lines, lines,
  strip_return, split_once,
}
use rust_proxy.Anytls.Types.{Frame}
use rust_proxy.Anytls.Session.Wire.{check_mark, Sender, write_frame}
use rust_proxy.Anytls.Session.Padded.{FrameOut, write_frame-FrameOut}
use rust_proxy.Anytls.Session.Writes.{SizeOk}
use rust_proxy.Anytls.Padding.{
  PaddingFactory, with_scheme, positive, drawn, range_size, part_size, part_sizes,
  generate_record_payload_sizes, expected, default_factory, default_padding_scheme, hex,
}

-- What `random_range` promises of a draw.
abbrev pub InRange : (ℕ → ℕ → ℕ → ℕ) → Type 0
InRange draws = (i m n : ℕ) → m ≤ n → (m ≤ draws i m n) × (draws i m n ≤ n)

-- A size that a record can have: the check mark, or 9 to 1000 bytes.
abbrev pub SizeFits : ℕ → Type 0
SizeFits size = (size ≡ check_mark) ⊎ ((9 ≤ size) × (size ≤ 1000))

get-All :
    (P : List ℕ → Type 0) (key value : List ℕ) (m : StringMap)
    → All (λ entry. P (entry.1)) m
    → get key m ≡ some value
    → P value
unfolding get
get-All P key value [] h e = absurd cc
get-All P key value ((k, v) ∷ rest) (p, h) e = elim (Bool-cases (same_text k key)) [
  | inl t ↦ let q : v ≡ value = let z : some v ≡ some value = rw t at e in cc in subst P q p
  | inr t ↦ get-All P key value rest h (rw t at e)
]

get-none :
    (key : List ℕ) (m : StringMap)
    → All (λ entry. same_text (entry.0) key ≡ false) m
    → get key m ≡ none
unfolding get
get-none key [] h = refl
get-none key ((k, v) ∷ rest) (p, h) = rw p (get-none key rest h)

-- A text that is no number, or another one, is not the text of a packet's number.
key_differs :
    (k : List ℕ) (pkt : ℕ)
    → pkt < 2 ^ 32
    → parse_number (2 ^ 32) k ≢ some pkt
    → same_text k (decimal pkt) ≡ false
key_differs k pkt h f = elim (Bool-cases (same_text k (decimal pkt))) [
  | inl t ↦ absurd (
      f (
        ap (parse_number (2 ^ 32)) (same_text_lem k (decimal pkt) t)
        ∙ parse_number-decimal (2 ^ 32) pkt h))
  | inr t ↦ t
]

abbrev default_map : StringMap
default_map = insert_lines (lines [] default_padding_scheme) []

module _ (draws : ℕ → ℕ → ℕ → ℕ) (range : InRange draws) where
  drawn_fits : (i m n : ℕ) → 9 ≤ m → m ≤ n → n ≤ 1000 → SizeFits (draws i m n % 2 ^ 32)
  drawn_fits i m n l o u = let (a, b) = range i m n o in inr (omega arith, omega arith)

  abbrev SpecFits : List ℕ → Type 0
  SpecFits spec = All SizeFits (part_sizes draws (split_on 44 [] spec))

  default_specs : All (λ entry. SpecFits (entry.1)) default_map
  unfolding insert_lines lines strip_return split_once insert insert_line same_text part_sizes
      split_on part_size trim trim_end skip_spaces space_length range_size split_first positive
      parse_number parse_digits drawn
  default_specs =
      let one_range : All SizeFits (draws 0 500 1000 % 2 ^ 32 ∷ []) =
        (drawn_fits 0 500 1000 (omega arith) (omega arith) (omega arith), tt) in
      (
        tt,
        (
          (inr (omega arith, omega arith), tt),
          (
            (drawn_fits 0 100 400 (omega arith) (omega arith) (omega arith), tt),
            (
              (
                drawn_fits 8 400 500 (omega arith) (omega arith) (omega arith),
                (
                  inl refl,
                  (
                    drawn_fits 6 500 1000 (omega arith) (omega arith) (omega arith),
                    (
                      inl refl,
                      (
                        drawn_fits 4 500 1000 (omega arith) (omega arith) (omega arith),
                        (
                          inl refl,
                          (
                            drawn_fits 2 500 1000 (omega arith) (omega arith) (omega arith),
                            (
                              inl refl,
                              (drawn_fits 0 500 1000 (omega arith) (omega arith) (omega arith), tt),
                            ),
                          ),
                        ),
                      ),
                    ),
                  ),
                ),
              ),
              (
                (
                  inr (omega arith, omega arith),
                  (drawn_fits 0 500 1000 (omega arith) (omega arith) (omega arith), tt),
                ),
                (one_range, (one_range, (one_range, (one_range, tt)))),
              ),
            ),
          ),
        ),
      )

-- A key that is the number of an earlier packet.
earlier : (n pkt : ℕ) → n < 8 → 8 ≤ pkt → some n ≢ some pkt
earlier n pkt l o e = let q : n ≡ pkt = cc in omega (arith, q)

other_packets :
    (pkt : ℕ)
    → pkt < 2 ^ 32
    → 8 ≤ pkt
    → All (λ entry. same_text (entry.0) (decimal pkt) ≡ false) default_map
unfolding insert_lines lines strip_return split_once insert insert_line same_text parse_number
    parse_digits
other_packets pkt h o =
    let differs = λ (k : List ℕ) (f : parse_number (2 ^ 32) k ≢ some pkt). key_differs k pkt h f in
    (
      differs (115 ∷ 116 ∷ 111 ∷ 112 ∷ []) (λ e. cc),
      (
        differs (48 ∷ []) (earlier 0 pkt (omega arith) o),
        (
          differs (49 ∷ []) (earlier 1 pkt (omega arith) o),
          (
            differs (50 ∷ []) (earlier 2 pkt (omega arith) o),
            (
              differs (51 ∷ []) (earlier 3 pkt (omega arith) o),
              (
                differs (52 ∷ []) (earlier 4 pkt (omega arith) o),
                (
                  differs (53 ∷ []) (earlier 5 pkt (omega arith) o),
                  (
                    differs (54 ∷ []) (earlier 6 pkt (omega arith) o),
                    (differs (55 ∷ []) (earlier 7 pkt (omega arith) o), tt),
                  ),
                ),
              ),
            ),
          ),
        ),
      ),
    )

-- The factory of the default scheme.
abbrev made : (List ℕ → List ℕ) → PaddingFactory
made digest = record {
  scheme = default_map;
  raw_scheme = default_padding_scheme;
  stop = 8;
  md5 = hex (digest default_padding_scheme);
}

default_factory_lem :
    (lossy digest : List ℕ → List ℕ)
    → lossy default_padding_scheme ≡ default_padding_scheme
    → default_factory lossy digest ≡ ok (made digest)
unfolding expected with_scheme from_bytes insert_lines lines strip_return split_once insert
    insert_line same_text get parse_number parse_digits
default_factory_lem lossy digest e =
    ap (λ t. expected (with_scheme digest default_padding_scheme (insert_lines (lines [] t) []))) e

module _ (digest : List ℕ → List ℕ) (draws : ℕ → ℕ → ℕ → ℕ) where
  made-SizeFits :
      InRange draws
      → (pkt : ℕ) → All SizeFits (generate_record_payload_sizes draws (made digest) pkt)
  unfolding generate_record_payload_sizes
  made-SizeFits range pkt = elim (Option-cases (get (decimal pkt) default_map)) [
    | inl e ↦ rw (e, generate_record_payload_sizes) tt
    | inr (spec, e) ↦
        rw (e, generate_record_payload_sizes)
          (get-All (SpecFits draws range) (decimal pkt) spec default_map (default_specs draws range)
            e)
  ]

  made_empty :
      (pkt : ℕ)
      → pkt < 2 ^ 32
      → 8 ≤ pkt
      → generate_record_payload_sizes draws (made digest) pkt ≡ []
  unfolding generate_record_payload_sizes
  made_empty pkt h o =
      rw (get-none (decimal pkt) default_map (other_packets pkt h o), generate_record_payload_sizes)
        refl

-- The default scheme is valid, with 8 as its `stop`. Whatever is drawn, each size that a packet gets is the
-- check mark or from 9 to 1000, so that a frame can hold it, and packets from the eighth get no sizes.
pub default_factory-SizeFits :
    (lossy digest : List ℕ → List ℕ) (draws : ℕ → ℕ → ℕ → ℕ)
    → lossy default_padding_scheme ≡ default_padding_scheme
    → InRange draws
    → (f : PaddingFactory) × (default_factory lossy digest ≡ ok f)
      × (f.stop ≡ 8)
      × ((pkt : ℕ) → All SizeFits (generate_record_payload_sizes draws f pkt))
      × ((pkt : ℕ) → pkt < 2 ^ 32 → 8 ≤ pkt → generate_record_payload_sizes draws f pkt ≡ [])
default_factory-SizeFits lossy digest draws e range = (
  made digest,
  default_factory_lem lossy digest e,
  refl,
  made-SizeFits digest draws range,
  made_empty digest draws,
)

-- The frames of a session with the default scheme reach the connection whole, so no size that it draws breaks one.
pub write_frame_default :
    (digest : List ℕ → List ℕ) (draws : ℕ → ℕ → ℕ → ℕ) (f : Frame) (s : Sender)
    → InRange draws
    → FrameOut f s (
        write_frame
          (record { stop = 8; sizes = generate_record_payload_sizes draws (made digest) })
          f
          s)
write_frame_default digest draws f s range =
    write_frame-FrameOut
      (record { stop = 8; sizes = generate_record_payload_sizes draws (made digest) }) f s
      (λ pkt.
        fit (generate_record_payload_sizes draws (made digest) pkt)
          (made-SizeFits digest draws range pkt))
  where
    fit : (sizes : List ℕ) → All SizeFits sizes → All SizeOk sizes
    fit [] h = tt
    fit (size ∷ sizes) (h, hs) =
        (elim h [ inl c ↦ inr c | inr b ↦ inl (omega (arith, b.1)) ], fit sizes hs)
