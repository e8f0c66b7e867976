-- ===== src/Anytls/Types/Codec.antt =====
-- src/anytls/types.rs, Frame::encode_into and FrameCodec::decode: what is read back.
use rust_proxy.Prelude.{
  ℕ, ◌/◌, ◌%◌, ◌^◌, ◌<◌, ◌≤◌, ◌≡◌, refl, none, some, List, [], ◌∷◌, ◌++◌, length, take, drop, ltb,
  if◌then◌else◌, ok, err, Error, from_be16, from_be32, arith, from_be32-be32, length-append,
  take-append, drop-append, ◌∙◌, length-take, take-append-drop, take-append_le, drop-append_le,
  be32-from_be32, be16-from_be16, Result-cases, panic, inl, inr, ◌≢◌, All, IsByte, ◌⊎◌, length-drop,
  Bool-cases,
}
use rust_proxy.Anytls.Types.{Command, Frame, to_u8, try_from, encode_into, decode, with_data}
use Command.{waste, syn}

try_from-to_u8 : (c : Command) → try_from (to_u8 c) ≡ ok c
unfolding try_from to_u8
try_from-to_u8 waste = refl
try_from-to_u8 syn = refl
try_from-to_u8 _ = refl

to_u8-try_from : (b : ℕ) (c : Command) → try_from b ≡ ok c → b ≡ to_u8 c
unfolding try_from to_u8
to_u8-try_from b c h = ground arith

-- What `decode` does with a buffer that holds a header.
try_from-ne-panic : (b : ℕ) → try_from b ≢ panic
unfolding try_from
try_from-ne-panic b h = ground arith

decode_header_ok :
    (a i j k l m n : ℕ) (body : List ℕ) (c : Command)
    → try_from a ≡ ok c
    → let len = from_be16 m n in
      decode (a ∷ i ∷ j ∷ k ∷ l ∷ m ∷ n ∷ body) ≡ (
        if ltb (length body) len
        then ok (none, a ∷ i ∷ j ∷ k ∷ l ∷ m ∷ n ∷ body)
        else ok (some (with_data c (from_be32 i j k l) (take len body)), drop len body))
unfolding decode
decode_header_ok a i j k l m n body c h = rw h (ground arith)

decode_header_err :
    (a i j k l m n : ℕ) (body : List ℕ) (e : Error)
    → try_from a ≡ err e
    → decode (a ∷ i ∷ j ∷ k ∷ l ∷ m ∷ n ∷ body) ≡ err e
unfolding decode
decode_header_err a i j k l m n body e h = rw h (ground arith)

-- The two bytes that carry the length of a payload below 2 ^ 16.
len_bytes : (n : ℕ) → n < 2 ^ 16 → from_be16 (n % 2 ^ 16 / 256 % 256) (n % 2 ^ 16 % 256) ≡ n
len_bytes n h = omega arith

-- A frame that fits the header's fields is read back, whatever follows it.
pub decode-encode_into :
    (f : Frame) (rest : List ℕ)
    → f.stream_id < 2 ^ 32
    → length f.payload < 2 ^ 16
    → decode (encode_into f [] ++ rest) ≡ ok (some f, rest)
unfolding encode_into
decode-encode_into f rest hi hl =
    decode_header_ok _ _ _ _ _ _ _ (f.payload ++ rest) f.cmd (try_from-to_u8 f.cmd)
    ∙ ground (
      arith,
      len_bytes (length f.payload) hl,
      from_be32-be32 f.stream_id hi,
      length-append f.payload rest,
      take-append f.payload rest,
      drop-append f.payload rest,
    )

-- The encoding of the frame that a header and a body make up.
encode_parts :
    (c : Command) (i j k l m n : ℕ) (body : List ℕ)
    → All IsByte (i ∷ j ∷ k ∷ l ∷ m ∷ n ∷ [])
    → from_be16 m n ≤ length body
    → let len = from_be16 m n in
      encode_into (with_data c (from_be32 i j k l) (take len body)) [] ++ drop len body
      ≡ to_u8 c ∷ i ∷ j ∷ k ∷ l ∷ m ∷ n ∷ body
unfolding encode_into
encode_parts c i j k l m n body hb hl = ground (
  arith,
  be32-from_be32 i j k l,
  be16-from_be16 m n,
  length-take (from_be16 m n) body,
  take-append-drop (from_be16 m n) body,
)

-- A decoded frame is what its encoding stands for: the buffer was that encoding, then the rest.
pub decode_sound :
    (buf : List ℕ) (f : Frame) (rest : List ℕ)
    → All IsByte buf
    → decode buf ≡ ok (some f, rest)
    → buf ≡ encode_into f [] ++ rest
decode_sound (a ∷ i ∷ j ∷ k ∷ l ∷ m ∷ n ∷ body) f rest hb e = elim (Result-cases (try_from a)) [
  | inl (c, h) ↦ ground (
    arith,
    to_u8-try_from a c h,
    decode_header_ok a i j k l m n body c h,
    encode_parts c i j k l m n body,
  )
  | inr (inl (x, h)) ↦ cc (decode_header_err a i j k l m n body x h)
  | inr (inr h) ↦ absurd (try_from-ne-panic a h)
]
decode_sound _ f rest hb e = unfold decode in cc

-- A buffer that holds a proper prefix of a frame's encoding is kept whole, and no frame is made.
pub decode_partial :
    (f : Frame) (buf : List ℕ) (x : ℕ) (more : List ℕ)
    → length f.payload < 2 ^ 16
    → encode_into f [] ≡ buf ++ (x ∷ more)
    → decode buf ≡ ok (none, buf)
unfolding encode_into
decode_partial f (a ∷ i ∷ j ∷ k ∷ l ∷ m ∷ n ∷ body) x more hl e = ground (
  arith,
  try_from-to_u8 f.cmd,
  len_bytes (length f.payload) hl,
  decode_header_ok a i j k l m n body f.cmd,
  length-append body (x ∷ more),
)
decode_partial f _ x more hl e = unfold decode in refl

-- Bytes that arrive behind a whole frame do not change it: they join the rest.
pub decode-append :
    (buf more : List ℕ) (f : Frame) (rest : List ℕ)
    → decode buf ≡ ok (some f, rest)
    → decode (buf ++ more) ≡ ok (some f, rest ++ more)
decode-append (a ∷ i ∷ j ∷ k ∷ l ∷ m ∷ n ∷ body) more f rest e = elim (Result-cases (try_from a)) [
  | inl (c, h) ↦ ground (
    arith,
    decode_header_ok a i j k l m n body c h,
    decode_header_ok a i j k l m n (body ++ more) c h,
    length-append body more,
    take-append_le (from_be16 m n) body more,
    drop-append_le (from_be16 m n) body more,
  )
  | inr (inl (x, h)) ↦ cc (decode_header_err a i j k l m n body x h)
  | inr (inr h) ↦ absurd (try_from-ne-panic a h)
]
decode-append _ more f rest e = unfold decode in cc

-- What a buffer decodes to: an error, whatever follows; nothing, and the buffer is kept; or a frame, and
-- fewer bytes are left.
pub decode-cases :
    (buf : List ℕ)
    → ((e : Error) × (decode buf ≡ err e) × ((more : List ℕ) → decode (buf ++ more) ≡ err e))
      ⊎ ((decode buf ≡ ok (none, buf))
          ⊎ ((f : Frame) × (rest : List ℕ) × (decode buf ≡ ok (some f, rest))
              × (length rest < length buf)))
decode-cases (a ∷ i ∷ j ∷ k ∷ l ∷ m ∷ n ∷ body) = elim (Result-cases (try_from a)) [
  | inl (c, h) ↦ elim (Bool-cases (ltb (length body) (from_be16 m n))) [
    | inl t ↦ inr (inl (decode_header_ok a i j k l m n body c h ∙ rw t refl))
    | inr t ↦ inr (
        inr (
          with_data c (from_be32 i j k l) (take (from_be16 m n) body),
          drop (from_be16 m n) body,
          decode_header_ok a i j k l m n body c h ∙ rw t refl,
          omega (arith, length-drop (from_be16 m n) body),
        ))
  ]
  | inr (inl (x, h)) ↦ inl (
    x,
    decode_header_err a i j k l m n body x h,
    λ more. decode_header_err a i j k l m n (body ++ more) x h,
  )
  | inr (inr h) ↦ absurd (try_from-ne-panic a h)
]
decode-cases _ = inr (inl (unfold decode in refl))
