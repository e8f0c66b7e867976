-- ===== src/Copy/Ring.antt =====
-- src/copy_bidirectional.rs, CopyBuffer: the ring holds a queue of bytes.
use rust_proxy.Prelude.{
  ℕ, ◌+◌, ◌-◌, ◌%◌, ◌≤◌, ◌<◌, min, ◌≡◌, sym, ap, ap₂, ◌∙◌, ◌⊎◌, inl, inr, true, ◌&&◌, leb, List,
  ◌++◌, append-nil, append_assoc, arith, ltb, ◌==◌, ltb→lt, Bool-cases, length, take, drop,
  length-append, length-take, take-append-drop, drop-append, take-append_le, drop-append_le, slice,
  write_at, drop_all, length-slice, length-write_at, drop-write_at, take-write_at_end,
  slice-write_at_end, drop-slice, drop-write_at,
}
use native.Mathlib.Nat.{mod-eq_of_lt, mod-eq-sub-mod, mod_self}
use rust_proxy.Copy.{CopyBuffer, unused_start, unused_end, fill_ring, used_end, used, drain_ring}

pub record IsValid (c : CopyBuffer) : Type 0 where
  pub memory : length c.buf ≡ c.size
  pub start_in : c.start_index < c.size
  pub cache_in : c.cache_length ≤ c.size

-- The bytes that wait in the ring, oldest first: those up to the end of the memory, then those that go
-- on at its front.
abbrev pub contents : CopyBuffer → List ℕ
contents c = used c ++ take (c.start_index + c.cache_length - c.size) c.buf

within : (s e n : ℕ) → s ≤ e → e ≤ n → (leb s e && leb e n) ≡ true
within s e n h k = ground arith

module _ (c : CopyBuffer) (v : IsValid c) where
  -- Where the free part starts, and that it does not reach over the end of the memory.
  unused_start_cases :
      c.cache_length < c.size
      → ((c.start_index + c.cache_length < c.size)
          × (unused_start c ≡ c.start_index + c.cache_length)
          × (unused_end c ≡ c.size))
        ⊎ ((c.size ≤ c.start_index + c.cache_length)
            × (unused_start c ≡ c.start_index + c.cache_length - c.size)
            × (unused_end c ≡ c.start_index))
  unused_start_cases h = elim (Bool-cases (ltb (c.start_index + c.cache_length) c.size)) [
    | inl e ↦
        let small = ltb→lt (c.start_index + c.cache_length) c.size e in
        let m : unused_start c ≡ c.start_index + c.cache_length = mod-eq_of_lt small in
        inl (small, m, rw m (ground arith))
    | inr e ↦
        let big : c.size ≤ c.start_index + c.cache_length = ground arith in
        let m : unused_start c ≡ c.start_index + c.cache_length - c.size = ground (
          arith,
          v.start_in,
          mod-eq-sub-mod {n = c.start_index + c.cache_length} {m = c.size} big,
          mod-eq_of_lt {n = c.start_index + c.cache_length - c.size} {m = c.size}
              (omega (arith, v.start_in)),
        ) in
        inr (big, m, rw m (ground (arith, v.start_in)))
  ]

  -- The free part is not empty while bytes fit.
  pub room-pos : c.cache_length < c.size → 0 < unused_end c - unused_start c
  room-pos h = elim (unused_start_cases h) [
    | inl (small, us, ue) ↦ omega (arith, us, ue)
    | inr (big, us, ue) ↦ omega (arith, us, ue)
  ]

  -- The slices of the memory that a read and a write are given lie inside it.
  pub free_inside :
      c.cache_length < c.size
      → (leb (unused_start c) (unused_end c) && leb (unused_end c) (length c.buf)) ≡ true
  free_inside h = elim (unused_start_cases h) [
    | inl (small, us, ue) ↦
        within (unused_start c) (unused_end c) (length c.buf) (omega (arith, us, ue))
          (omega (arith, ue, v.memory))
    | inr (big, us, ue) ↦
        within (unused_start c) (unused_end c) (length c.buf) (omega (arith, us, ue, v.start_in))
          (omega (arith, ue, v.memory, v.start_in))
  ]

  pub used_inside : (leb c.start_index (used_end c) && leb (used_end c) (length c.buf)) ≡ true
  used_inside = ground (arith, v.memory, v.start_in)

  IsValid-fill :
      (chunk : List ℕ) (u : ℕ)
      → u + length chunk ≤ c.size
      → c.cache_length + length chunk ≤ c.size
      → IsValid
          (record c { buf = write_at c.buf u chunk; cache_length = c.cache_length + length chunk })
  IsValid-fill chunk u h k =
      let memory = length-write_at c.buf u chunk (omega (arith, v.memory)) in
      omega (arith, memory, v.memory, v.start_in)

  -- What a read adds, stands behind the bytes that wait.
  pub contents-fill_ring :
      (chunk : List ℕ)
      → c.cache_length < c.size
      → length chunk ≤ unused_end c - unused_start c
      → (contents (fill_ring c chunk) ≡ contents c ++ chunk) × IsValid (fill_ring c chunk)
  unfolding fill_ring
  contents-fill_ring chunk h room = elim (unused_start_cases h) [
    | inl (small, us, ue) ↦
        let s = c.start_index in
        let q = c.cache_length in
        let fits : s + q + length chunk ≤ c.size = omega (arith, us, ue) in
        let m : min (s + (q + length chunk)) c.size ≡ s + q + length chunk = omega arith in
        let t : s + (q + length chunk) - c.size ≡ 0 = omega arith in
        let m' : min (s + q) c.size ≡ s + q = omega arith in
        let t' : s + q - c.size ≡ 0 = omega arith in
        (
          rw (us, m, t, m', t', append-nil, append-nil)
              (slice-write_at_end c.buf s (s + q) chunk (omega arith) (omega (arith, v.memory))),
          rw us (IsValid-fill chunk (s + q) fits (omega arith)),
        )
    | inr (big, us, ue) ↦
        let s = c.start_index in
        let u = c.start_index + c.cache_length - c.size in
        let fits : u + length chunk ≤ s = omega (arith, us, ue) in
        let m : min (s + (c.cache_length + length chunk)) c.size ≡ c.size = omega arith in
        let t : s + (c.cache_length + length chunk) - c.size ≡ u + length chunk = omega arith in
        let m' : min (s + c.cache_length) c.size ≡ c.size = omega arith in
        let inside : u + length chunk ≤ length c.buf = omega (arith, v.memory, v.start_in) in
        (
          rw
              (
                us,
                m,
                t,
                m',
                drop-write_at c.buf u chunk s inside fits,
                take-write_at_end c.buf u chunk inside,
              )
              (sym (append_assoc (slice c.buf s c.size) (take u c.buf) chunk)),
          rw us (IsValid-fill chunk u (omega (arith, v.start_in)) (omega arith)),
        )
  ]

  length-used : length (used c) ≡ used_end c - c.start_index
  length-used = length-slice c.buf c.start_index (used_end c) (omega (arith, v.memory))

  -- The queue without its first `n` bytes, where the window moves on by `n`.
  moved :
      (n : ℕ)
      → n ≤ length (used c)
      → c.start_index + n < c.size
      → slice c.buf (c.start_index + n) (used_end c)
          ++ take (c.start_index + c.cache_length - c.size) c.buf
        ≡ drop n (contents c)
  moved n h k =
      ap (λ bs. bs ++ take (c.start_index + c.cache_length - c.size) c.buf)
        (sym (drop-slice c.buf c.start_index (used_end c) n))
      ∙ sym (drop-append_le n (used c) _ h)

  pub length-contents : length (contents c) ≡ c.cache_length
  length-contents = omega (
    arith,
    length-append (used c) (take (c.start_index + c.cache_length - c.size) c.buf),
    length-take (c.start_index + c.cache_length - c.size) c.buf,
    length-used,
    v.memory,
    v.start_in,
    v.cache_in,
  )

  -- The queue after the bytes up to the end of the memory: it goes on at the front.
  wrapped :
      (n : ℕ)
      → n ≡ length (used c)
      → take (c.start_index + c.cache_length - c.size) c.buf ≡ drop n (contents c)
  wrapped n e =
      rw e (sym (drop-append (used c) (take (c.start_index + c.cache_length - c.size) c.buf)))

  contents-drained : (n : ℕ) → n ≤ length (used c) → contents (drain_ring c n) ≡ drop n (contents c)
  unfolding drain_ring
  contents-drained n h = elim (Bool-cases (c.cache_length - n == 0)) [
    | inl e ↦
        let m : min (0 + (c.cache_length - n)) c.size ≡ 0 = ground arith in
        let t : 0 + (c.cache_length - n) - c.size ≡ 0 = ground arith in
        let all : length (contents c) ≤ n = ground (arith, length-contents) in
        simp e (rw (m, t) (sym (drop_all n (contents c) all)))
    | inr e ↦ elim (Bool-cases (ltb (c.start_index + n) c.size)) [
      | inl f ↦
          let small = ltb→lt (c.start_index + n) c.size f in
          let p = mod-eq_of_lt small in
          let m : min (c.start_index + n + (c.cache_length - n)) c.size ≡ used_end c =
            omega (arith, length-used) in
          let t : c.start_index + n + (c.cache_length - n) - c.size
              ≡ c.start_index + c.cache_length - c.size =
            omega (arith, length-used) in
          simp e (rw (p, m, t) (moved n h small))
      | inr f ↦
          let ends : c.start_index + n ≡ c.size = ground (arith, length-used, v.start_in) in
          let p : (c.start_index + n) % c.size ≡ 0 = rw ends (mod_self c.size) in
          let m : min (0 + (c.cache_length - n)) c.size ≡ c.start_index + c.cache_length - c.size =
            omega (arith, length-used, v.cache_in, v.start_in) in
          let t : 0 + (c.cache_length - n) - c.size ≡ 0 = omega (arith, v.cache_in) in
          let z : c.start_index + c.cache_length - c.size - 0
              ≡ c.start_index + c.cache_length - c.size =
            omega arith in
          simp e (rw (p, m, t, append-nil, z) (wrapped n (omega (arith, length-used, v.start_in))))
    ]
  ]

  drained-IsValid : (n : ℕ) → n ≤ length (used c) → IsValid (drain_ring c n)
  unfolding drain_ring
  drained-IsValid n h =
      let p : (c.start_index + n) % c.size < c.size = omega (arith, v.start_in) in
      ground (arith, v.memory, v.start_in, v.cache_in, p)

  -- What a write sends are the oldest bytes, and just those leave the ring.
  pub contents-drain_ring :
      (n : ℕ)
      → n ≤ length (used c)
      → (take n (used c) ++ contents (drain_ring c n) ≡ contents c) × IsValid (drain_ring c n)
  contents-drain_ring n h = (
    ap₂ ◌++◌ (sym (take-append_le n (used c) _ h)) (contents-drained n h)
        ∙ take-append-drop n (contents c),
    drained-IsValid n h,
  )
