-- ===== src/Anytls/Session/Writes.antt =====
-- src/anytls/session.rs: what a single write of a session sends, and the frames that only fill up.
use rust_proxy.Prelude.{
  ℕ, zero, suc, ◌+◌, ◌-◌, ◌%◌, ◌^◌, ◌≤◌, ◌<◌, min, ◌≡◌, refl, sym, ap, ◌∙◌, subst, ◌≢◌, ◌⊎◌, List,
  [], ◌∷◌, ◌++◌, append-nil, append_assoc, arith, ltb, length, length-replicate, ok, err, panic,
  if-cases,
}
use rust_proxy.Anytls.Types.{waste, to_u8, with_data, encode_into, frame_header_size}
use rust_proxy.Anytls.Session.Wire.{
  Reply, good, bad, Wire, Written, write_by, write_all, flush, and_then, check_mark, zeros,
  write_zeros, waste_header, padded,
}

-- A write that succeeds has sent just these bytes; none panics.
abbrev pub Adds : Wire → List ℕ → Written → Type 0
Adds w bs (r, w') = (r ≢ panic) × (r ≡ ok tt → w'.sent ≡ w.sent ++ bs)

pub write_by-Adds :
    (replies : List Reply) (out bs : List ℕ)
    → Adds (record { replies = replies; sent = out }) bs (write_by replies out bs)
unfolding write_by
write_by-Adds [] out bs = (λ h. cc, λ _. refl)
write_by-Adds (good ∷ rest) out bs = (λ h. cc, λ _. refl)
write_by-Adds (bad n e ∷ rest) out bs = (λ h. cc, λ h. cc)

pub write_all-Adds : (bs : List ℕ) (w : Wire) → Adds w bs (write_all bs w)
write_all-Adds bs w = write_by-Adds w.replies w.sent bs

pub and_then-Adds :
    (w : Wire) (xs bs : List ℕ) (out : Written) (f : Wire → Written)
    → Adds w xs out
    → ((w' : Wire) → Adds w' bs (f w'))
    → Adds w (xs ++ bs) (and_then out f)
and_then-Adds w xs bs (ok _, w') f a g =
    ((g w').0, λ h. (g w').1 h ∙ (ap (λ t. t ++ bs) (a.1 refl) ∙ append_assoc w.sent xs bs))
and_then-Adds w xs bs (err e, w') f a g = (λ h. cc, λ h. cc)
and_then-Adds w xs bs (panic, w') f a g = absurd (a.0 refl)

pub flushed-Adds :
    (w : Wire) (xs : List ℕ) (out : Written) → Adds w xs out → Adds w xs (and_then out flush)
flushed-Adds w xs out a =
    let all = and_then-Adds w xs [] out flush a (λ w'. write_all-Adds [] w') in
    (all.0, λ h. all.1 h ∙ ap (λ t. w.sent ++ t) (append-nil _))

pub zeros-append : (m n : ℕ) → zeros m ++ zeros n ≡ zeros (m + n)
zeros-append zero n = let e : zero + n ≡ n = omega arith in rw e
zeros-append (suc m) n =
    let e : suc m + n ≡ suc (m + n) = omega arith in rw e (ap (λ t. 0 ∷ t) (zeros-append m n))

pub write_zeros-Adds : (fuel n : ℕ) (w : Wire) → n ≤ fuel → Adds w (zeros n) (write_zeros fuel n w)
unfolding write_zeros
write_zeros-Adds zero n w h = let e : n ≡ 0 = omega arith in rw e (λ h. cc, λ _. sym (append-nil _))
write_zeros-Adds (suc fuel) n w h =
    let chunk = min n 1024 in
    let whole : chunk + (n - chunk) ≡ n = omega arith in
    if-cases (Adds w (zeros n)) (ltb 0 n) _ _
      (λ q.
        let some_zeros : 0 < n = ground arith in
        subst
          (λ t.
            Adds w t (and_then (write_all (zeros chunk) w) (λ w'. write_zeros fuel (n - chunk) w')))
          (zeros-append chunk (n - chunk) ∙ ap zeros whole)
          (and_then-Adds w _ _ (write_all (zeros chunk) w) _ (write_all-Adds (zeros chunk) w)
            (λ w'. write_zeros-Adds fuel (n - chunk) w' (omega arith))))
      (λ q. let e : n ≡ 0 = ground arith in rw e (λ h. cc, λ _. sym (append-nil _)))

-- The frames that only fill up.
unfoldable pub waste_frames : List ℕ → List ℕ
waste_frames [] = []
waste_frames (n ∷ ns) = encode_into (with_data waste 0 (zeros n)) [] ++ waste_frames ns

pub waste_frames-append :
    (ms ns : List ℕ) → waste_frames (ms ++ ns) ≡ waste_frames ms ++ waste_frames ns
unfolding waste_frames
waste_frames-append [] ns = refl
waste_frames-append (m ∷ ms) ns =
    ap (λ t. encode_into (with_data waste 0 (zeros m)) [] ++ t) (waste_frames-append ms ns)
    ∙ sym (
        append_assoc (encode_into (with_data waste 0 (zeros m)) []) (waste_frames ms)
          (waste_frames ns))

pub waste_header-zeros : (n : ℕ) → n < 2 ^ 16 → waste_header n ++ zeros n ≡ waste_frames (n ∷ [])
unfolding waste_frames encode_into to_u8
waste_header-zeros n h =
    let e : n % 2 ^ 16 ≡ n = omega arith in rw (length-replicate {A = ℕ} n 0, e, append-nil) refl

-- Sizes that a frame's header can name, or the mark.
abbrev pub SizeOk : ℕ → Type 0
SizeOk size = (size < 2 ^ 16) ⊎ (size ≡ check_mark)

module _ (bytes : List ℕ) (size : ℕ) (small : size < 2 ^ 16) where
  pub padded_lem : (ns : List ℕ) × (padded bytes size ≡ bytes ++ waste_frames ns)
  unfolding padded waste_frames encode_into to_u8
  padded_lem =
      let n = size - (length bytes + frame_header_size) in
      if-cases (λ t. (ns : List ℕ) × (t ≡ bytes ++ waste_frames ns)) (ltb 0 n) _ _
        (λ _. (n ∷ [], rw (length-replicate {A = ℕ} n 0, append-nil) refl))
        (λ _. ([], sym (append-nil _)))
