-- ===== src/Anytls/Session/Draining.antt =====
-- src/anytls/session.rs, recv_loop: the loop over the frames that the buffer holds.
use rust_proxy.Prelude.{
  ℕ, zero, suc, ◌+◌, ◌<◌, ◌≡◌, refl, sym, ap, ◌∙◌, subst, inl, inr, Bool, Option, none, some, List,
  ◌++◌, arith, length, Error, Result, ok, err, panic,
}
use rust_proxy.Anytls.Types.{Frame, decode}
use rust_proxy.Anytls.Types.Codec.{decode-cases, decode-append}
use rust_proxy.Anytls.Session.Wire.{Padding}
use rust_proxy.Anytls.Session.Receive.{Texts, Handled}
use rust_proxy.Anytls.Session.Loop.{
  Times, next_time, Working, Drained, after_frame, handle_next, handled, drain, drain_all,
}
use rust_proxy.Anytls.Session.Opening.{Stays, handle_frame-Stays}

-- What the loop over the buffer leaves: no whole frame, in a session that is as open as before.
abbrev pub Rests : Bool → Drained → Type 0
Rests c (ok left, w) = (decode left ≡ ok (none, left)) × (w.1.is_closed ≡ c)
Rests c (err e, w) = Unit
Rests c (panic, w) = Unit

abbrev pub Stayed : Bool → Result (Unit {0}) × Working → Type 0
Stayed c (ok _, w) = w.1.is_closed ≡ c
Stayed c (err e, w) = Unit
Stayed c (panic, w) = Unit

module _ (p : Padding) (texts : Texts) where
  after_frame-Stayed :
      (c : Bool) (ts : Times) (h : Handled) → Stays c h → Stayed c (after_frame p texts ts h)
  unfolding after_frame
  after_frame-Stayed c ts (ok _, s) h = h
  after_frame-Stayed c ts (err e, s) h = tt
  after_frame-Stayed c ts (panic, s) h = tt

  pub handle_next-Stayed :
      (f : Frame) (w : Working) → Stayed w.1.is_closed (handle_next p texts f w)
  handle_next-Stayed f w =
      after_frame-Stayed w.1.is_closed w.0 _
        (handle_frame-Stays p texts (next_time w.0) w.1.is_closed f w.1 refl)

  pub drain_frame :
      (fuel : ℕ) (buffer left : List ℕ) (f : Frame) (w : Working)
      → decode buffer ≡ ok (some f, left)
      → drain p texts (suc fuel) buffer w
        ≡ handled p texts (drain p texts fuel left) (handle_next p texts f w)
  unfolding drain
  drain_frame fuel buffer left f w e = rw (e, drain) refl

  pub drain-none :
      (fuel : ℕ) (buffer : List ℕ) (w : Working)
      → decode buffer ≡ ok (none, buffer)
      → drain p texts (suc fuel) buffer w ≡ some (ok buffer, w)
  unfolding drain
  drain-none fuel buffer w e = rw (e, drain) refl

  pub drain_err :
      (fuel : ℕ) (buffer : List ℕ) (x : Error) (w : Working)
      → decode buffer ≡ err x
      → drain p texts (suc fuel) buffer w ≡ some (err x, w)
  unfolding drain
  drain_err fuel buffer x w e = rw (e, drain) refl

  -- Enough fuel gives a result.
  pub drain-Rests :
      (fuel : ℕ) (buffer : List ℕ) (w : Working)
      → length buffer < fuel
      → (out : Drained) × (drain p texts fuel buffer w ≡ some out) × Rests w.1.is_closed out
  drain-Rests zero buffer w h = absurd (omega arith)
  drain-Rests (suc fuel) buffer w h = elim (decode-cases buffer) [
    | inl (x, e, _) ↦ ((err x, w), drain_err fuel buffer x w e, tt)
    | inr (inl e) ↦ ((ok buffer, w), drain-none fuel buffer w e, (e, refl))
    | inr (inr (f, left, e, l)) ↦
        let (out, q, r) =
          went left (drain-Rests fuel left) (omega arith) (handle_next p texts f w)
            (handle_next-Stayed f w) in
        (out, drain_frame fuel buffer left f w e ∙ q, r)
  ]
    where
      went :
          (left : List ℕ)
          → ((w' : Working)
              → length left < fuel
              → (out : Drained) × (drain p texts fuel left w' ≡ some out)
                × Rests w'.1.is_closed out)
          → length left < fuel
          → (r : Result (Unit {0}) × Working) → Stayed w.1.is_closed r
          → (out : Drained) × (handled p texts (drain p texts fuel left) r ≡ some out)
            × Rests w.1.is_closed out
      went left ih l (ok _, w') s =
          let (out, q, r) = ih w' l in (out, unfold handled in q, subst (λ c. Rests c out) s r)
      went left ih l (err x, w') s = ((err x, w'), unfold handled in refl, tt)
      went left ih l (panic, w') s = ((panic, w'), unfold handled in refl, tt)

  drain_more :
      (m k : ℕ) (buffer : List ℕ) (w : Working) (out : Drained)
      → drain p texts m buffer w ≡ some out
      → drain p texts (m + k) buffer w ≡ some out
  drain_more zero k buffer w out h = let z : none ≡ some out = unfold drain in h in absurd cc
  drain_more (suc m) k buffer w out h =
      let more : suc m + k ≡ suc (m + k) = omega arith in
      rw more (elim (decode-cases buffer) [
        | inl (x, e, _) ↦ drain_err (m + k) buffer x w e ∙ (sym (drain_err m buffer x w e) ∙ h)
        | inr (inl e) ↦ drain-none (m + k) buffer w e ∙ (sym (drain-none m buffer w e) ∙ h)
        | inr (inr (f, left, e, l)) ↦
            drain_frame (m + k) buffer left f w e
            ∙ went left (drain_more m k left) (handle_next p texts f w)
                (sym (drain_frame m buffer left f w e) ∙ h)
      ])
    where
      went :
          (left : List ℕ)
          → ((w' : Working) (out : Drained)
              → drain p texts m left w' ≡ some out
              → drain p texts (m + k) left w' ≡ some out)
          → (r : Result (Unit {0}) × Working) → handled p texts (drain p texts m left) r ≡ some out
          → handled p texts (drain p texts (m + k) left) r ≡ some out
      went left ih (ok _, w') q = unfold handled in ih w' out (unfold handled in q)
      went left ih (err x, w') q = unfold handled in q
      went left ih (panic, w') q = unfold handled in q

  -- Where the loop has ended with bytes left, they wait for more; an error stays.
  abbrev pub GoesOn : ℕ → List ℕ → Drained → Option Drained → Type 0
  GoesOn m more (ok left, w) o =
      (out : Drained) → drain p texts m (left ++ more) w ≡ some out → o ≡ some out
  GoesOn m more (err e, w) o = o ≡ some (err e, w)
  GoesOn m more (panic, w) o = o ≡ some (panic, w)

  pub drain-append :
      (n m : ℕ) (buffer more : List ℕ) (w : Working) (out : Drained)
      → drain p texts n buffer w ≡ some out
      → GoesOn m more out (drain p texts (n + m) (buffer ++ more) w)
  drain-append zero m buffer more w out h = let z : none ≡ some out = unfold drain in h in absurd cc
  drain-append (suc n) m buffer more w out h =
      let further : suc n + m ≡ suc (n + m) = omega arith in
      rw further (elim (decode-cases buffer) [
        | inl (x, e, all) ↦
            let q : (err x, w) ≡ out = let z = sym (drain_err n buffer x w e) ∙ h in cc in
            subst (λ o. GoesOn m more o (drain p texts (suc (n + m)) (buffer ++ more) w)) q
              (drain_err (n + m) (buffer ++ more) x w (all more))
        | inr (inl e) ↦
            let q : (ok buffer, w) ≡ out = let z = sym (drain-none n buffer w e) ∙ h in cc in
            let fuel : m + suc n ≡ suc (n + m) = omega arith in
            subst (λ o. GoesOn m more o (drain p texts (suc (n + m)) (buffer ++ more) w)) q
              (λ out' k. rw (← fuel) (drain_more m (suc n) (buffer ++ more) w out' k))
        | inr (inr (f, left, e, l)) ↦
            rw
              (drain_frame (n + m) (buffer ++ more) (left ++ more) f w
                (decode-append buffer more f left e))
              (went left (drain-append n m left more) (handle_next p texts f w)
                (sym (drain_frame n buffer left f w e) ∙ h))
      ])
    where
      went :
          (left : List ℕ)
          → ((w' : Working) (out : Drained)
              → drain p texts n left w' ≡ some out
              → GoesOn m more out (drain p texts (n + m) (left ++ more) w'))
          → (r : Result (Unit {0}) × Working) → handled p texts (drain p texts n left) r ≡ some out
          → GoesOn m more out (handled p texts (drain p texts (n + m) (left ++ more)) r)
      went left ih (ok _, w') q = unfold handled in ih w' out (unfold handled in q)
      went left ih (err x, w') q =
          let t : (err x, w') ≡ out =
            let z : some (err x, w') ≡ some out = unfold handled in q in cc in
          subst
            (λ o.
              GoesOn m more o (handled p texts (drain p texts (n + m) (left ++ more)) (err x, w')))
            t (unfold handled in refl)
      went left ih (panic, w') q =
          let t : (panic, w') ≡ out =
            let z : some (panic, w') ≡ some out = unfold handled in q in cc in
          subst
            (λ o.
              GoesOn m more o (handled p texts (drain p texts (n + m) (left ++ more)) (panic, w')))
            t (unfold handled in refl)

  -- The result does not depend on the fuel.
  drain_same :
      (m n : ℕ) (buffer : List ℕ) (w : Working) (a b : Drained)
      → drain p texts m buffer w ≡ some a
      → drain p texts n buffer w ≡ some b
      → a ≡ b
  drain_same m n buffer w a b h k =
      let swap : n + m ≡ m + n = omega arith in
      let x : drain p texts (m + n) buffer w ≡ some a = drain_more m n buffer w a h in
      let y : drain p texts (m + n) buffer w ≡ some b = rw (← swap) (drain_more n m buffer w b k) in
      let z : some a ≡ some b = sym x ∙ y in cc

  pub all_of :
      (n : ℕ) (buffer : List ℕ) (w : Working) (out : Drained)
      → drain p texts n buffer w ≡ some out
      → drain_all p texts buffer w ≡ some out
  all_of n buffer w out h =
      let (o, q, _) = drain-Rests (length buffer + 1) buffer w (omega arith) in
      q ∙ ap some (drain_same (length buffer + 1) n buffer w o out q h)

  pub drain_all-append :
      (buffer left more : List ℕ) (w w' : Working)
      → drain_all p texts buffer w ≡ some (ok left, w')
      → drain_all p texts (buffer ++ more) w ≡ drain_all p texts (left ++ more) w'
  drain_all-append buffer left more w w' h =
      let (o, q, _) = drain-Rests (length (left ++ more) + 1) (left ++ more) w' (omega arith) in
      let further =
        drain-append (length buffer + 1) (length (left ++ more) + 1) buffer more w (ok left, w') h o
          q in
      all_of (length buffer + 1 + (length (left ++ more) + 1)) (buffer ++ more) w o further ∙ sym q
