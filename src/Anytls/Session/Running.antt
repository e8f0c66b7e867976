-- ===== src/Anytls/Session/Running.antt =====
-- src/anytls/session.rs, run: a session stays valid up to its end, and is closed there.
use rust_proxy.Prelude.{
  ℕ, zero, suc, ◌+◌, ◌≡◌, refl, sym, ◌∙◌, subst, ◌≢◌, inl, inr, true, false, Option, none, some,
  List, [], ◌∷◌, ◌++◌, length, All, Arrival, not_yet, breaks, arrives, Result, ok, err, panic, Poll,
  pending, ready, if-cases,
}
use rust_proxy.Anytls.Types.{Frame}
use rust_proxy.Anytls.Types.Codec.{decode-cases}
use rust_proxy.Anytls.Session.Wire.{Padding}
use rust_proxy.Anytls.Session.Writes.{SizeOk}
use rust_proxy.Anytls.Session.Receive.{Session, Texts, Handled, close, handle_frame}
use rust_proxy.Anytls.Session.Streams.{IsValid, Keeps, handle_frame-Keeps, close-IsValid}
use rust_proxy.Anytls.Session.Loop.{
  Times, next_time, Working, Drained, after_frame, handle_next, handled, drain, drain_all, Received,
  turn, read_buf, recv_loop, closed, run,
}
use rust_proxy.Anytls.Session.Opening.{Stays, handle_frame-Stays}
use rust_proxy.Anytls.Session.Draining.{drain_frame, drain-none, drain_err}
use rust_proxy.Anytls.Session.Frames.{recv_loop-Whole, opens}

-- A step of a session that goes on only where it is valid and open.
abbrev Serves : {A : Type 0} → Result A × Working → Type 0
Serves (ok a, w) = IsValid w.1 × (w.1.is_closed ≡ false)
Serves (err e, w) = IsValid w.1
Serves (panic, w) = ⊥

abbrev Drains : Option Drained → Type 0
Drains none = Unit
Drains (some out) = Serves out

-- What is received: the session is valid, and there is no panic.
abbrev Receives : Option Received → Type 0
Receives none = Unit
Receives (some (r, w)) = IsValid w.1 × (r ≢ ready panic)

module _ (p : Padding) (texts : Texts) (fits : (pkt : ℕ) → All SizeOk (p.sizes pkt)) where
  handle_next-Serves :
      (f : Frame) (w : Working)
      → IsValid w.1
      → w.1.is_closed ≡ false
      → Serves (handle_next p texts f w)
  unfolding after_frame
  handle_next-Serves f w v c =
      went (handle_frame p texts (next_time w.0) f w.1)
        (handle_frame-Keeps p texts (next_time w.0) f w.1 fits v c)
        (handle_frame-Stays p texts (next_time w.0) false f w.1 c)
    where
      went : (h : Handled) → Keeps h → Stays false h → Serves (after_frame p texts w.0 h)
      went (ok _, s) k t = (k.0, t)
      went (err e, s) k t = k.0
      went (panic, s) k t = absurd (k.1 refl)

  drain-Serves :
      (fuel : ℕ) (buffer : List ℕ) (w : Working)
      → IsValid w.1
      → w.1.is_closed ≡ false
      → Drains (drain p texts fuel buffer w)
  drain-Serves zero buffer w v c = unfold drain in tt
  drain-Serves (suc fuel) buffer w v c = elim (decode-cases buffer) [
    | inl (x, e, _) ↦ rw (drain_err p texts fuel buffer x w e) v
    | inr (inl e) ↦ rw (drain-none p texts fuel buffer w e) (v, c)
    | inr (inr (f, left, e, l)) ↦
        rw (drain_frame p texts fuel buffer left f w e) (
          went left (drain-Serves fuel left) (handle_next p texts f w) (handle_next-Serves f w v c))
  ]
    where
      went :
          (left : List ℕ)
          → ((w' : Working)
              → IsValid w'.1
              → w'.1.is_closed ≡ false
              → Drains (drain p texts fuel left w'))
          → (r : Result (Unit {0}) × Working) → Serves r
          → Drains (handled p texts (drain p texts fuel left) r)
      went left ih (ok _, w') (v, c) = unfold handled in ih w' v c
      went left ih (err x, w') v = unfold handled in v
      went left ih (panic, w') v = absurd v

  turn-Receives :
      (read : List ℕ → Working → Option Received) (o : Option Drained)
      → Drains o
      → ((left : List ℕ) (w : Working)
          → IsValid w.1
          → w.1.is_closed ≡ false
          → Receives (read left w))
      → Receives (turn p texts read o)
  unfolding turn
  turn-Receives read none d f = tt
  turn-Receives read (some (ok left, w)) d f = f left w d.0 d.1
  turn-Receives read (some (err e, w)) d f = (d, λ h. cc)
  turn-Receives read (some (panic, w)) d f = absurd d

  read_buf-Receives :
      (es : List Arrival) (buffer : List ℕ) (w : Working)
      → IsValid w.1
      → w.1.is_closed ≡ false
      → Receives (read_buf p texts es buffer w)
  unfolding read_buf
  read_buf-Receives [] buffer w v c = (v, λ h. cc)
  read_buf-Receives (not_yet ∷ rest) buffer w v c = read_buf-Receives rest buffer w v c
  read_buf-Receives (breaks e ∷ rest) buffer w v c = (v, λ h. cc)
  read_buf-Receives (arrives [] ∷ rest) buffer w v c = (v, λ h. cc)
  read_buf-Receives (arrives (x ∷ xs) ∷ rest) buffer w v c =
      let all = drain_all p texts (buffer ++ (x ∷ xs)) w in
      subst Receives (sym (opens w (turn p texts (read_buf p texts rest) all) w.1.is_closed c)) (
        turn-Receives (read_buf p texts rest) all
          (drain-Serves (length (buffer ++ (x ∷ xs)) + 1) (buffer ++ (x ∷ xs)) w v c)
          (read_buf-Receives rest))

  recv_loop-Receives :
      (initial : List ℕ) (es : List Arrival) (w : Working)
      → IsValid w.1
      → w.1.is_closed ≡ false
      → Receives (recv_loop p texts initial es w)
  unfolding recv_loop
  recv_loop-Receives initial es w v c =
      let all = drain_all p texts initial w in
      subst Receives (sym (opens w (turn p texts (read_buf p texts es) all) w.1.is_closed c)) (
        turn-Receives (read_buf p texts es) all (drain-Serves (length initial + 1) initial w v c)
          (read_buf-Receives es))

run_of :
    (p : Padding) (texts : Texts) (initial : List ℕ) (es : List Arrival) (w : Working)
    (out : Received)
    → recv_loop p texts initial es w ≡ some out
    → run p texts initial es w ≡ some (closed p texts out)
unfolding run
run_of p texts initial es w out e = rw (e, run) refl

-- A session that is run waits or returns, without a panic and valid, and where it returns it is closed and
-- serves no stream. The sizes that padding draws are those that a frame's header can name, and the mark.
pub run-Closes :
    (p : Padding) (texts : Texts) (initial : List ℕ) (es : List Arrival) (ts : Times) (s : Session)
    → ((pkt : ℕ) → All SizeOk (p.sizes pkt))
    → IsValid s
    → s.is_closed ≡ false
    → (r : Poll (Result (Unit {0}))) × (ts' : Times) × (s' : Session) × (run p texts initial es
          (ts, s)
        ≡ some (r, (ts', s')))
      × IsValid s'
      × (r ≢ ready panic)
      × (r ≢ pending → (s'.is_closed ≡ true) × (s'.streams ≡ []))
run-Closes p texts initial es ts s fits v c =
    let (out, e, _) = recv_loop-Whole p texts initial es (ts, s) in
    went out e (subst Receives e (recv_loop-Receives p texts fits initial es (ts, s) v c))
  where
    is_shut : (s' : Session) → (close s').is_closed ≡ true
    is_shut s' =
        unfold close in
        if-cases (λ (x : Session). x.is_closed ≡ true) s'.is_closed s' _ (λ t. t) (λ _. refl)

    went :
        (out : Received)
        → recv_loop p texts initial es (ts, s) ≡ some out
        → Receives (some out)
        → (r : Poll (Result (Unit {0}))) × (ts' : Times) × (s' : Session) × (run p texts initial es
              (ts, s)
            ≡ some (r, (ts', s')))
          × IsValid s'
          × (r ≢ ready panic)
          × (r ≢ pending → (s'.is_closed ≡ true) × (s'.streams ≡ []))
    went (pending, (ts', s')) e k = (
      pending,
      ts',
      s',
      run_of p texts initial es (ts, s) _ e ∙ (unfold closed in refl),
      k.0,
      k.1,
      λ f. absurd (f refl),
    )
    went (ready r, (ts', s')) e k =
        let v' = close-IsValid s' k.0 in
        (
          ready r,
          ts',
          close s',
          run_of p texts initial es (ts, s) _ e ∙ (unfold closed in refl),
          v',
          k.1,
          λ f. (is_shut s', v'.gone (is_shut s')),
        )
