-- ===== src/Anytls/Session/Frames.antt =====
-- src/anytls/session.rs, recv_loop: the frames of a connection are handled in order, however the bytes are cut.
use rust_proxy.Prelude.{
  ℕ, suc, ◌+◌, ◌≡◌, refl, ap, ◌∙◌, inl, inr, Bool, true, false, Option, none, some, List, [], ◌∷◌,
  ◌++◌, append-nil, append_assoc, arith, Bool-cases, length, Arrival, not_yet, breaks, arrives,
  Error, ok, err, panic, pending, ready,
}
use rust_proxy.Anytls.Types.{decode}
use rust_proxy.Anytls.Session.Wire.{Padding}
use rust_proxy.Anytls.Session.Receive.{Texts}
use rust_proxy.Anytls.Session.Loop.{
  Working, Drained, drain_all, Received, unless_closed, turn, read_buf, recv_loop,
}
use rust_proxy.Anytls.Session.Draining.{
  Rests, drain-none, drain-Rests, drain-append, all_of, drain_all-append,
}

-- The bytes that arrive before the end, an error or a wait, and what comes there.
abbrev pub flow_bytes : List Arrival → List ℕ
flow_bytes [] = []
flow_bytes (not_yet ∷ rest) = flow_bytes rest
flow_bytes (breaks e ∷ rest) = []
flow_bytes (arrives [] ∷ rest) = []
flow_bytes (arrives (x ∷ xs) ∷ rest) = (x ∷ xs) ++ flow_bytes rest

abbrev pub flow_end : List Arrival → List Arrival
flow_end [] = []
flow_end (not_yet ∷ rest) = flow_end rest
flow_end (breaks e ∷ rest) = breaks e ∷ []
flow_end (arrives [] ∷ rest) = arrives [] ∷ []
flow_end (arrives (x ∷ xs) ∷ rest) = flow_end rest

pub opens :
    (w : Working) (rest : Option Received) (b : Bool) → b ≡ false → unless_closed b w rest ≡ rest
unfolding unless_closed
opens w rest b c = ap (λ t. unless_closed t w rest) c

pub closes :
    (w : Working) (rest : Option Received) (b : Bool)
    → b ≡ true
    → unless_closed b w rest ≡ some (ready (ok tt), w)
unfolding unless_closed
closes w rest b c = ap (λ t. unless_closed t w rest) c

module _ (p : Padding) (texts : Texts) where
  -- What the loop does from a buffer on, read in pieces and read at once.
  abbrev Same : Option Received → Option Received → Type 0
  Same a b = (out : Received) × (a ≡ some out) × (b ≡ some out)

  turn-Same :
      (rest : List Arrival) (buffer : List ℕ) (w : Working)
      → w.1.is_closed ≡ false
      → ((left : List ℕ) (w' : Working)
          → w'.1.is_closed ≡ false
          → decode left ≡ ok (none, left)
          → Same (read_buf p texts rest left w') (
              turn p texts
                (read_buf p texts (flow_end rest))
                (drain_all p texts (left ++ flow_bytes rest) w')))
      → Same (turn p texts (read_buf p texts rest) (drain_all p texts buffer w)) (
          turn p texts
            (read_buf p texts (flow_end rest))
            (drain_all p texts (buffer ++ flow_bytes rest) w))
  turn-Same rest buffer w is_open ih =
      let (out, q, r) = drain-Rests p texts (length buffer + 1) buffer w (omega arith) in
      went out q r
    where
      went :
          (out : Drained)
          → drain_all p texts buffer w ≡ some out
          → Rests w.1.is_closed out
          → Same (turn p texts (read_buf p texts rest) (drain_all p texts buffer w)) (
              turn p texts
                (read_buf p texts (flow_end rest))
                (drain_all p texts (buffer ++ flow_bytes rest) w))
      went (ok left, w') q (d, c) =
          let (o, a, b) = ih left w' (c ∙ is_open) d in
          (
            o,
            rw q (unfold turn in a),
            rw (drain_all-append p texts buffer left (flow_bytes rest) w w' q) b,
          )
      went (err x, w') q r =
          let fails =
            drain-append p texts (length buffer + 1) 0 buffer (flow_bytes rest) w (err x, w') q in
          (
            (ready (err x), w'),
            rw q (unfold turn in refl),
            rw
                (all_of p texts (length buffer + 1 + 0) (buffer ++ flow_bytes rest) w (err x, w')
                  fails)
                (unfold turn in refl),
          )
      went (panic, w') q r =
          let fails =
            drain-append p texts (length buffer + 1) 0 buffer (flow_bytes rest) w (panic, w') q in
          (
            (ready panic, w'),
            rw q (unfold turn in refl),
            rw
                (all_of p texts (length buffer + 1 + 0) (buffer ++ flow_bytes rest) w (panic, w')
                  fails)
                (unfold turn in refl),
          )

  -- A loop that waits at the end of a list, or ends there, with nothing to handle.
  at_rest :
      (es : List Arrival) (left : List ℕ) (w : Working)
      → decode left ≡ ok (none, left)
      → turn p texts (read_buf p texts es) (drain_all p texts (left ++ []) w)
        ≡ read_buf p texts es left w
  at_rest es left w d =
      let one : length left + 1 ≡ suc (length left) = omega arith in
      let q : drain_all p texts left w ≡ some (ok left, w) =
        rw one (drain-none p texts (length left) left w d) in
      rw (append-nil left) (rw q (unfold turn in refl))

  read_buf-Same :
      (es : List Arrival) (left : List ℕ) (w : Working)
      → w.1.is_closed ≡ false
      → decode left ≡ ok (none, left)
      → Same (read_buf p texts es left w) (
          turn p texts
            (read_buf p texts (flow_end es))
            (drain_all p texts (left ++ flow_bytes es) w))
  unfolding read_buf
  read_buf-Same [] left w c d = ((pending, w), refl, at_rest [] left w d)
  read_buf-Same (not_yet ∷ rest) left w c d = read_buf-Same rest left w c d
  read_buf-Same (breaks e ∷ rest) left w c d =
      ((ready (err (Error.device e)), w), refl, at_rest (breaks e ∷ []) left w d)
  read_buf-Same (arrives [] ∷ rest) left w c d =
      ((ready (ok tt), w), refl, at_rest (arrives [] ∷ []) left w d)
  read_buf-Same (arrives (x ∷ xs) ∷ rest) left w c d =
      let (out, a, b) = turn-Same rest (left ++ (x ∷ xs)) w c (read_buf-Same rest) in
      (out, opens w _ w.1.is_closed c ∙ a, rw (← append_assoc left (x ∷ xs) (flow_bytes rest)) b)

-- The receive loop returns or waits, whatever the connection gives. What it has then done does not depend on
-- how the bytes arrive: it is what it does when all the bytes that arrive before the end, an error or a wait
-- stand in its buffer from the start.
pub recv_loop-Whole :
    (p : Padding) (texts : Texts) (initial : List ℕ) (es : List Arrival) (w : Working)
    → (out : Received) × (recv_loop p texts initial es w ≡ some out)
      × (recv_loop p texts (initial ++ flow_bytes es) (flow_end es) w ≡ some out)
unfolding recv_loop
recv_loop-Whole p texts initial es w = elim (Bool-cases w.1.is_closed) [
  | inl c ↦ ((ready (ok tt), w), closes w _ w.1.is_closed c, closes w _ w.1.is_closed c)
  | inr c ↦
      let (out, a, b) = turn-Same p texts es initial w c (read_buf-Same p texts es) in
      (out, opens w _ w.1.is_closed c ∙ a, opens w _ w.1.is_closed c ∙ b)
]
