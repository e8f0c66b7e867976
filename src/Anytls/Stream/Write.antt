-- ===== src/Anytls/Stream/Write.antt =====
-- src/anytls/stream.rs: what a stream hands to its session over its whole life.
use rust_proxy.Prelude.{
  ℕ, ◌+◌, ◌-◌, ◌≤◌, ◌<◌, min, ◌≡◌, refl, sym, ap, ◌∙◌, subst, ◌⊎◌, inl, inr, Bool, true, false,
  ◌&&◌, List, [], ◌∷◌, ◌++◌, append-nil, append_assoc, arith, ltb, leb, ◌==◌, Bool-cases, if-cases,
  length, take, length-take, All, Result, ok, err, panic, Poll, pending, ready, All-append,
}
use rust_proxy.Anytls.Stream.{
  AnyTlsStream, Mail, Slot, free, full, closed, closes, Outgoing, max_frame_data_size, new, ReadOut,
  ShutOut, from_buffer, from_message, received, poll_read, reserved, poll_write, shut,
  poll_shutdown, send_fin_best_effort, drop_stream,
}

-- The calls of the user of a stream, each with the flag `session_closed` as it is read; a write is of at
-- least one byte.
pub data Call : Type 0 where
  read : ℕ → List Mail → Call
  write : Bool → ℕ → List ℕ → Call
  shutdown : Bool → Call
  dropped : Call

-- A stream, its way to the session, and the bytes that its writes have accepted.
pub record Life : Type 0 where
  pub stream : AnyTlsStream
  pub way : Outgoing
  pub accepted : List ℕ

abbrev pub born : ℕ → List Slot → Life
born id slots = record {
  stream = new id;
  way = record { slots = slots; queue = [] };
  accepted = [];
}

unfoldable pub wrote : Life → List ℕ → Poll (Result ℕ) × Outgoing → Life
wrote l buf (ready (ok n), o) = record l { way = o; accepted = l.accepted ++ take n buf }
wrote l buf (ready (err e), o) = record l { way = o }
wrote l buf (ready panic, o) = record l { way = o }
wrote l buf (pending, o) = record l { way = o }

unfoldable pub call : Life → Call → Life
call l (read room mail) = let (r, s, rest) = poll_read l.stream room mail in record l { stream = s }
call l (write c b bs) = wrote l (b ∷ bs) (poll_write l.stream c (b ∷ bs) l.way)
call l (shutdown c) =
    let (r, s, o) = poll_shutdown l.stream c l.way in record l { stream = s; way = o }
call l dropped = let (s, o) = drop_stream l.stream l.way in record l { stream = s; way = o }

unfoldable pub calls : Life → List Call → Life
calls l [] = l
calls l (c ∷ cs) = calls (call l c) cs

abbrev pub frames : ℕ → List (List ℕ) → List (ℕ × List ℕ)
frames id [] = []
frames id (p ∷ ps) = (id, p) ∷ frames id ps

abbrev pub joined : List (List ℕ) → List ℕ
joined [] = []
joined (p ∷ ps) = p ++ joined ps

frames-append :
    (id : ℕ) (ps : List (List ℕ)) (p : List ℕ)
    → frames id ps ++ ((id, p) ∷ []) ≡ frames id (ps ++ (p ∷ []))
frames-append id [] p = refl
frames-append id (q ∷ ps) p = ap (λ t. (id, q) ∷ t) (frames-append id ps p)

joined-append : (ps : List (List ℕ)) (p : List ℕ) → joined (ps ++ (p ∷ [])) ≡ joined ps ++ p
joined-append [] p = rw append-nil
joined-append (q ∷ ps) p =
    ap (λ t. q ++ t) (joined-append ps p) ∙ sym (append_assoc q (joined ps) p)

abbrev pub Fits : List ℕ → Type 0
Fits p = (0 < length p) × (length p ≤ max_frame_data_size)

-- The messages of a stream: its data in messages that a frame can hold, none of them empty, and then at
-- most one end of the stream, after which it is closed.
abbrev pub Sends : ℕ → Bool → List (ℕ × List ℕ) → List ℕ → Type 0
Sends id is_closed queue accepted =
    (ps : List (List ℕ)) × All Fits ps
    × (joined ps ≡ accepted)
    × ((queue ≡ frames id ps) ⊎ ((queue ≡ frames id ps ++ ((id, []) ∷ [])) × (is_closed ≡ true)))

abbrev Lives : ℕ → Life → Type 0
Lives id l = (l.stream.id ≡ id) × Sends id l.stream.stream_closed l.way.queue l.accepted

-- While the stream is open, there is no end in the queue.
open_Sends :
    {id : ℕ} {is_closed : Bool} {q : List (ℕ × List ℕ)} {accepted : List ℕ}
    → Sends id is_closed q accepted
    → is_closed ≡ false
    → (ps : List (List ℕ)) × All Fits ps × (joined ps ≡ accepted) × (q ≡ frames id ps)
open_Sends (ps, f, j, inl e) c = (ps, f, j, e)
open_Sends (ps, f, j, inr (e, d)) c = absurd cc

-- Data, and an end, behind the data of a stream that is open.
more_data :
    {id : ℕ} {q : List (ℕ × List ℕ)} {accepted : List ℕ} {is_closed : Bool} (p : List ℕ)
    → Sends id is_closed q accepted
    → is_closed ≡ false
    → Fits p
    → Sends id is_closed (q ++ ((id, p) ∷ [])) (accepted ++ p)
more_data {id} p s c h =
    let (ps, f, j, e) = open_Sends s c in
    (
      ps ++ (p ∷ []),
      All-append Fits ps (p ∷ []) f (h, tt),
      joined-append ps p ∙ ap (λ t. t ++ p) j,
      inl (ap (λ t. t ++ ((id, p) ∷ [])) e ∙ frames-append id ps p),
    )

ended :
    {id : ℕ} {q : List (ℕ × List ℕ)} {accepted : List ℕ} {is_closed : Bool}
    → Sends id is_closed q accepted
    → is_closed ≡ false
    → Sends id true (q ++ ((id, []) ∷ [])) accepted
ended {id} s c =
    let (ps, f, j, e) = open_Sends s c in (ps, f, j, inr (ap (λ t. t ++ ((id, []) ∷ [])) e, refl))

-- Closing a stream without an end.
shut_now :
    {id : ℕ} {q : List (ℕ × List ℕ)} {accepted : List ℕ} {is_closed : Bool}
    → Sends id is_closed q accepted
    → is_closed ≡ false
    → Sends id true q accepted
shut_now s c = let (ps, f, j, e) = open_Sends s c in (ps, f, j, inl e)

module _ (l : Life) (open_now : l.stream.stream_closed ≡ false) (lives : Lives l.stream.id l) where
  reserved-Lives :
      (b : ℕ) (bs : List ℕ) (slots : List Slot)
      → Lives l.stream.id (wrote l (b ∷ bs) (reserved l.stream (b ∷ bs) slots l.way.queue))
  unfolding wrote reserved
  reserved-Lives b bs [] = lives
  reserved-Lives b bs (full ∷ rest) = lives
  reserved-Lives b bs (closed ∷ rest) = lives
  reserved-Lives b bs (closes ∷ rest) = lives
  reserved-Lives b bs (free ∷ rest) =
      let n = min (length (b ∷ bs)) max_frame_data_size in
      (refl, more_data (take n (b ∷ bs)) lives.1 open_now (omega (arith, length-take n (b ∷ bs))))

  abbrev shut_life : Poll (Result (Unit {0})) × AnyTlsStream × Outgoing → Life
  shut_life (r, s, o) = record l { stream = s; way = o }

  shut-Lives :
      (slots : List Slot)
      → Lives l.stream.id
          (shut_life (shut (record (l.stream) { shutdown_in_progress = true }) slots l.way.queue))
  unfolding shut
  shut-Lives [] = lives
  shut-Lives (full ∷ rest) = lives
  shut-Lives (closed ∷ rest) = (refl, shut_now lives.1 open_now)
  shut-Lives (closes ∷ rest) = (refl, shut_now lives.1 open_now)
  shut-Lives (free ∷ rest) = (refl, ended lives.1 open_now)

  fin-Sends :
      (s : AnyTlsStream) (slots : List Slot)
      → s.id ≡ l.stream.id
      → Sends l.stream.id true (send_fin_best_effort s slots l.way.queue).queue l.accepted
  unfolding send_fin_best_effort
  fin-Sends s [] e = shut_now lives.1 open_now
  fin-Sends s (full ∷ rest) e = shut_now lives.1 open_now
  fin-Sends s (closed ∷ rest) e = shut_now lives.1 open_now
  fin-Sends s (closes ∷ rest) e = shut_now lives.1 open_now
  fin-Sends s (free ∷ rest) e = rw e (ended lives.1 open_now)

-- A read changes neither the name of a stream nor whether it is closed.
abbrev Same : AnyTlsStream → ReadOut → Type 0
Same s (r, s', rest) = (s'.id ≡ s.id) × (s'.stream_closed ≡ s.stream_closed)

from_buffer-Same :
    (s : AnyTlsStream) (n : ℕ)
    → ((from_buffer s n).id ≡ s.id) × ((from_buffer s n).stream_closed ≡ s.stream_closed)
unfolding from_buffer
from_buffer-Same s n = elim (Bool-cases (leb (length s.read_buffer) (s.read_offset + n))) [
  | inl e ↦ rw e (refl, refl)
  | inr e ↦ rw e (refl, refl)
]

received-Same : (s : AnyTlsStream) (room : ℕ) (mail : List Mail) → Same s (received s room mail)
unfolding received from_message
received-Same s room [] = (refl, refl)
received-Same s room (Mail.none_yet ∷ rest) = (refl, refl)
received-Same s room (Mail.hung_up ∷ rest) = (refl, refl)
received-Same s room (Mail.message [] ∷ rest) = (refl, refl)
received-Same s room (Mail.message (b ∷ bs) ∷ rest) =
    elim (Bool-cases (ltb (min (length (b ∷ bs)) room) (length (b ∷ bs)))) [
      | inl e ↦ rw e (refl, refl)
      | inr e ↦ rw e (refl, refl)
    ]

poll_read-Same : (s : AnyTlsStream) (room : ℕ) (mail : List Mail) → Same s (poll_read s room mail)
unfolding poll_read
poll_read-Same s room mail =
    let left = length s.read_buffer - s.read_offset in
    if-cases (Same s) s.stream_closed _ _ (λ _. (refl, refl))
      (λ _.
        if-cases (Same s) (s.eof && (left == 0)) _ _ (λ _. (refl, refl))
          (λ _.
            if-cases (Same s) (ltb 0 left) _ _ (λ _. from_buffer-Same s (min left room))
              (λ _. received-Same s room mail)))

read-Lives :
    (l : Life) (out : ReadOut)
    → Same l.stream out
    → Lives l.stream.id l
    → Lives l.stream.id (let (r, s, rest) = out in record l { stream = s })
read-Lives l (r, s, rest) (e, c) (i, sends) = (e, rw c sends)

write-Lives :
    (l : Life) (c : Bool) (b : ℕ) (bs : List ℕ)
    → Lives l.stream.id l
    → Lives l.stream.id (wrote l (b ∷ bs) (poll_write l.stream c (b ∷ bs) l.way))
unfolding wrote poll_write
write-Lives l c b bs lives =
    let Good : Poll (Result ℕ) × Outgoing → Type 0 = λ o. Lives l.stream.id (wrote l (b ∷ bs) o) in
    if-cases Good l.stream.stream_closed _ _ (λ _. lives)
      (λ q.
        if-cases Good l.stream.shutdown_in_progress _ _ (λ _. lives)
          (λ _. if-cases Good c _ _ (λ _. lives) (λ _. reserved-Lives l q lives b bs l.way.slots)))

abbrev after_shutdown : Life → ShutOut → Life
after_shutdown l (r, s, o) = record l { stream = s; way = o }

shutdown-Lives :
    (l : Life) (c : Bool)
    → Lives l.stream.id l
    → Lives l.stream.id (after_shutdown l (poll_shutdown l.stream c l.way))
unfolding poll_shutdown
shutdown-Lives l c lives =
    let Good : ShutOut → Type 0 = λ o. Lives l.stream.id (after_shutdown l o) in
    if-cases Good l.stream.stream_closed _ _ (λ _. lives)
      (λ q.
        if-cases Good c _ _ (λ _. (refl, shut_now lives.1 q))
          (λ _. shut-Lives l q lives l.way.slots))

abbrev after_drop : Life → AnyTlsStream × Outgoing → Life
after_drop l (s, o) = record l { stream = s; way = o }

dropped-Lives :
    (l : Life) → Lives l.stream.id l → Lives l.stream.id (after_drop l (drop_stream l.stream l.way))
unfolding drop_stream
dropped-Lives l lives =
    let s' = record (l.stream) { stream_closed = true } in
    if-cases (λ o. Lives l.stream.id (after_drop l o)) l.stream.stream_closed _ _ (λ _. lives)
      (λ q. (refl, fin-Sends l q lives s' l.way.slots refl))

call-Lives : (l : Life) (c : Call) → Lives l.stream.id l → Lives l.stream.id (call l c)
unfolding call
call-Lives l (read room mail) lives =
    read-Lives l (poll_read l.stream room mail) (poll_read-Same l.stream room mail) lives
call-Lives l (write c b bs) lives = write-Lives l c b bs lives
call-Lives l (shutdown c) lives = shutdown-Lives l c lives
call-Lives l dropped lives = dropped-Lives l lives

calls-Lives : (cs : List Call) (l : Life) → Lives l.stream.id l → Lives l.stream.id (calls l cs)
unfolding calls
calls-Lives [] l lives = lives
calls-Lives (c ∷ cs) l lives =
    let next = call-Lives l c lives in
    let next' : Lives (call l c).stream.id (call l c) = (refl, rw next.0 next.1) in
    subst (λ i. Lives i (calls (call l c) cs)) next.0 (calls-Lives cs (call l c) next')

-- Whatever is called on a new stream, with writes of at least one byte, and whatever its channels answer:
-- the messages that it has handed to its session are data, each of at least one byte and of no more than
-- a frame holds, which are together the bytes that its writes have accepted, in order; and behind them at
-- most one end of the stream, and that only where the stream is closed.
pub calls-Sends :
    (id : ℕ) (slots : List Slot) (cs : List Call)
    → (let l = calls (born id slots) cs in Sends id l.stream.stream_closed l.way.queue l.accepted)
calls-Sends id slots cs = (calls-Lives cs (born id slots) (refl, ([], tt, refl, inl refl))).1
