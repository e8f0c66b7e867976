-- ===== src/Copy/Bidirectional/Both.antt =====
-- src/copy_bidirectional.rs, CopyBidirectional: both directions are copied whole.
use rust_proxy.Prelude.{
  ℕ, ◌-◌, ◌<◌, min, ◌≡◌, refl, sym, ap, until_end, has_end, ◌∙◌, ◌≢◌, Bool, Option, none, some,
  List, [], ◌∷◌, ◌++◌, arith, length, Arrival, arriving, Sink, poll_done, poll_done_lem, Result, ok,
  err, panic, Poll, pending, ready, if-cases,
}
use rust_proxy.Copy.{World, new}
use rust_proxy.Copy.Ring.{IsValid, contents}
use rust_proxy.Copy.Fifo.{stream, promise}
use rust_proxy.Copy.Ends.{Emptied, poll_copy-Fifo}
use rust_proxy.Copy.Transfer.{
  TransferState, running, shutting_down, done, Transfer, transfer_one_direction, shut_answer,
  after_copy,
}
use rust_proxy.Copy.Bidirectional.{
  CopyBidirectional, Outside, need_ping, check_timer, both, Polled, joined, poll_directions, poll,
  polls, copy_bidirectional_with_sizes,
}

-- All the bytes of a direction, and those before the end of its reader with whether there is an end.
abbrev pub Cargo : Type 0
Cargo = List ℕ × (List ℕ × Bool)

-- The state of a direction, whose bytes are `bytes`.
abbrev pub Carries : Cargo → TransferState → World → Type 0
Carries bytes running w = IsValid w.ring × (stream w ≡ bytes.0) × (promise w ≡ bytes.1)
Carries bytes shutting_down w = Emptied bytes.0 bytes.1 w
Carries bytes done w = Emptied bytes.0 bytes.1 w

abbrev Carried : Cargo → Transfer → Type 0
Carried bytes (r, s, w) = (r ≢ ready panic) × Carries bytes s w × (r ≡ ready (ok tt) → s ≡ done)

shut-Carried :
    (bytes : Cargo) (w : World) (r : Poll (Result (Unit {0}))) (k : Sink)
    → Emptied bytes.0 bytes.1 w
    → k.sent ≡ w.out.sent
    → r ≢ ready panic
    → Carried bytes (shut_answer w (r, k))
unfolding shut_answer
shut-Carried bytes w pending k e o c =
    ((λ h. cc), (e.0, o ∙ e.1, ap (λ t. t ++ arriving w.incoming) o ∙ e.2), (λ h. cc))
shut-Carried bytes w (ready (err x)) k e o c =
    ((λ h. cc), (e.0, o ∙ e.1, ap (λ t. t ++ arriving w.incoming) o ∙ e.2), (λ h. cc))
shut-Carried bytes w (ready panic) k e o c = absurd (c refl)
shut-Carried bytes w (ready (ok _)) k e o c =
    ((λ h. cc), (e.0, o ∙ e.1, ap (λ t. t ++ arriving w.incoming) o ∙ e.2), (λ _. refl))

shutdown-Carried :
    (bytes : Cargo) (w : World)
    → Emptied bytes.0 bytes.1 w
    → Carried bytes (shut_answer w (poll_done w.out))
shutdown-Carried bytes w e =
    let (o, calm) = poll_done_lem w.out in
    shut-Carried bytes w (poll_done w.out).0 (poll_done w.out).1 e o calm

after_copy-Carried :
    (bytes : Cargo) (r : Poll (Result (Unit {0}))) (w : World)
    → IsValid w.ring
    → stream w ≡ bytes.0
    → promise w ≡ bytes.1
    → r ≢ ready panic
    → (r ≡ ready (ok tt) → Emptied bytes.0 bytes.1 w)
    → Carried bytes (after_copy (r, w))
unfolding after_copy
after_copy-Carried bytes pending w v s p c f = ((λ h. cc), (v, s, p), (λ h. cc))
after_copy-Carried bytes (ready (err e)) w v s p c f = ((λ h. cc), (v, s, p), (λ h. cc))
after_copy-Carried bytes (ready panic) w v s p c f = absurd (c refl)
after_copy-Carried bytes (ready (ok _)) w v s p c f = shutdown-Carried bytes w (f refl)

transfer_one_direction-Carried :
    (budget pings : Bool) (bytes : Cargo) (s : TransferState) (w : World)
    → Carries bytes s w
    → (t : Transfer) × (transfer_one_direction budget pings s w ≡ some t) × Carried bytes t
unfolding transfer_one_direction
transfer_one_direction-Carried budget pings bytes running w (v, q, p) =
    let (r, w', e, same, promised, valid, calm, full) = poll_copy-Fifo budget pings w v in
    (
      after_copy (r, w'),
      rw (e, transfer_one_direction) refl,
      after_copy-Carried bytes r w' valid (same ∙ q) (promised ∙ p) calm (λ h.
          let (a, b, c) = full h in
          (
            sym (ap (λ (d : List ℕ × Bool). d.1) p) ∙ a,
            b ∙ ap (λ (d : List ℕ × Bool). d.0) p,
            c ∙ q,
          )),
    )
transfer_one_direction-Carried budget pings bytes shutting_down w e =
    (shut_answer w (poll_done w.out), refl, shutdown-Carried bytes w e)
transfer_one_direction-Carried budget pings bytes done w e =
    ((ready (ok tt), done, w), refl, ((λ h. cc), e, (λ _. refl)))

-- Both directions: `ab` are the bytes from `a` to `b`.
pub record Holds (ab ba : Cargo) (c : CopyBidirectional) : Type 0 where
  pub a_side : Carries ab c.a_to_b c.a_flow
  pub b_side : Carries ba c.b_to_a c.b_flow

need_ping-Carries :
    (supports : Bool) (bytes : Cargo) (s : TransferState) (w : World)
    → Carries bytes s w
    → Carries bytes s (need_ping supports w)
unfolding need_ping
need_ping-Carries supports bytes running w (v, q, p) =
    (record { memory = v.memory; start_in = v.start_in; cache_in = v.cache_in }, q, p)
need_ping-Carries supports bytes shutting_down w e = e
need_ping-Carries supports bytes done w e = e

check_timer-Holds :
    (ab ba : Cargo) (o : Outside) (c : CopyBidirectional) (timer : Option ℕ)
    → Holds ab ba c
    → Holds ab ba (check_timer o c timer)
unfolding check_timer
check_timer-Holds ab ba o c none h = h
check_timer-Holds ab ba o c (some t) h =
    if-cases (Holds ab ba) o.fired _ c
      (λ _. record {
        a_side = need_ping-Carries o.b_supports ab c.a_to_b c.a_flow h.a_side;
        b_side = need_ping-Carries o.a_supports ba c.b_to_a c.b_flow h.b_side;
      })
      (λ _. h)

-- Where both directions are done, all their bytes before the ends are sent, and the others still arrive.
pub record Complete (ab ba : Cargo) (c : CopyBidirectional) : Type 0 where
  pub ends : (c.a_to_b ≡ done) × (c.b_to_a ≡ done)
  pub a_bytes : Emptied ab.0 ab.1 c.a_flow
  pub b_bytes : Emptied ba.0 ba.1 c.b_flow

abbrev pub Outcome : Cargo → Cargo → Polled → Type 0
Outcome ab ba (r, c) = (r ≢ ready panic) × Holds ab ba c × (r ≡ ready (ok tt) → Complete ab ba c)

done-Emptied :
    (bytes : Cargo) (s : TransferState) (w : World)
    → s ≡ done
    → Carries bytes s w
    → Emptied bytes.0 bytes.1 w
done-Emptied bytes running w q h = absurd cc
done-Emptied bytes shutting_down w q h = h
done-Emptied bytes done w q h = h

both_lem :
    (p q : Poll (Result (Unit {0})))
    → p ≢ ready panic
    → q ≢ ready panic
    → (both p q ≢ ready panic)
      × (both p q ≡ ready (ok tt) → (p ≡ ready (ok tt)) × (q ≡ ready (ok tt)))
unfolding both
both_lem (ready (err e)) (ready panic) c d = absurd (d refl)
both_lem (ready (err e)) (ready (err e')) c d = ((λ h. cc), (λ h. cc))
both_lem (ready (err e)) (ready (ok _)) c d = ((λ h. cc), (λ h. cc))
both_lem (ready (err e)) pending c d = ((λ h. cc), (λ h. cc))
both_lem (ready panic) q c d = absurd (c refl)
both_lem pending (ready (err e)) c d = ((λ h. cc), (λ h. cc))
both_lem pending (ready panic) c d = absurd (d refl)
both_lem (ready (ok _)) (ready (err e)) c d = ((λ h. cc), (λ h. cc))
both_lem (ready (ok _)) (ready panic) c d = absurd (d refl)
both_lem (ready (ok _)) (ready (ok _)) c d = ((λ h. cc), (λ h. (refl, refl)))
both_lem pending pending c d = ((λ h. cc), (λ h. cc))
both_lem pending (ready (ok _)) c d = ((λ h. cc), (λ h. cc))
both_lem (ready (ok _)) pending c d = ((λ h. cc), (λ h. cc))

joined-Outcome :
    (ab ba : Cargo) (c : CopyBidirectional) (x y : Transfer)
    → Carried ab x
    → Carried ba y
    → Outcome ab ba (joined c x y)
unfolding joined
joined-Outcome ab ba c (p, s, w) (q, t, v) (cp, hp, dp) (cq, hq, dq) =
    let (calm, won) = both_lem p q cp cq in
    (
      calm,
      record { a_side = hp; b_side = hq },
      λ h.
          let (x, y) = won h in
          record {
            ends = (dp x, dq y);
            a_bytes = done-Emptied ab s w (dp x) hp;
            b_bytes = done-Emptied ba t v (dq y) hq;
          },
    )

poll-Outcome :
    (ab ba : Cargo) (o : Outside) (c : CopyBidirectional)
    → Holds ab ba c
    → (out : Polled) × (poll o c ≡ some out) × Outcome ab ba out
unfolding poll poll_directions mathlib.Core.Option.bind mathlib.Core.Option.map
poll-Outcome ab ba o c h =
    let c' = check_timer o c c.sleep_future in
    let k = check_timer-Holds ab ba o c c.sleep_future h in
    let (x, e, f) =
      transfer_one_direction-Carried o.a_budget o.b_pings ab c'.a_to_b c'.a_flow k.a_side in
    let (y, d, g) =
      transfer_one_direction-Carried o.b_budget o.a_pings ba c'.b_to_a c'.b_flow k.b_side in
    (joined c' x y, rw (e, d) refl, joined-Outcome ab ba c' x y f g)

polls-Outcome :
    (ab ba : Cargo) (os : List Outside) (c : CopyBidirectional)
    → Holds ab ba c
    → (out : Polled) × (polls os c ≡ some out) × Outcome ab ba out
unfolding polls
polls-Outcome ab ba [] c h = ((pending, c), refl, ((λ q. cc), h, (λ q. cc)))
polls-Outcome ab ba (o ∷ os) c h =
    let (out, e, k) = poll-Outcome ab ba o c h in went (polls-Outcome ab ba os) out e k
  where
    went :
        ((c' : CopyBidirectional)
          → Holds ab ba c'
          → (out : Polled) × (polls os c' ≡ some out) × Outcome ab ba out)
        → (out : Polled) → poll o c ≡ some out
        → Outcome ab ba out
        → (out' : Polled) × (polls (o ∷ os) c ≡ some out') × Outcome ab ba out'
    went ih (pending, c') e k = let (out', q, g) = ih c' k.1 in (out', rw (e, polls) q, g)
    went ih (ready r, c') e k = ((ready r, c'), rw (e, polls) refl, k)

contents-new : (memory : List ℕ) (flush : Bool) → contents (new memory flush) ≡ []
contents-new memory flush =
    let front : min 0 (length memory) - 0 ≡ 0 = omega arith in
    let back : 0 - length memory ≡ 0 = omega arith in rw (front, back) refl

-- What goes from a reader to a sink.
abbrev pub cargo : List Arrival → Sink → Cargo
cargo reads sink = (sink.sent ++ arriving reads, (sink.sent ++ until_end reads, has_end reads))

starts :
    (memory : List ℕ) (flush : Bool) (reads : List Arrival) (sink : Sink)
    → 0 < length memory
    → Carries
        (cargo reads sink)
        running
        (record { ring = new memory flush; incoming = reads; out = sink })
starts memory flush reads sink h = (
  record { memory = refl; start_in = h; cache_in = omega arith },
  ap (λ t. sink.sent ++ (t ++ arriving reads)) (contents-new memory flush),
  ap (λ (t : List ℕ). (sink.sent ++ (t ++ until_end reads), has_end reads))
      (contents-new memory flush),
)

-- A copy between two streams that starts with buffers of some memory, polled any number of times: each
-- poll returns, and none panics. Where it is ready with success, both directions are done: the end of each
-- reader's stream was among its answers, and each side was sent, in order, the bytes that were sent to it
-- before and all those that arrived from the other before that end.
pub polls-Complete :
    (os : List Outside) (o : Outside) (a_flush b_flush : Bool) (a_memory b_memory : List ℕ)
    (a_reads b_reads : List Arrival) (a_sink b_sink : Sink)
    → 0 < length a_memory
    → 0 < length b_memory
    → (out : Polled) × (polls os (
          copy_bidirectional_with_sizes o a_flush b_flush a_memory b_memory a_reads b_reads a_sink
            b_sink)
        ≡ some out)
      × (out.0 ≢ ready panic)
      × (out.0 ≡ ready (ok tt) → Complete (cargo a_reads b_sink) (cargo b_reads a_sink) out.1)
unfolding copy_bidirectional_with_sizes
polls-Complete os o a_flush b_flush a_memory b_memory a_reads b_reads a_sink b_sink ha hb =
    let (out, e, (c, k, f)) =
      polls-Outcome (cargo a_reads b_sink) (cargo b_reads a_sink) os _ (record {
        a_side = starts a_memory b_flush a_reads b_sink ha;
        b_side = starts b_memory a_flush b_reads a_sink hb;
      }) in
    (out, e, c, f)
