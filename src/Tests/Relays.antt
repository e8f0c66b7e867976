-- ===== src/Tests/Relays.antt =====
-- src/udp_relay.rs, src/copy_bidirectional.rs: the theorems at concrete inputs.
use rust_proxy.Prelude.{
  ◌*◌, ◌^◌, ◌≡◌, refl, ◌≢◌, true, false, some, List, [], ◌∷◌, arith, Arrival, not_yet, arrives,
  Answer, busy, takes, Sink, Result, ok, panic, Poll, ready,
}
use rust_proxy.Relay.{World, new, poll_copy}
use rust_proxy.Relay.Steps.{IsValid}
use rust_proxy.Relay.Order.{Cargo, cargo, Ended, poll_copy-Passes}
use rust_proxy.Relay.Bidirectional as Relay
use rust_proxy.Copy.Bidirectional.{Outside, Polled, polls, copy_bidirectional_with_sizes}
use rust_proxy.Copy.Bidirectional.Both as Copied
use rust_proxy.Copy.Bidirectional.Both.{Complete, polls-Complete}

-- Two messages, one of them too long for the buffer, and then the end; the writer is slow.
abbrev messages : List Arrival
messages = arrives (1 ∷ 2 ∷ []) ∷ not_yet ∷ arrives (3 ∷ 4 ∷ 5 ∷ 6 ∷ []) ∷ arrives [] ∷ []

abbrev slow : List Answer
slow = takes 0 ∷ busy ∷ takes 0 ∷ takes 0 ∷ takes 0 ∷ takes 0 ∷ []

abbrev relay : World
relay = record {
  state = new (0 ∷ 0 ∷ 0 ∷ []) true;
  incoming = messages;
  out = record { answers = slow; sent = [] };
}

poll_copy-Passes_example :
    (r : Poll (Result (Unit {0}))) × (w' : World) × (poll_copy true true relay ≡ some (r, w'))
    × (cargo 3 w' ≡ cargo 3 relay)
    × IsValid 3 w'
    × (r ≢ ready panic)
    × (r ≡ ready (ok tt) → Ended 3 (cargo 3 relay) w')
poll_copy-Passes_example =
    poll_copy-Passes 3 true true relay (record { memory = refl; fits = omega arith })

abbrev association : Relay.CopyBidirectional
association =
    Relay.copy_bidirectional_message 7 true false (0 ∷ 0 ∷ 0 ∷ []) (0 ∷ 0 ∷ 0 ∷ []) messages
      (not_yet ∷ messages) (record { answers = slow; sent = [] })
      (record { answers = slow; sent = [] })

abbrev later : Relay.Outside
later = record {
  now = 300 * 10 ^ 9;
  fired = true;
  a_budget = true;
  b_budget = true;
  a_supports = true;
  b_supports = false;
  a_pings = true;
  b_pings = false;
}

abbrev passed : Cargo
passed = let all = (1 ∷ 2 ∷ []) ∷ (3 ∷ 4 ∷ 5 ∷ []) ∷ [] in (all, (all, true))

abbrev outside : Outside
outside = record {
  now = 60;
  fired = true;
  a_budget = true;
  b_budget = true;
  a_supports = true;
  b_supports = false;
  a_pings = true;
  b_pings = false;
}

abbrev sink : Sink
sink = record { answers = takes 9 ∷ busy ∷ takes 2 ∷ takes 9 ∷ takes 9 ∷ []; sent = [] }

abbrev copied : Copied.Cargo
copied = let all = 1 ∷ 2 ∷ 3 ∷ 4 ∷ 5 ∷ 6 ∷ [] in (all, (all, true))

polls-Complete_example :
    (out : Polled) × (polls (outside ∷ outside ∷ []) (
        copy_bidirectional_with_sizes outside true false
          (0 ∷ 0 ∷ [])
          (0 ∷ [])
          messages
          messages
          sink
          sink)
      ≡ some out)
    × (out.0 ≢ ready panic)
    × (out.0 ≡ ready (ok tt) → Complete copied copied out.1)
polls-Complete_example =
    polls-Complete (outside ∷ outside ∷ []) outside true false (0 ∷ 0 ∷ []) (0 ∷ []) messages
      messages sink sink (omega arith) (omega arith)
