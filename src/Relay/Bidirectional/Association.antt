-- ===== src/Relay/Bidirectional/Association.antt =====
-- src/udp_relay.rs, CopyBidirectional: the messages of both directions pass in order until the relay ends,
-- and why it ends.
use rust_proxy.Prelude.{
  ℕ, ◌-◌, ◌≤◌, ◌≡◌, refl, ◌≢◌, ◌⊎◌, Bool, false, List, ◌++◌, arith, length, Arrival, ok, panic,
  ready,
}
use rust_proxy.Relay.{Outbox, World}
use rust_proxy.Relay.Steps.{IsValid, arriving_messages, to_come}
use rust_proxy.Relay.Order.{Cargo, cargo, Ended}
use rust_proxy.Relay.Bidirectional.{
  TransferState, running, done, Transfer, CopyBidirectional, Outside, association_timeout, Polled,
  copy_bidirectional_message,
}

-- The state of a direction, whose messages are `messages`.
pub record Carries (room : ℕ) (messages : Cargo) (s : TransferState) (w : World) : Type 0 where
  pub valid : IsValid room w
  pub same : cargo room w ≡ messages
  pub ended : s ≢ running → Ended room messages w

abbrev Carried : ℕ → Cargo → Transfer → Type 0
Carried room messages (r, s, w) =
    (r ≢ ready panic) × Carries room messages s w × (r ≡ ready (ok tt) → s ≡ done)

-- Both directions: `ab` are the messages from `a` to `b`.
pub record Holds (room : ℕ) (ab ba : Cargo) (c : CopyBidirectional) : Type 0 where
  pub a_side : Carries room ab c.a_to_b c.a_flow
  pub b_side : Carries room ba c.b_to_a c.b_flow

-- What goes from a reader to a writer.
abbrev pub loaded : ℕ → List Arrival → Outbox → Cargo
loaded room reads out =
    let a = to_come room false reads in
    (out.sent ++ arriving_messages room reads, (out.sent ++ a.0, a.1))

pub copy_bidirectional_message-Holds :
    (room now : ℕ) (a_initial_flush b_initial_flush : Bool) (a_memory b_memory : List ℕ)
    (a_reads b_reads : List Arrival) (a_out b_out : Outbox)
    → length a_memory ≡ room
    → length b_memory ≡ room
    → Holds room (loaded room a_reads b_out) (loaded room b_reads a_out) (
        copy_bidirectional_message now a_initial_flush b_initial_flush a_memory b_memory a_reads
          b_reads a_out b_out)
unfolding copy_bidirectional_message
copy_bidirectional_message-Holds room now f g a_memory b_memory a_reads b_reads a_out b_out ha hb =
    record {
      a_side = record {
        valid = record { memory = ha; fits = omega arith };
        same = refl;
        ended = λ h. absurd (h refl);
      };
      b_side = record {
        valid = record { memory = hb; fits = omega arith };
        same = refl;
        ended = λ h. absurd (h refl);
      };
    }

-- A poll that read nothing, a long time after the last one that did.
abbrev pub Idle : Outside → CopyBidirectional → CopyBidirectional → Type 0
Idle o c c' =
    (c'.a_flow.state.read_count ≡ c.a_flow.state.read_count)
    × (c'.b_flow.state.read_count ≡ c.b_flow.state.read_count)
    × (association_timeout ≤ o.now - c.last_active)

-- Why a relay ends with success: a direction is done, with all its messages sent, or the association is idle.
abbrev pub Reason : ℕ → Cargo → Cargo → Outside → CopyBidirectional → CopyBidirectional → Type 0
Reason room ab ba o c c' =
    ((c'.a_to_b ≡ done) × Ended room ab c'.a_flow)
    ⊎ (((c'.b_to_a ≡ done) × Ended room ba c'.b_flow) ⊎ Idle o c c')

abbrev pub Outcome : ℕ → Cargo → Cargo → Outside → CopyBidirectional → Polled → Type 0
Outcome room ab ba o c (r, c') =
    (r ≢ ready panic)
    × Holds room ab ba c'
    × (r ≡ ready (ok tt) → Reason room ab ba o c c')
    × (Idle o c c' → r ≡ ready (ok tt))
