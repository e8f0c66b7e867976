-- ===== src/Copy/Transfer.antt =====
-- src/copy_bidirectional.rs, transfer_one_direction: a copy, and then the shutdown of the writer.
use rust_proxy.Prelude.{
  ℕ, ◌≡◌, ◌≢◌, Bool, Option, none, some, List, Sink, poll_done, Result, ok, err, panic, Poll,
  pending, ready,
}
use rust_proxy.Copy.{World, Done, poll_copy}
use rust_proxy.Copy.Ends.{Emptied}

pub data TransferState : Type 0 where
  running : TransferState
  shutting_down : TransferState
  done : TransferState

abbrev pub Transfer : Type 0
Transfer = Poll (Result (Unit {0})) × TransferState × World

-- The answer of the writer's `poll_shutdown`, behind which the loop sees `Done`.
unfoldable pub shut_answer : World → Poll (Result (Unit {0})) × Sink → Transfer
shut_answer w (pending, k) = (pending, shutting_down, record w { out = k })
shut_answer w (ready (err e), k) = (ready (err e), shutting_down, record w { out = k })
shut_answer w (ready panic, k) = (ready panic, shutting_down, record w { out = k })
shut_answer w (ready (ok _), k) = (ready (ok tt), done, record w { out = k })

-- What follows the copy in the same call.
unfoldable pub after_copy : Done → Transfer
after_copy (pending, w) = (pending, running, w)
after_copy (ready (err e), w) = (ready (err e), running, w)
after_copy (ready panic, w) = (ready panic, running, w)
after_copy (ready (ok _), w) = shut_answer w (poll_done w.out)

-- The loop by the state that it starts in; each state is met once.
unfoldable pub transfer_one_direction : Bool → Bool → TransferState → World → Option Transfer
transfer_one_direction budget pings done w = some (ready (ok tt), done, w)
transfer_one_direction budget pings shutting_down w = some (shut_answer w (poll_done w.out))
transfer_one_direction budget pings running w = elim (poll_copy budget pings w) [
  | none ↦ none
  | some d ↦ some (after_copy d)
]

abbrev pub Transfers : List ℕ → List ℕ × Bool → Transfer → Type 0
Transfers bytes due (r, state, w) =
    (r ≢ ready panic) × (r ≡ ready (ok tt) → (state ≡ done) × Emptied bytes due w)
