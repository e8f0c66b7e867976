-- ===== src/Tests/Loops.antt =====
-- src/anytls/session.rs, recv_loop and run: the theorems at concrete inputs.
use rust_proxy.Prelude.{
  ℕ, ◌≡◌, refl, ◌≢◌, true, false, some, List, [], ◌∷◌, ◌++◌, Arrival, not_yet, arrives, Result,
  panic, Poll, pending, ready,
}
use rust_proxy.Anytls.Session.Wire.{Padding}
use rust_proxy.Anytls.Session.Receive.{Session, Texts}
use rust_proxy.Anytls.Session.Streams.{IsValid}
use rust_proxy.Anytls.Session.Loop.{Received, Times, recv_loop, run}
use rust_proxy.Anytls.Session.Frames.{recv_loop-Whole}
use rust_proxy.Anytls.Session.Running.{run-Closes}

abbrev padding : Padding
padding = record { stop = 0; sizes = λ pkt. [] }

abbrev texts : Texts
texts = record { md5 = []; raw_scheme = []; lossy = λ s. s }

abbrev session : Session
session = record {
  streams = [];
  started = [];
  ended = [];
  sender = record {
    buffering = false;
    buffer = [];
    send_padding = false;
    pkt_counter = 0;
    wire = record { replies = []; sent = [] };
  };
  peer_version = 0;
  received_client_settings = false;
  is_closed = false;
}

-- Settings, the start of stream 3, and a byte for it, cut in the middle of a header.
abbrev initial : List ℕ
initial = 4 ∷ 0 ∷ 0 ∷ 0 ∷ 0 ∷ 0 ∷ 0 ∷ 1 ∷ 0 ∷ 0 ∷ []

abbrev arrivals : List Arrival
arrivals =
    not_yet
    ∷ arrives (0 ∷ 3 ∷ 0 ∷ 0 ∷ 2 ∷ 0 ∷ 0 ∷ 0 ∷ 3 ∷ [])
    ∷ arrives (0 ∷ 1 ∷ 9 ∷ [])
    ∷ arrives []
    ∷ arrives (1 ∷ [])
    ∷ []

recv_loop-Whole_example :
    (out : Received) × (recv_loop padding texts initial arrivals ([], session) ≡ some out)
    × (recv_loop padding texts
          (initial ++ (0 ∷ 3 ∷ 0 ∷ 0 ∷ 2 ∷ 0 ∷ 0 ∷ 0 ∷ 3 ∷ 0 ∷ 1 ∷ 9 ∷ []))
          (arrives [] ∷ [])
          ([], session)
        ≡ some out)
recv_loop-Whole_example = recv_loop-Whole padding texts initial arrivals ([], session)

run-Closes_example :
    (r : Poll (Result (Unit {0}))) × (ts' : Times) × (s' : Session) × (run padding texts initial
        arrivals
        (false ∷ [], session)
      ≡ some (r, (ts', s')))
    × IsValid s'
    × (r ≢ ready panic)
    × (r ≢ pending → (s'.is_closed ≡ true) × (s'.streams ≡ []))
run-Closes_example =
    run-Closes padding texts initial arrivals (false ∷ []) session (λ pkt. tt)
      (record { unique = tt; settled = λ h. refl; gone = λ h. refl }) refl
