-- ===== src/Tests/Copying.antt =====
-- src/copy_bidirectional.rs, src/stream_reader.rs: the theorems at concrete inputs.
use rust_proxy.Prelude.{
  ℕ, ◌+◌, ◌≤◌, length, take, coming, ◌≡◌, refl, ◌≢◌, true, false, some, List, [], ◌∷◌, arith,
  Arrival, not_yet, arrives, takes, Result, ok, panic, Poll, ready,
}
use rust_proxy.Copy.{CopyBuffer, World, poll_copy}
use rust_proxy.Copy.Ring.{IsValid}
use rust_proxy.Copy.Fifo.{stream, promise}
use rust_proxy.Copy.Ends.{Emptied, poll_copy-Fifo}
use rust_proxy.Copy.Transfer.{Transfer}
use rust_proxy.Reader.{StreamReader, read_slice}
use rust_proxy.Reader.Filling as Filling
use rust_proxy.Reader.Laws as Laws
use rust_proxy.Reader.Waiting as Waiting

-- A ring that goes on at its front, a reader that ends after three bytes, and a slow writer.
abbrev ring : CopyBuffer
ring = record {
  read_done = false;
  need_flush = false;
  need_write_ping = true;
  start_index = 2;
  cache_length = 2;
  size = 3;
  buf = 7 ∷ 8 ∷ 9 ∷ [];
}

abbrev world : World
world = record {
  ring = ring;
  incoming = arrives (1 ∷ 2 ∷ 3 ∷ []) ∷ arrives [] ∷ [];
  out = record { answers = takes 1 ∷ takes 5 ∷ takes 5 ∷ takes 5 ∷ takes 5 ∷ []; sent = [] };
}

ring-IsValid : IsValid ring
ring-IsValid = record { memory = refl; start_in = omega arith; cache_in = omega arith }

poll_copy-Fifo_example :
    (r : Poll (Result (Unit {0}))) × (w' : World) × (poll_copy true false world ≡ some (r, w'))
    × (stream w' ≡ stream world)
    × (promise w' ≡ promise world)
    × IsValid w'.ring
    × (r ≢ ready panic)
    × (r ≡ ready (ok tt) → Emptied (stream world) (promise world) w')
poll_copy-Fifo_example = poll_copy-Fifo true false world ring-IsValid

abbrev reader : StreamReader
reader = record { buf = 1 ∷ 2 ∷ 3 ∷ 4 ∷ []; start_offset = 2; end_offset = 4 }

abbrev arrivals : List Arrival
arrivals = not_yet ∷ arrives (5 ∷ 6 ∷ []) ∷ []

reader-IsValid : Waiting.IsValid reader
reader-IsValid = record { ordered = omega arith; inside = omega arith }

read_slice-Reads_example :
    (out : Poll (Result (List ℕ)) × StreamReader × List Arrival) × (read_slice 3 reader arrivals
      ≡ some out)
    × Laws.Returns (λ bs. bs) 3 3 (Waiting.unread reader arrivals) out
    × (3 ≤ Waiting.held reader + length (coming arrivals)
        → out.0 ≡ ready (ok (take 3 (Waiting.unread reader arrivals))))
read_slice-Reads_example = Filling.read_slice-Reads reader arrivals 3 reader-IsValid (omega arith)
