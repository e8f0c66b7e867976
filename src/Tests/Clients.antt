-- ===== src/Tests/Clients.antt =====
-- src/anytls/server.rs: the theorem at concrete inputs.
use rust_proxy.Prelude.{
  ◌≡◌, true, none, some, List, [], ◌∷◌, arith, ◌==◌, if◌then◌else◌, get_or, replicate, Arrival,
  not_yet, arrives, Result, Poll,
}
use rust_proxy.Reader.{StreamReader, new_with_buffer_size}
use rust_proxy.Reader.Waiting as Waiting
use rust_proxy.Anytls.Server.{Users, Outcome, handle_connection}
use rust_proxy.Anytls.Server.Authentication.{Admits, handle_connection-Ends}

-- One user, whose digest is 32 ones.
abbrev users : Users
users = record {
  hash_prefixes = λ bytes. get_or bytes 0 0 == 1;
  users = λ bytes. if get_or bytes 31 0 == 1 then some (97 ∷ []) else none;
  fallback = true;
}

abbrev reader : StreamReader
reader = new_with_buffer_size (replicate 40 0)

-- The digest, a padding of one byte, and the first byte of the session.
abbrev client : List Arrival
client = arrives (replicate 32 1) ∷ not_yet ∷ arrives (0 ∷ 1 ∷ 9 ∷ 5 ∷ []) ∷ []

handle_connection-Ends_example :
    (out : Poll (Result Outcome) × StreamReader × List Arrival) × (handle_connection users reader
        client
      ≡ some out)
    × Admits users (Waiting.unread reader client) out
handle_connection-Ends_example =
    handle_connection-Ends users reader client
      (record { ordered = omega arith; inside = omega arith })
