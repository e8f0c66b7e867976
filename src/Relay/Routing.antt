-- ===== src/Relay/Routing.antt =====
-- src/udp_relay.rs, run_udp_routing: packets with a destination each, over one socket for a destination.
pub mod Destinations
use rust_proxy.Prelude.{
  ℕ, ◌-◌, ◌*◌, ◌^◌, Bool, true, false, not, Option, none, some, List, [], ◌∷◌, ◌++◌, ltb, leb,
  if◌then◌else◌, takes, Result, ok, err, panic,
}
use rust_proxy.Address.{NetLocation, SocketAddr, unspecified}
use rust_proxy.Hysteria2.Datagrams.{same_location}

-- The session of a destination; its socket and the task that receives on it are outside.
pub record Session : Type 0 where
  pub last_activity : ℕ

-- `HashMap<NetLocation, Session>`
abbrev pub Sessions : Type 0
Sessions = List (NetLocation × Session)

abbrev pub is_empty : Sessions → Bool
is_empty [] = true
is_empty (x ∷ rest) = false

unfoldable pub find : NetLocation → Sessions → Option Session
find key [] = none
find key ((k, s) ∷ rest) =
    let found = find key rest in if same_location k key then some s else found

-- `insert`, and a write through `get_mut`, where the key is there.
unfoldable pub put : NetLocation → Session → Sessions → Sessions
put key s [] = (key, s) ∷ []
put key s ((k, t) ∷ rest) =
    let others = put key s rest in
    if same_location k key then ((k, s) ∷ rest) else ((k, t) ∷ others)

unfoldable pub retain : (Session → Bool) → Sessions → Sessions
retain keeps [] = []
retain keeps ((k, s) ∷ rest) =
    let others = retain keeps rest in if keeps s then ((k, s) ∷ others) else others

-- What a turn meets outside: the time in nanoseconds at its start and where a packet is resolved, what the
-- resolver answers, and whether a socket is made.
pub record Outside : Type 0 where
  pub started : ℕ
  pub now : ℕ
  pub resolve : NetLocation → Result SocketAddr
  pub socket : Result (Unit {0})

-- The state of the loop; `sent` are the packets handed to the sockets, and `delivered` those given to the client.
pub record Routing : Type 0 where
  pub sessions : Sessions
  pub last_cleanup : ℕ
  pub sent : List (NetLocation × SocketAddr × List ℕ)
  pub delivered : List (SocketAddr × List ℕ)

abbrev pub cleanup_interval : ℕ
cleanup_interval = 10 * 10 ^ 9

abbrev pub association_timeout : ℕ
association_timeout = 200 * 10 ^ 9

unfoldable pub cleanup : Outside → Routing → Routing
cleanup o l =
    if leb cleanup_interval (o.started - l.last_cleanup)
    then record l {
      sessions =
          retain (λ s. not (ltb association_timeout (o.started - s.last_activity))) l.sessions;
      last_cleanup = o.started;
    }
    else l

-- Whether the loop goes on, is left by `break`, or panics.
pub data Verdict : Type 0 where
  goes_on : Verdict
  breaks_off : Verdict
  panics : Verdict

abbrev pub Turned : Type 0
Turned = Verdict × Routing

-- The packet is sent, and its session is active now.
unfoldable pub forward : Outside → NetLocation → List ℕ → SocketAddr → Routing → Turned
forward o destination payload addr l = (
  goes_on,
  record l {
    sessions = put destination (record { last_activity = o.now }) l.sessions;
    sent = l.sent ++ ((destination, addr, payload) ∷ []);
  },
)

unfoldable pub created :
    Outside → NetLocation → List ℕ → SocketAddr → Routing → Result (Unit {0}) → Turned
created o destination payload addr l (ok _) = forward o destination payload addr l
created o destination payload addr l (err e) = (goes_on, l)
created o destination payload addr l panic = (panics, l)

unfoldable pub in_session :
    Outside → NetLocation → List ℕ → SocketAddr → Routing → Option Session → Turned
in_session o destination payload addr l (some s) = forward o destination payload addr l
in_session o destination payload addr l none = created o destination payload addr l o.socket

unfoldable pub resolved : Outside → NetLocation → List ℕ → Routing → Result SocketAddr → Turned
resolved o destination payload l (ok addr) =
    in_session o destination payload addr l (find destination l.sessions)
resolved o destination payload l (err e) = (goes_on, l)
resolved o destination payload l panic = (panics, l)

-- A packet that the client sent, or the error of the read.
unfoldable pub from_client : Outside → Result (NetLocation × List ℕ) → Routing → Turned
from_client o (ok (destination, payload)) l =
    if same_location destination unspecified
    then (breaks_off, l)
    else resolved o destination payload l (o.resolve destination)
from_client o (err e) l = (breaks_off, l)
from_client o panic l = (panics, l)

-- A response, and whether it is written to the client.
unfoldable pub from_remote : SocketAddr → List ℕ → Result (Unit {0}) → Routing → Turned
from_remote source payload (ok _) l =
    (goes_on, record l { delivered = l.delivered ++ ((source, payload) ∷ []) })
from_remote source payload (err e) l = (breaks_off, l)
from_remote source payload panic l = (panics, l)

-- What `select!` takes.
pub data Event : Type 0 where
  response : SocketAddr → List ℕ → Result (Unit {0}) → Event
  packet : Result (NetLocation × List ℕ) → Event

-- The arm of a response is closed where there is no session: the response waits.
unfoldable pub take_event : Outside → Event → Routing → Turned
take_event o (response source payload written) l =
    if is_empty l.sessions then (goes_on, l) else from_remote source payload written l
take_event o (packet r) l = from_client o r l

-- One turn of the loop.
unfoldable pub turn : Outside → Event → Routing → Turned
turn o e l = take_event o e (cleanup o l)
