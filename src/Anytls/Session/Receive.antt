-- ===== src/Anytls/Session/Receive.antt =====
-- src/anytls/session.rs, handle_frame, recv_loop, close: what a session does with the frames it reads.
use rust_proxy.Prelude.{
  false, ℕ, Bool, true, not, Option, none, some, List, [], ◌∷◌, ◌++◌, ltb, leb, ◌==◌, if◌then◌else◌,
  length, Error, Result, ok, err, panic,
}
use rust_proxy.Anytls.Types.{
  Command, waste, syn, psh, fin, settings, alert, update_padding_scheme, syn_ack, heart_request,
  heart_response, server_settings, Frame, control, with_data, data_frame,
}
use rust_proxy.Anytls.StringMap.{StringMap, same_text, insert, get, from_bytes, to_bytes, parse_u8}
use rust_proxy.Anytls.Session.Wire.{Sender, Padding, Sent, write_frame}

-- The channel to a stream: whether its receiver is there, and the messages.
pub record Mailbox : Type 0 where
  pub live : Bool
  pub queue : List (List ℕ)

-- `tx.send(data).await`; an error is only traced.
unfoldable pub send : List ℕ → Mailbox → Mailbox
send bytes m = if m.live then record m { queue = m.queue ++ (bytes ∷ []) } else m

-- `HashMap<u32, Sender>`: at most one entry for a stream.
abbrev pub Streams : Type 0
Streams = List (ℕ × Mailbox)

unfoldable pub find : ℕ → Streams → Option Mailbox
find id [] = none
find id ((i, m) ∷ rest) = let found = find id rest in if i == id then some m else found

unfoldable pub remove : ℕ → Streams → Streams
remove id [] = []
remove id ((i, m) ∷ rest) =
    let others = remove id rest in if i == id then others else ((i, m) ∷ others)

unfoldable pub deliver : ℕ → List ℕ → Streams → Streams
deliver id bytes [] = []
deliver id bytes ((i, m) ∷ rest) =
    let others = deliver id bytes rest in
    if i == id then ((i, send bytes m) ∷ rest) else ((i, m) ∷ others)

-- A session; `started` are the streams whose tasks were spawned, and `ended` the mailboxes that a `Fin`
-- has taken out of the map.
pub record Session : Type 0 where
  pub streams : Streams
  pub started : List ℕ
  pub ended : Streams
  pub sender : Sender
  pub peer_version : ℕ
  pub received_client_settings : Bool
  pub is_closed : Bool

-- The factory of the padding scheme: its bytes, and the digest of them that `Md5` gives, as hexadecimal
-- digits; and `lossy`, which is `String::from_utf8_lossy`.
pub record Texts : Type 0 where
  pub md5 : List ℕ
  pub raw_scheme : List ℕ
  pub lossy : List ℕ → List ℕ

-- "client did not send its settings"
abbrev pub no_settings : List ℕ
no_settings =
    99 ∷ 108 ∷ 105 ∷ 101 ∷ 110 ∷ 116 ∷ 32 ∷ 100 ∷ 105 ∷ 100 ∷ 32 ∷ 110 ∷ 111 ∷ 116 ∷ 32 ∷ 115 ∷ 101
    ∷ 110 ∷ 100 ∷ 32 ∷ 105 ∷ 116 ∷ 115 ∷ 32 ∷ 115 ∷ 101 ∷ 116 ∷ 116 ∷ 105 ∷ 110 ∷ 103 ∷ 115 ∷ []

-- "padding-md5"
abbrev pub padding_md5 : List ℕ
padding_md5 = 112 ∷ 97 ∷ 100 ∷ 100 ∷ 105 ∷ 110 ∷ 103 ∷ 45 ∷ 109 ∷ 100 ∷ 53 ∷ []

-- "v"
abbrev pub v_key : List ℕ
v_key = 118 ∷ []

-- The settings that the server sends: "v" is "2".
abbrev pub server_version : List ℕ
server_version = to_bytes (insert v_key (50 ∷ []) [])

-- Whether the client has another padding scheme.
unfoldable pub other_md5 : Texts → StringMap → Bool
other_md5 texts m = elim (get padding_md5 m) [
  | none ↦ false
  | some client_md5 ↦ not (same_text client_md5 texts.md5)
]

unfoldable pub version : StringMap → Option ℕ
version m = elim (get v_key m) [ none ↦ none | some text ↦ parse_u8 text ]

abbrev pub Handled : Type 0
Handled = Result (Unit {0}) × Session

-- `close`: the streams go, and the closed flag stays set. The shutdown of the writer, where its lock is free,
-- is outside.
unfoldable pub close : Session → Session
close s = if s.is_closed then s else record s { is_closed = true; streams = []; started = [] }

abbrev put : Session → Sent → Handled
put s (r, k) = (r, record s { sender = k })

-- A control frame; `in_time` says that it is written before the time is over. The part that a
-- write which is cut off may have sent is outside: the sender is left as it was.
unfoldable pub write_control_frame : Padding → Bool → Frame → Session → Handled
write_control_frame p in_time f s =
    if in_time then put s (write_frame p f s.sender) else (err Error.timed_out, close s)

abbrev pub then_do : Handled → (Session → Handled) → Handled
then_do (ok _, s) f = f s
then_do (err e, s) f = (err e, s)
then_do (panic, s) f = (panic, s)

module _ (p : Padding) (texts : Texts) (in_time : Bool) where
  unfoldable pub handle_syn : ℕ → Session → Handled
  handle_syn id s =
      if not s.received_client_settings
      then then_do (write_control_frame p in_time (with_data alert 0 no_settings) s)
          (λ s'. (err Error.invalid_data, s'))
      else (elim (find id s.streams) [
        | some m ↦ (ok tt, s)
        | none ↦ (
          ok tt,
          record s {
            streams = (id, record { live = true; queue = [] }) ∷ s.streams;
            started = id ∷ s.started;
          },
        )
      ])

  unfoldable pub handle_fin : ℕ → Session → Session
  handle_fin id s = elim (find id s.streams) [
    | none ↦ s
    | some m ↦ record s { streams = remove id s.streams; ended = (id, send [] m) ∷ s.ended }
  ]

  -- The answer to a version of at least 2.
  unfoldable pub settle : Option ℕ → Session → Handled
  settle none s = (ok tt, s)
  settle (some v) s =
      if leb 2 v
      then write_control_frame p in_time (with_data server_settings 0 server_version)
          (record s { peer_version = v })
      else (ok tt, s)

  unfoldable pub handle_settings : List ℕ → Session → Handled
  handle_settings bytes s =
      let s' = record s { received_client_settings = true } in
      let m = from_bytes texts.lossy bytes in
      let first =
        if other_md5 texts m
        then write_control_frame p in_time (with_data update_padding_scheme 0 texts.raw_scheme) s'
        else (ok tt, s') in
      then_do first (settle (version m))

  unfoldable pub handle_command : Command → ℕ → List ℕ → Session → Handled
  handle_command psh id bytes s =
      (ok tt, if length bytes == 0 then s else record s { streams = deliver id bytes s.streams })
  handle_command syn id bytes s = handle_syn id s
  handle_command fin id bytes s = (ok tt, handle_fin id s)
  handle_command waste id bytes s = (ok tt, s)
  handle_command settings id bytes s = handle_settings bytes s
  handle_command heart_request id bytes s =
      write_control_frame p in_time (control heart_response id) s
  handle_command alert id bytes s = (err Error.other, s)
  handle_command syn_ack id bytes s = (ok tt, s)
  handle_command server_settings id bytes s = (ok tt, s)
  handle_command update_padding_scheme id bytes s = (ok tt, s)
  handle_command heart_response id bytes s = (ok tt, s)

  abbrev pub handle_frame : Frame → Session → Handled
  handle_frame f s = handle_command f.cmd f.stream_id f.payload s

-- `send_synack`
unfoldable pub send_synack : Padding → Bool → ℕ → Option (List ℕ) → Session → Handled
send_synack p in_time id error s =
    if ltb s.peer_version 2 then (ok tt, s) else write_control_frame p in_time (answer error) s
  where
    answer : Option (List ℕ) → Frame
    answer (some text) = with_data syn_ack id text
    answer none = control syn_ack id

-- One message of `process_outgoing`: an empty one is the end of the stream.
unfoldable pub outgoing : Padding → ℕ → List ℕ → Session → Handled
outgoing p id bytes s =
    if length bytes == 0
    then (ok tt, finished (put s (write_frame p (control fin id) s.sender)))
    else put s (write_frame p (data_frame id bytes) s.sender)
  where
    finished : Handled → Session
    finished (r, s') = record s' { streams = remove id s'.streams }

-- `process_outgoing`: the messages up to the end of the channel, a closed session or a failed write of data.
unfoldable pub process_outgoing : Padding → List (ℕ × List ℕ) → Session → Session
process_outgoing p [] s = s
process_outgoing p ((id, bytes) ∷ rest) s =
    let (r, s') = if s.is_closed then (err Error.other, s) else outgoing p id bytes s in
    elim r [ ok _ ↦ process_outgoing p rest s' | err e ↦ s' | panic ↦ s' ]
