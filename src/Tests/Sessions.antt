-- ===== src/Tests/Sessions.antt =====
-- src/anytls: the theorems at concrete inputs.
use rust_proxy.Prelude.{
  ℕ, ◌≡◌, refl, inl, inr, true, false, none, some, List, [], ◌∷◌, ◌++◌, arith, ok,
}
use rust_proxy.Anytls.Types.{
  settings, with_data, Frame, data_frame, to_u8, try_from, encode_into, decode,
}
use rust_proxy.Anytls.Types.Codec.{decode-encode_into, decode_sound, decode_partial}
use rust_proxy.Anytls.Stream.{AnyTlsStream, Mail, message, none_yet, hung_up, Slot, free, full}
use rust_proxy.Anytls.Stream as Stream
use rust_proxy.Anytls.Stream.Read as Read
use rust_proxy.Anytls.Stream.Write as Write
use rust_proxy.Anytls.StringMap.{
  get, insert, from_bytes, same_text, insert_line, insert_lines, lines, strip_return, split_once,
  parse_u8, parse_digits,
}
use rust_proxy.Anytls.Session.Wire.{Padding, Sender, good, write_frame}
use rust_proxy.Anytls.Session.Padded.{FrameOut, write_frame-FrameOut}
use rust_proxy.Anytls.Session.Receive.{version, Session, Texts, Streams, find, handle_frame}
use rust_proxy.Anytls.Session.Streams as Laws

abbrev hello : Frame
hello = data_frame 3 (104 ∷ 105 ∷ [])

decode-encode_into_example : decode (encode_into hello [] ++ (1 ∷ [])) ≡ ok (some hello, 1 ∷ [])
decode-encode_into_example = decode-encode_into hello (1 ∷ []) (omega arith) (omega arith)

decode_sound_example :
    2 ∷ 0 ∷ 0 ∷ 0 ∷ 3 ∷ 0 ∷ 1 ∷ 9 ∷ 1 ∷ [] ≡ encode_into (data_frame 3 (9 ∷ [])) [] ++ (1 ∷ [])
unfolding decode try_from
decode_sound_example =
    decode_sound (2 ∷ 0 ∷ 0 ∷ 0 ∷ 3 ∷ 0 ∷ 1 ∷ 9 ∷ 1 ∷ []) (data_frame 3 (9 ∷ [])) (1 ∷ [])
      (omega arith) refl

decode_partial_example :
    decode (2 ∷ 0 ∷ 0 ∷ 0 ∷ 3 ∷ 0 ∷ 1 ∷ []) ≡ ok (none, 2 ∷ 0 ∷ 0 ∷ 0 ∷ 3 ∷ 0 ∷ 1 ∷ [])
unfolding encode_into to_u8
decode_partial_example =
    decode_partial (data_frame 3 (9 ∷ [])) (2 ∷ 0 ∷ 0 ∷ 0 ∷ 3 ∷ 0 ∷ 1 ∷ []) 9 [] (omega arith) refl

abbrev stream : AnyTlsStream
stream = record {
  id = 3;
  read_buffer = 1 ∷ 2 ∷ 3 ∷ [];
  read_offset = 1;
  stream_closed = false;
  shutdown_in_progress = false;
  eof = false;
}

abbrev mail : List Mail
mail = message (4 ∷ 5 ∷ []) ∷ message [] ∷ []

poll_read-Reads_example : Read.Reads stream 1 mail (Stream.poll_read stream 1 mail)
poll_read-Reads_example =
    Read.poll_read-Reads stream 1 mail (record { inside = omega arith; ended = λ e. cc }) refl

abbrev some_calls : List Write.Call
some_calls =
    Write.write false 1 (2 ∷ [])
    ∷ Write.read 8 mail
    ∷ Write.shutdown false
    ∷ Write.shutdown false
    ∷ Write.dropped
    ∷ []

abbrev some_slots : List Slot
some_slots = free ∷ full ∷ free ∷ free ∷ []

calls-Sends_example :
    Write.Sends 3
      (Write.calls (Write.born 3 some_slots) some_calls).stream.stream_closed
      (Write.calls (Write.born 3 some_slots) some_calls).way.queue
      (Write.calls (Write.born 3 some_slots) some_calls).accepted
calls-Sends_example = Write.calls-Sends 3 some_slots some_calls

abbrev padding : Padding
padding = record { stop = 8; sizes = λ pkt. 30 ∷ 4294967295 ∷ 100 ∷ [] }

abbrev sender : Sender
sender = record {
  buffering = false;
  buffer = 1 ∷ [];
  send_padding = true;
  pkt_counter = 0;
  wire = record { replies = good ∷ []; sent = [] };
}

write_frame-FrameOut_example : FrameOut hello sender (write_frame padding hello sender)
write_frame-FrameOut_example =
    write_frame-FrameOut padding hello sender
      (λ pkt. (inl (omega arith), (inr refl, (inl (omega arith), tt))))

abbrev boxes : Streams
boxes = (3, record { live = true; queue = [] }) ∷ (5, record { live = true; queue = [] }) ∷ []

abbrev session : Session
session = record {
  streams = boxes;
  started = 3 ∷ 5 ∷ [];
  ended = [];
  sender = sender;
  peer_version = 2;
  received_client_settings = true;
  is_closed = false;
}

abbrev texts : Texts
texts = record { md5 = 97 ∷ []; raw_scheme = 115 ∷ []; lossy = λ bytes. bytes }

session-IsValid : Laws.IsValid session
session-IsValid = record {
  unique = unfold find in (refl, (refl, tt));
  settled = λ e. cc;
  gone = λ e. cc;
}

-- "v=2", a new line and "padding-md5=b"
abbrev client_settings : List ℕ
client_settings =
    118 ∷ 61 ∷ 50 ∷ 10 ∷ 112 ∷ 97 ∷ 100 ∷ 100 ∷ 105 ∷ 110 ∷ 103 ∷ 45 ∷ 109 ∷ 100 ∷ 53 ∷ 61 ∷ 98 ∷ []

handle_frame-Keeps_example :
    Laws.Keeps (handle_frame padding texts true (with_data settings 0 client_settings) session)
handle_frame-Keeps_example =
    Laws.handle_frame-Keeps padding texts true (with_data settings 0 client_settings) session
      (λ pkt. (inl (omega arith), (inr refl, (inl (omega arith), tt)))) session-IsValid refl

-- What the settings of a client say.
reads_version : version (from_bytes (λ bytes. bytes) client_settings) ≡ some 2
unfolding version get from_bytes insert insert_line insert_lines lines strip_return split_once
    same_text parse_u8 parse_digits
reads_version = refl
