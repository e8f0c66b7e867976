-- ===== src/Anytls/Session/Streams.antt =====
-- src/anytls/session.rs, handle_frame: the streams of a session.
use rust_proxy.Prelude.{
  ℕ, ◌≡◌, refl, sym, ◌∙◌, ◌≢◌, inl, inr, Bool, true, false, not, Option, none, some, List, [], ◌∷◌,
  arith, leb, ◌==◌, if◌then◌else◌, Bool-cases, Option-cases, length, All, ok, err, panic, if-cases,
}
use rust_proxy.Anytls.Types.{
  Command, waste, syn, psh, fin, settings, alert, update_padding_scheme, syn_ack, heart_request,
  heart_response, server_settings, Frame, control, with_data,
}
use rust_proxy.Anytls.StringMap.{from_bytes}
use rust_proxy.Anytls.Session.Wire.{Sender, Padding, Sent, write_frame}
use rust_proxy.Anytls.Session.Writes.{SizeOk}
use rust_proxy.Anytls.Session.Padded.{write_frame-FrameOut}
use rust_proxy.Anytls.Session.Receive.{
  no_settings, server_version, version, other_md5, Mailbox, send, Streams, find, remove, deliver,
  Session, Texts, Handled, close, write_control_frame, then_do, handle_syn, handle_fin, settle,
  handle_settings, handle_command, handle_frame,
}

-- Each stream has one entry.
abbrev pub Unique : Streams → Type 0
Unique [] = Unit
Unique ((i, m) ∷ rest) = (find i rest ≡ none) × Unique rest

find-cons_eq :
    (i j : ℕ) (m : Mailbox) (rest : Streams) → (i == j) ≡ true → find j ((i, m) ∷ rest) ≡ some m
unfolding find
find-cons_eq i j m rest e = rw e

find-cons_ne :
    (i j : ℕ) (m : Mailbox) (rest : Streams)
    → (i == j) ≡ false
    → find j ((i, m) ∷ rest) ≡ find j rest
unfolding find
find-cons_ne i j m rest e = rw e

-- What a mailbox is after a message for the stream `id`, where it is that of the stream `j`.
abbrev pub receives : ℕ → ℕ → List ℕ → Option Mailbox → Option Mailbox
receives id j bytes none = none
receives id j bytes (some m) = some (if id == j then send bytes m else m)

receives-other :
    (id j : ℕ) (bytes : List ℕ) (o : Option Mailbox) → (id == j) ≡ false → receives id j bytes o ≡ o
receives-other id j bytes none e = refl
receives-other id j bytes (some m) e = rw e

-- Data for a stream goes to the mailbox of that stream, and changes no other.
pub find-deliver :
    (id j : ℕ) (bytes : List ℕ) (ss : Streams)
    → find j (deliver id bytes ss) ≡ receives id j bytes (find j ss)
unfolding find deliver
find-deliver id j bytes [] = refl
find-deliver id j bytes ((i, m) ∷ rest) = elim (Bool-cases (i == id)) [
  | inl e ↦ elim (Bool-cases (i == j)) [
    | inl f ↦ let g : (id == j) ≡ true = ground arith in rw (e, f, g) refl
    | inr f ↦
        let g : (id == j) ≡ false = ground arith in
        rw (e, f) (sym (receives-other id j bytes (find j rest) g))
  ]
  | inr e ↦ elim (Bool-cases (i == j)) [
    | inl f ↦ let g : (id == j) ≡ false = ground arith in rw (e, f, g) refl
    | inr f ↦ rw (e, f) (find-deliver id j bytes rest)
  ]
]

receives-none :
    (id j : ℕ) (bytes : List ℕ) (o : Option Mailbox) → o ≡ none → receives id j bytes o ≡ none
receives-none id j bytes o e = rw e

Unique-deliver : (id : ℕ) (bytes : List ℕ) (ss : Streams) → Unique ss → Unique (deliver id bytes ss)
unfolding deliver
Unique-deliver id bytes [] u = tt
Unique-deliver id bytes ((i, m) ∷ rest) u = elim (Bool-cases (i == id)) [
  | inl e ↦ rw e u
  | inr e ↦
      let f = find-deliver id i bytes rest ∙ receives-none id i bytes _ u.0 in
      let v = Unique-deliver id bytes rest u.1 in rw e (f, v)
]

-- What is left of the map without a stream.
find-remove :
    (id j : ℕ) (ss : Streams) → find j (remove id ss) ≡ (if id == j then none else find j ss)
unfolding find remove
find-remove id j [] = elim (Bool-cases (id == j)) [ inl e ↦ rw e | inr e ↦ rw e ]
find-remove id j ((i, m) ∷ rest) = elim (Bool-cases (i == id)) [
  | inl e ↦ elim (Bool-cases (id == j)) [
    | inl f ↦ rw (e, f) (find-remove id j rest ∙ rw f refl)
    | inr f ↦
        let g : (i == j) ≡ false = ground arith in rw (e, f, g) (find-remove id j rest ∙ rw f refl)
  ]
  | inr e ↦ elim (Bool-cases (i == j)) [
    | inl f ↦ let g : (id == j) ≡ false = ground arith in rw (e, f, g) refl
    | inr f ↦ rw (e, f) (find-remove id j rest)
  ]
]

Unique-remove : (id : ℕ) (ss : Streams) → Unique ss → Unique (remove id ss)
unfolding remove
Unique-remove id [] u = tt
Unique-remove id ((i, m) ∷ rest) u = elim (Bool-cases (i == id)) [
  | inl e ↦ let v = Unique-remove id rest u.1 in rw e v
  | inr e ↦
      let v = Unique-remove id rest u.1 in
      let f : find i (remove id rest) ≡ none =
        find-remove id i rest ∙ if-cases (λ o. o ≡ none) (id == i) _ _ (λ _. refl) (λ _. u.0) in
      rw e (f, v)
]

-- A session serves no stream before it has the client's settings, nor when it is closed, and each stream
-- once.
pub record IsValid (s : Session) : Type 0 where
  pub unique : Unique s.streams
  pub settled : s.received_client_settings ≡ false → s.streams ≡ []
  pub gone : s.is_closed ≡ true → s.streams ≡ []

-- A step keeps a session valid.
abbrev pub Keeps : Handled → Type 0
Keeps (r, s) = IsValid s × (r ≢ panic)

pub close-IsValid : (s : Session) → IsValid s → IsValid (close s)
unfolding close
close-IsValid s v =
    if-cases IsValid s.is_closed _ _ (λ _. v)
      (λ _. record { unique = tt; settled = λ _. refl; gone = λ _. refl })

put-Keeps :
    (s : Session) (k : Sent) → IsValid s → k.0 ≢ panic → Keeps (k.0, record s { sender = k.1 })
put-Keeps s k v c = (record { unique = v.unique; settled = v.settled; gone = v.gone }, c)

module _ (p : Padding) (texts : Texts) (in_time : Bool)
    (calm : (f : Frame) (s : Sender) → (write_frame p f s).0 ≢ panic) where
  write_control_frame-Keeps :
      (f : Frame) (s : Session) → IsValid s → Keeps (write_control_frame p in_time f s)
  unfolding write_control_frame
  write_control_frame-Keeps f s v =
      if-cases Keeps in_time _ _ (λ _. put-Keeps s (write_frame p f s.sender) v (calm f s.sender))
        (λ _. (close-IsValid s v, λ h. cc))

  then_do-Keeps :
      (h : Handled) (f : Session → Handled)
      → Keeps h
      → ((s : Session) → IsValid s → Keeps (f s))
      → Keeps (then_do h f)
  then_do-Keeps (ok _, s) f k g = g s k.0
  then_do-Keeps (err e, s) f k g = (k.0, λ h. cc)
  then_do-Keeps (panic, s) f k g = absurd (k.1 refl)

  handle_syn-Keeps :
      (id : ℕ) (s : Session)
      → IsValid s
      → s.is_closed ≡ false
      → Keeps (handle_syn p texts in_time id s)
  unfolding handle_syn
  handle_syn-Keeps id s v c =
      if-cases Keeps (not s.received_client_settings) _ _
        (λ _.
          then_do-Keeps _ (λ s'. (err _, s'))
            (write_control_frame-Keeps (with_data alert 0 no_settings) s v)
            (λ s' v'. (v', λ h. cc)))
        (λ q. opened (find id s.streams) refl (ground arith))
    where
      opened :
          (o : Option Mailbox)
          → find id s.streams ≡ o
          → s.received_client_settings ≡ true
          → Keeps (elim o [
            | some m ↦ (ok tt, s)
            | none ↦ (
              ok tt,
              record s {
                streams = (id, record { live = true; queue = [] }) ∷ s.streams;
                started = id ∷ s.started;
              },
            )
          ])
      opened (some m) e q = (v, λ h. cc)
      opened none e q =
          (record { unique = (e, v.unique); settled = λ h. cc; gone = λ h. cc }, λ h. cc)

  handle_fin-IsValid :
      (id : ℕ) (s : Session) → IsValid s → IsValid (handle_fin p texts in_time id s)
  unfolding handle_fin remove
  handle_fin-IsValid id s v = elim (Option-cases (find id s.streams)) [
    | inl e ↦ rw (e, handle_fin) v
    | inr (m, e) ↦
        rw (e, handle_fin)
          record {
            unique = Unique-remove id s.streams v.unique;
            settled = λ h. rw (v.settled h) refl;
            gone = λ h. rw (v.gone h) refl;
          }
  ]

  settle-Keeps : (o : Option ℕ) (s : Session) → IsValid s → Keeps (settle p texts in_time o s)
  unfolding settle
  settle-Keeps none s v = (v, λ h. cc)
  settle-Keeps (some n) s v =
      if-cases Keeps (leb 2 n) _ _
        (λ _.
          write_control_frame-Keeps (with_data server_settings 0 server_version)
            (record s { peer_version = n })
            (record { unique = v.unique; settled = v.settled; gone = v.gone }))
        (λ _. (v, λ h. cc))

  handle_settings-Keeps :
      (bytes : List ℕ) (s : Session) → IsValid s → Keeps (handle_settings p texts in_time bytes s)
  unfolding handle_settings
  handle_settings-Keeps bytes s v =
      let s' = record s { received_client_settings = true } in
      let v' : IsValid s' = record { unique = v.unique; settled = λ h. cc; gone = v.gone } in
      then_do-Keeps _ (settle p texts in_time (version (from_bytes texts.lossy bytes)))
        (if-cases Keeps (other_md5 texts (from_bytes texts.lossy bytes)) _ _
          (λ _.
            write_control_frame-Keeps (with_data update_padding_scheme 0 texts.raw_scheme) s' v')
          (λ _. (v', λ h. cc)))
        (settle-Keeps (version (from_bytes texts.lossy bytes)))

  psh-IsValid :
      (id : ℕ) (bytes : List ℕ) (s : Session)
      → IsValid s
      → IsValid (record s { streams = deliver id bytes s.streams })
  unfolding deliver
  psh-IsValid id bytes s v = record {
    unique = Unique-deliver id bytes s.streams v.unique;
    settled = λ h. rw (v.settled h) refl;
    gone = λ h. rw (v.gone h) refl;
  }

  command-Keeps :
      (f : Frame) (s : Session)
      → IsValid s
      → s.is_closed ≡ false
      → Keeps (handle_frame p texts in_time f s)
  command-Keeps f s v c = kept f.cmd
    where
      kept : (cmd : Command) → Keeps (handle_command p texts in_time cmd f.stream_id f.payload s)
      kept psh =
          unfold handle_command in
          (
            if-cases IsValid (length f.payload == 0) _ _ (λ _. v)
                (λ _. psh-IsValid f.stream_id f.payload s v),
            λ h. cc,
          )
      kept syn = unfold handle_command in handle_syn-Keeps f.stream_id s v c
      kept fin = unfold handle_command in (handle_fin-IsValid f.stream_id s v, λ h. cc)
      kept waste = unfold handle_command in (v, λ h. cc)
      kept settings = unfold handle_command in handle_settings-Keeps f.payload s v
      kept heart_request =
          unfold handle_command in
          write_control_frame-Keeps (control heart_response f.stream_id) s v
      kept alert = unfold handle_command in (v, λ h. cc)
      kept syn_ack = unfold handle_command in (v, λ h. cc)
      kept server_settings = unfold handle_command in (v, λ h. cc)
      kept update_padding_scheme = unfold handle_command in (v, λ h. cc)
      kept heart_response = unfold handle_command in (v, λ h. cc)

-- Each frame that an open session handles keeps it valid, whatever the connection answers: a stream has
-- one entry, none is served before the client's settings, and none where the session is closed
-- afterwards. Handling does not panic. The sizes that padding draws are those that a frame's header can
-- name, and the mark.
pub handle_frame-Keeps :
    (p : Padding) (texts : Texts) (in_time : Bool) (f : Frame) (s : Session)
    → ((pkt : ℕ) → All SizeOk (p.sizes pkt))
    → IsValid s
    → s.is_closed ≡ false
    → Keeps (handle_frame p texts in_time f s)
handle_frame-Keeps p texts in_time f s h v c =
    command-Keeps p texts in_time (λ f s. (write_frame-FrameOut p f s h).0) f s v c
