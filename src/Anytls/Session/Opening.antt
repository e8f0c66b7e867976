-- ===== src/Anytls/Session/Opening.antt =====
-- src/anytls/session.rs, handle_frame: a session that handles a frame without an error stays open.
use rust_proxy.Prelude.{
  ℕ, ◌≡◌, inl, inr, Bool, true, not, Option, none, some, List, leb, ◌==◌, Option-cases, length, ok,
  err, panic, if-cases,
}
use rust_proxy.Anytls.Types.{
  Command, waste, syn, psh, fin, settings, alert, update_padding_scheme, syn_ack, heart_request,
  heart_response, server_settings, Frame,
}
use rust_proxy.Anytls.Session.Wire.{Padding, Sent, write_frame}
use rust_proxy.Anytls.Session.Receive.{
  Session, Texts, Handled, handle_frame, handle_command, handle_syn, handle_fin, handle_settings,
  settle, write_control_frame, then_do, find, other_md5,
}

-- Behind a frame that is handled without an error, the session is as open as before.
abbrev pub Stays : Bool → Handled → Type 0
Stays c (ok _, s) = s.is_closed ≡ c
Stays c (err e, s) = Unit
Stays c (panic, s) = Unit

pub put-Stays :
    (c : Bool) (s : Session) (k : Sent) → s.is_closed ≡ c → Stays c (k.0, record s { sender = k.1 })
put-Stays c s (ok _, k) h = h
put-Stays c s (err e, k) h = tt
put-Stays c s (panic, k) h = tt

module _ (p : Padding) (texts : Texts) (in_time : Bool) (c : Bool) where
  pub write_control_frame-Stays :
      (f : Frame) (s : Session) → s.is_closed ≡ c → Stays c (write_control_frame p in_time f s)
  unfolding write_control_frame
  write_control_frame-Stays f s h =
      if-cases (Stays c) in_time _ _ (λ _. put-Stays c s (write_frame p f s.sender) h) (λ _. tt)

  pub then_do-Stays :
      (h : Handled) (f : Session → Handled)
      → Stays c h
      → ((s : Session) → s.is_closed ≡ c → Stays c (f s))
      → Stays c (then_do h f)
  then_do-Stays (ok _, s) f k g = g s k
  then_do-Stays (err e, s) f k g = tt
  then_do-Stays (panic, s) f k g = tt

  pub handle_syn-Stays :
      (id : ℕ) (s : Session) → s.is_closed ≡ c → Stays c (handle_syn p texts in_time id s)
  unfolding handle_syn
  handle_syn-Stays id s h =
      if-cases (Stays c) (not s.received_client_settings) _ _
        (λ _. then_do-Stays _ (λ s'. (err _, s')) (write_control_frame-Stays _ s h) (λ s' q. tt))
        (λ _. elim (Option-cases (find id s.streams)) [ inl e ↦ rw e h | inr (m, e) ↦ rw e h ])

  pub handle_fin-Stays :
      (id : ℕ) (s : Session) → s.is_closed ≡ c → (handle_fin p texts in_time id s).is_closed ≡ c
  unfolding handle_fin
  handle_fin-Stays id s h = elim (Option-cases (find id s.streams)) [
    | inl e ↦ rw (e, handle_fin) h
    | inr (m, e) ↦ rw (e, handle_fin) h
  ]

  pub settle-Stays :
      (o : Option ℕ) (s : Session) → s.is_closed ≡ c → Stays c (settle p texts in_time o s)
  unfolding settle
  settle-Stays none s h = h
  settle-Stays (some v) s h =
      if-cases (Stays c) (leb 2 v) _ _
        (λ _. write_control_frame-Stays _ (record s { peer_version = v }) h) (λ _. h)

  pub handle_settings-Stays :
      (bytes : List ℕ) (s : Session)
      → s.is_closed ≡ c
      → Stays c (handle_settings p texts in_time bytes s)
  unfolding handle_settings
  handle_settings-Stays bytes s h =
      let s' = record s { received_client_settings = true } in
      then_do-Stays _ (settle p texts in_time _)
        (if-cases (Stays c) (other_md5 texts _) _ _ (λ _. write_control_frame-Stays _ s' h)
          (λ _. h))
        (settle-Stays _)

  pub handle_frame-Stays :
      (f : Frame) (s : Session) → s.is_closed ≡ c → Stays c (handle_frame p texts in_time f s)
  handle_frame-Stays f s h = stays f.cmd
    where
      stays : (cmd : Command) → Stays c (handle_command p texts in_time cmd f.stream_id f.payload s)
      stays psh =
          unfold handle_command in
          if-cases (λ (s' : Session). s'.is_closed ≡ c) (length f.payload == 0) _ _ (λ _. h)
            (λ _. h)
      stays syn = unfold handle_command in handle_syn-Stays f.stream_id s h
      stays fin = unfold handle_command in handle_fin-Stays f.stream_id s h
      stays waste = unfold handle_command in h
      stays settings = unfold handle_command in handle_settings-Stays f.payload s h
      stays heart_request = unfold handle_command in write_control_frame-Stays _ s h
      stays alert = unfold handle_command in tt
      stays syn_ack = unfold handle_command in h
      stays server_settings = unfold handle_command in h
      stays update_padding_scheme = unfold handle_command in h
      stays heart_response = unfold handle_command in h
