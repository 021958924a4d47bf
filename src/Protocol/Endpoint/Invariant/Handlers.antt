-- ===== src/Protocol/Endpoint/Invariant/Handlers.antt =====
-- shared/protocol/protocol_endpoint.cpp: the handlers of messages against the invariant of the
-- session.
use espview.Base.{
  ℕ, suc, ◌≡◌, refl, sym, ◌∙◌, true, false, not, ◌&&◌, ◌==◌, ◌!=◌, List, Option, none, some,
  if_then, ltb, length,
}
use mathlib.Core.Bool.{false≢true}
use espview.Base.Word.{u64}
use espview.Protocol.Message.{Message}
use espview.Protocol.Message.Builders.{make_pong}
use espview.Protocol.Endpoint.{
  SessionState, SessionError, Endpoint, Setup, is_disconnected, is_shaking, count, is_sent,
}
use espview.Protocol.Endpoint.Sending.{try_transmit, built_hello}
use espview.Protocol.Endpoint.Generations.{fail_session, complete_handshake, set_state}
use espview.Protocol.Endpoint.Handlers.{
  handle_pong, handle_ack, handle_ping, recover, answer_hello, handle_message, matches, read_u16,
  read_u64,
}
use espview.Protocol.Endpoint.Kept.{Kept, handle_message_lem}
use espview.Protocol.Endpoint.Invariant.{retries_of, Holds, Valid, no_request}
use espview.Protocol.Endpoint.Invariant.Sending.{try_transmit-IsValid}

shaking_alive : (s : SessionState) → is_shaking s ≡ true → is_disconnected s ≡ false
shaking_alive SessionState.disconnected h = absurd (false≢true h)
shaking_alive SessionState.connecting h = refl
shaking_alive SessionState.handshake h = refl
shaking_alive SessionState.connected h = refl

module _ {ℓ} {S : Type ℓ} (retries : ℕ) where
  pub fail_session-Holds :
      (err : SessionError) (e : Endpoint S) → Holds retries e → Holds retries (fail_session err e)
  unfolding Holds fail_session
  fail_session-Holds err e v =
      let ended : Valid retries (u64 (suc e.session.epoch)) SessionState.disconnected true none =
        record { waiting = tt; no_handshake = refl; dead = λ d. refl } in
      let reset = if_then (Holds retries) e.in_decoder_callback (λ b. ended) (λ b. ended) in
      if_then (Holds retries) e.session.failed (λ h. v)
        (λ h.
          if_then (Holds retries) (not (is_disconnected e.session.state)) (λ t. reset) (λ t. reset))

  pub complete_handshake-Holds :
      (now : ℕ) (e : Endpoint S) → Holds retries e → Holds retries (complete_handshake now e)
  unfolding Holds complete_handshake set_state
  complete_handshake-Holds now e v =
      if_then (Holds retries) (is_shaking e.session.state)
        (λ h. record {
          waiting = tt;
          no_handshake = refl;
          dead = λ d. absurd (false≢true (sym (shaking_alive e.session.state h) ∙ v.dead d));
        })
        (λ h. v)

  handle_pong-Holds :
      (now : ℕ) (e : Endpoint S) → Holds retries e → Holds retries (handle_pong now e)
  unfolding Holds handle_pong
  handle_pong-Holds now e v =
      if_then (Holds retries)
        (e.session.last_ping_sent_at_ms != 0 && e.session.last_ping_epoch == e.session.epoch)
        (λ h. v) (λ h. v)

  handle_ack-Holds :
      (payload : List ℕ) (e : Endpoint S) → Holds retries e → Holds retries (handle_ack payload e)
  unfolding Holds handle_ack
  handle_ack-Holds payload e v =
      if_then (Holds retries) (ltb (length payload) 5) (λ h. v)
        (λ h.
          if_then (Holds retries)
            (matches (read_u16 payload 0) e.session.epoch e.session.pending_ack) (λ m. no_request v)
            (λ m. v))

module _ {ℓ} {S : Type ℓ} (p : Setup S) (now : ℕ) where
  handle_ping-Holds :
      (payload : List ℕ) (e : Endpoint S)
      → Holds (retries_of p) e
      → Holds (retries_of p) (handle_ping p now payload e)
  unfolding Holds handle_ping
  handle_ping-Holds payload e v =
      let e' = count (λ s. record s { rx_ping = suc s.rx_ping }) e in
      let sent =
        try_transmit-IsValid p now (make_pong (read_u64 payload 0)) true none none e' tt v in
      if_then (Holds (retries_of p))
        (is_sent (try_transmit p now (make_pong (read_u64 payload 0)) true none none e').0)
        (λ h. sent) (λ h. sent)

  answer_hello-Holds :
      (hello : Option Message) (e : Endpoint S)
      → Holds (retries_of p) e
      → Holds (retries_of p) (answer_hello p now hello e).1
  unfolding Holds answer_hello
  answer_hello-Holds none e v = v
  answer_hello-Holds (some hello) e v =
      let sent = try_transmit-IsValid p now hello false none none e tt v in
      if_then (Holds (retries_of p)) (is_sent (try_transmit p now hello false none none e).0)
        (λ h. sent) (λ h. sent)

  recover-Holds : (e : Endpoint S) → Holds (retries_of p) (recover p now e).1
  unfolding Holds recover set_state
  recover-Holds e =
      answer_hello-Holds (built_hello p now) _
        (record { waiting = tt; no_handshake = refl; dead = λ d. absurd (false≢true d) })

  kept : Kept S p now (Holds (retries_of p))
  unfolding Holds
  kept =
      let r = retries_of p in
      record {
        call = λ c e v. v;
        on_frames = λ f e v. v;
        count = λ f e v. v;
        heard = λ e v. v;
        noted = λ hello e v. v;
        failed = fail_session-Holds r;
        completed = complete_handshake-Holds r now;
        recovered = λ e v. recover-Holds e;
        ping = handle_ping-Holds;
        pong = handle_pong-Holds r now;
        ack = handle_ack-Holds r;
      }

  pub handle_message-Holds :
      (msg : Message) (e : Endpoint S)
      → Holds (retries_of p) e
      → Holds (retries_of p) (handle_message p now msg e)
  handle_message-Holds = handle_message_lem p now (Holds (retries_of p)) kept
