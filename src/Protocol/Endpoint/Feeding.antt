-- ===== src/Protocol/Endpoint/Feeding.antt =====
-- shared/protocol/protocol_endpoint.cpp: what the callbacks of the decoder touch of it.

use espview.Base.{
  ℕ, suc, ◌≡◌, sym, ap, ◌∙◌, Bool, true, false, not, ◌&&◌, ◌!=◌, ◌==◌, List, Option, none, some,
  if_then, ltb, length,
}
use mathlib.Core.Bool.{false≢true}
use espview.Protocol.Message.{Message}
use espview.Protocol.Message.Builders.{make_pong}
use espview.Protocol.Decoder
use espview.Protocol.Decoder.{StreamDecoder, Core, State}
use espview.Protocol.Endpoint.{
  SessionError, Endpoint, Setup, count, is_sent, is_shaking, is_disconnected,
}
use espview.Protocol.Endpoint.Sending.{try_transmit, built_hello}
use espview.Protocol.Endpoint.Generations.{fail_session, complete_handshake, set_state}
use espview.Protocol.Endpoint.Handlers.{
  handle_pong, handle_ack, handle_ping, recover, answer_hello, matches, read_u16, read_u64,
}
use espview.Protocol.Endpoint.Kept.{Kept}
use espview.Protocol.Endpoint.Invariant.Sending.{try_transmit-decoder}

-- The decoder is the one that is given, but for the expected sequence number; and it is in a callback.
pub record Same (d x : StreamDecoder) (inside : Bool) : Type 0 where
  pub buf : x.buf ≡ d.buf
  pub start : x.start ≡ d.start
  pub state : x.core.state ≡ d.core.state
  pub candidate : x.core.candidate ≡ d.core.candidate
  pub callback : inside ≡ true

unfoldable pub Feeding {ℓ} : {S : Type ℓ} → StreamDecoder → Endpoint S → Type 0
Feeding d e = Same d e.decoder e.in_decoder_callback

module _ {ℓ} {S : Type ℓ} (d : StreamDecoder) where
  fail_session-Feeding :
      (err : SessionError) (e : Endpoint S) → Feeding d e → Feeding d (fail_session err e)
  unfolding fail_session Feeding
  fail_session-Feeding err e v =
      let P : Endpoint S → Type 0 = λ e. Same d e.decoder e.in_decoder_callback in
      let put_off =
        if_then P e.in_decoder_callback (λ b. v) (λ b. absurd (false≢true (sym b ∙ v.callback))) in
      if_then P e.session.failed (λ h. v)
        (λ h. if_then P (not (is_disconnected e.session.state)) (λ t. put_off) (λ t. put_off))

  complete_handshake-Feeding :
      (now : ℕ) (e : Endpoint S) → Feeding d e → Feeding d (complete_handshake now e)
  unfolding complete_handshake set_state Feeding Decoder.reset_seq_baseline
  complete_handshake-Feeding now e v =
      if_then (λ (e : Endpoint S). Same d e.decoder e.in_decoder_callback)
        (is_shaking e.session.state)
        (λ h. record {
          buf = v.buf;
          start = v.start;
          state = v.state;
          candidate = v.candidate;
          callback = v.callback;
        })
        (λ h. v)

  handle_pong-Feeding : (now : ℕ) (e : Endpoint S) → Feeding d e → Feeding d (handle_pong now e)
  unfolding Feeding handle_pong
  handle_pong-Feeding now e v =
      if_then (Feeding d)
        (e.session.last_ping_sent_at_ms != 0 && e.session.last_ping_epoch == e.session.epoch)
        (λ h. v) (λ h. v)

  handle_ack-Feeding :
      (payload : List ℕ) (e : Endpoint S) → Feeding d e → Feeding d (handle_ack payload e)
  unfolding Feeding handle_ack
  handle_ack-Feeding payload e v =
      if_then (Feeding d) (ltb (length payload) 5) (λ h. v)
        (λ h.
          if_then (Feeding d) (matches (read_u16 payload 0) e.session.epoch e.session.pending_ack)
            (λ m. v) (λ m. v))

module _ {ℓ} {S : Type ℓ} (p : Setup S) (now : ℕ) (d : StreamDecoder) where
  sent-Feeding :
      (msg : Message) (connected : Bool) (retry : Option (ℕ × ℕ)) (check : Option ℕ)
      (e : Endpoint S)
      → Feeding d e
      → Feeding d (try_transmit p now msg connected retry check e).1
  unfolding Feeding
  sent-Feeding msg connected retry check e v =
      let (same, inside) = try_transmit-decoder p now msg connected retry check e in
      record {
        buf = ap (λ (x : StreamDecoder). x.buf) same ∙ v.buf;
        start = ap (λ (x : StreamDecoder). x.start) same ∙ v.start;
        state = ap (λ (x : StreamDecoder). x.core.state) same ∙ v.state;
        candidate = ap (λ (x : StreamDecoder). x.core.candidate) same ∙ v.candidate;
        callback = inside ∙ v.callback;
      }

  handle_ping-Feeding :
      (payload : List ℕ) (e : Endpoint S) → Feeding d e → Feeding d (handle_ping p now payload e)
  unfolding Feeding handle_ping
  handle_ping-Feeding payload e v =
      let e' = count (λ s. record s { rx_ping = suc s.rx_ping }) e in
      let sent = sent-Feeding (make_pong (read_u64 payload 0)) true none none e' v in
      if_then (Feeding d)
        (is_sent (try_transmit p now (make_pong (read_u64 payload 0)) true none none e').0)
        (λ h. sent) (λ h. sent)

  answer_hello-Feeding :
      (hello : Option Message) (e : Endpoint S)
      → Feeding d e
      → Feeding d (answer_hello p now hello e).1
  unfolding Feeding answer_hello
  answer_hello-Feeding none e v = v
  answer_hello-Feeding (some hello) e v =
      let sent = sent-Feeding hello false none none e v in
      if_then (Feeding d) (is_sent (try_transmit p now hello false none none e).0) (λ h. sent)
        (λ h. sent)

  recover-Feeding : (e : Endpoint S) → Feeding d e → Feeding d (recover p now e).1
  unfolding Feeding recover set_state Decoder.reset_seq_baseline
  recover-Feeding e v = answer_hello-Feeding (built_hello p now) _ (record {
    buf = v.buf;
    start = v.start;
    state = v.state;
    candidate = v.candidate;
    callback = v.callback;
  })

  pub kept : Kept S p now (Feeding d)
  unfolding Feeding
  kept = record {
    call = λ c e v. v;
    on_frames = λ f e v. v;
    count = λ f e v. v;
    heard = λ e v. v;
    noted = λ hello e v. v;
    failed = fail_session-Feeding d;
    completed = complete_handshake-Feeding d now;
    recovered = recover-Feeding;
    ping = handle_ping-Feeding;
    pong = handle_pong-Feeding d now;
    ack = handle_ack-Feeding d;
  }
