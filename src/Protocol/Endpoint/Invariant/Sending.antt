-- ===== src/Protocol/Endpoint/Invariant/Sending.antt =====
-- shared/protocol/protocol_endpoint.cpp: sending against the invariant of the session.
use espview.Base.{
  ℕ, ◌+◌, ◌≡◌, refl, sym, ap, Bool, not, ◌!=◌, List, Option, none, some, if◌then◌else◌, if_then,
  some_then,
}
use mathlib.Core.Path.{subst}
use espview.Base.Word.{u16}
use espview.Protocol.Message.{Message}
use espview.Protocol.Encoder.{Sent}
use espview.Protocol.Endpoint.{SendStatus, SendResult, Session, Endpoint, Setup}
use espview.Protocol.Endpoint.Acks.{after_send}
use espview.Protocol.Endpoint.Sending.{
  Sending, Transmitted, sent, rollback_seq, refusal, encode_to, transmit_impl_with_sink, transmit,
  try_transmit, is_ok, done, is_null,
}
use espview.Protocol.Endpoint.Invariant.{IsValid, Retryable, after_send-IsValid}

module _ {ℓ} {S : Type ℓ} where
  -- Nothing but the encoder and the transport changes while `sendMutex_` is held.
  abbrev OnlySends : Endpoint S → Endpoint S → Type ℓ
  OnlySends e f = f ≡ record e { encoder = f.encoder; link = f.link }

  abbrev Keeps : Endpoint S → Transmitted S → Type ℓ
  Keeps e t = OnlySends e t.2

  rollback_seq-OnlySends :
      (epoch seq n : ℕ) (e f : Endpoint S)
      → OnlySends e f
      → OnlySends e (rollback_seq epoch seq n f)
  unfolding rollback_seq
  rollback_seq-OnlySends epoch seq n e f k =
      if_then (OnlySends e) (f.session.epoch != epoch) (λ h. k)
        (λ h.
          ap (λ (f : Endpoint S). record f { encoder = record f.encoder { seq = u16 (seq + n) } })
            k)

  sent_result :
      (epoch seq : ℕ) (r : Sent (Sending S)) (e : Endpoint S) → Keeps e (sent epoch seq r e)
  unfolding sent
  sent_result epoch seq r e =
      let back =
        rollback_seq-OnlySends epoch seq r.sink_state.sent_count e
          (record e { encoder = r.encoder; link = r.sink_state.link }) refl in
      if_then (Keeps e) r.sink_state.aborted (λ h. back)
        (λ h. if_then (Keeps e) (not (is_ok r.error)) (λ h. back) (λ h. refl))

  encode_to-Keeps :
      (msg : Message) (sink : Option (S → List ℕ → SendStatus × S)) (e : Endpoint S)
      → Keeps e (encode_to msg sink e)
  unfolding encode_to
  encode_to-Keeps msg none e = refl
  encode_to-Keeps msg (some sink) e = sent_result _ _ _ e

  transmit_impl_with_sink-Keeps :
      (msg : Message) (connected : Bool) (sink : Option (S → List ℕ → SendStatus × S))
      (check : Option ℕ) (e : Endpoint S)
      → Keeps e (transmit_impl_with_sink msg connected sink check e)
  unfolding transmit_impl_with_sink
  transmit_impl_with_sink-Keeps msg connected sink check e =
      some_then (Keeps e) (refusal msg connected sink check e.session)
        (λ h. encode_to-Keeps msg sink e) (λ r h. refl)

module _ {ℓ} {S : Type ℓ} (p : Setup S) (now : ℕ) where
  abbrev retries : ℕ
  retries = p.config.ack_max_retries

  -- What `afterSend` establishes, whatever the result, is so after the transmission.
  done-Keeps :
      (Q : Session → Type 0) (msg : Message) (retry : Option (ℕ × ℕ)) (t : Transmitted S)
      (e : Endpoint S)
      → Keeps e t
      → ((r : SendResult) (first : Option ℕ)
          → Q (after_send p.config.ack_timeout_ms now msg retry r first e.session))
      → Q (done p.config.ack_timeout_ms now msg retry t).1.session
  done-Keeps Q msg retry (r, first, f) e k h =
      subst (λ (s : Session). Q (after_send p.config.ack_timeout_ms now msg retry r first s))
        (ap (λ (e : Endpoint S). e.session) (sym k)) (h r first)

  pub try_transmit-session :
      (Q : Session → Type 0) (msg : Message) (connected : Bool) (retry : Option (ℕ × ℕ))
      (check : Option ℕ) (e : Endpoint S)
      → ((r : SendResult) (first : Option ℕ)
          → Q (after_send p.config.ack_timeout_ms now msg retry r first e.session))
      → Q e.session
      → Q (try_transmit p now msg connected retry check e).1.session
  unfolding try_transmit
  try_transmit-session Q msg connected retry check e h v =
      let e' = record e { link = (p.try_lock e.link).1 } in
      let sink = if is_null p.try_sink then p.sink else p.try_sink in
      if_then (λ (t : SendResult × Endpoint S). Q t.1.session) (p.try_lock e.link).0
        (λ b.
          done-Keeps Q msg retry (transmit_impl_with_sink msg connected sink check e') e'
            (transmit_impl_with_sink-Keeps msg connected sink check e') h)
        (λ b. v)

  pub transmit-IsValid :
      (msg : Message) (connected : Bool) (e : Endpoint S)
      → IsValid retries e.session
      → IsValid retries (transmit p now msg connected e).1.session
  unfolding transmit
  transmit-IsValid msg connected e v =
      done-Keeps (IsValid retries) msg none (transmit_impl_with_sink msg connected p.sink none e) e
        (transmit_impl_with_sink-Keeps msg connected p.sink none e)
        (λ r first.
          after_send-IsValid retries p.config.ack_timeout_ms now msg none r first e.session tt v)

  pub try_transmit-IsValid :
      (msg : Message) (connected : Bool) (retry : Option (ℕ × ℕ)) (check : Option ℕ)
      (e : Endpoint S)
      → Retryable retries retry e.session.pending_ack
      → IsValid retries e.session
      → IsValid retries (try_transmit p now msg connected retry check e).1.session
  try_transmit-IsValid msg connected retry check e h v =
      try_transmit-session (IsValid retries) msg connected retry check e
        (λ r first.
          after_send-IsValid retries p.config.ack_timeout_ms now msg retry r first e.session h v)
        v

  -- A message that is sent leaves the decoder as it is, and whether it is in a callback.
  pub try_transmit-decoder :
      (msg : Message) (connected : Bool) (retry : Option (ℕ × ℕ)) (check : Option ℕ)
      (e : Endpoint S)
      → let f = (try_transmit p now msg connected retry check e).1 in
        (f.decoder ≡ e.decoder) × (f.in_decoder_callback ≡ e.in_decoder_callback)
  unfolding try_transmit
  try_transmit-decoder msg connected retry check e =
      let e' = record e { link = (p.try_lock e.link).1 } in
      let sink = if is_null p.try_sink then p.sink else p.try_sink in
      let k = transmit_impl_with_sink-Keeps msg connected sink check e' in
      if_then
        (λ (t : SendResult × Endpoint S).
          (t.1.decoder ≡ e.decoder) × (t.1.in_decoder_callback ≡ e.in_decoder_callback))
        (p.try_lock e.link).0
        (λ b.
          (ap (λ (e : Endpoint S). e.decoder) k, ap (λ (e : Endpoint S). e.in_decoder_callback) k))
        (λ b. (refl, refl))

  pub transmit-decoder :
      (msg : Message) (connected : Bool) (e : Endpoint S)
      → (transmit p now msg connected e).1.decoder ≡ e.decoder
  unfolding transmit
  transmit-decoder msg connected e =
      ap (λ (e : Endpoint S). e.decoder) (transmit_impl_with_sink-Keeps msg connected p.sink none e)
