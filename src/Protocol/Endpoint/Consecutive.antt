-- ===== src/Protocol/Endpoint/Consecutive.antt =====
-- shared/protocol/protocol_endpoint.cpp, `transmitImplWithSink` and `rollbackSeq`: the sequence
-- numbers of a transmission.
use mathlib.Core.Path.{subst}
use mathlib.Core.Bool.{false≢true}
use espview.Base.{
  ℕ, ◌+◌, ◌≡◌, refl, sym, ◌∙◌, arith, Bool, false, not, List, ◌++◌, append-nil, Option, none, some,
  HasValue, value_of, ◌!=◌, if_then, some_then,
}
use espview.Base.Word.{u16}
use espview.Protocol.Packet.{PacketError}
use espview.Protocol.Message.{Message}
use espview.Protocol.Encoder.{Sent}
use espview.Protocol.Encoder.Total.{streamed}
use espview.Protocol.Encoder.Emitting.{IsReady}
use espview.Protocol.Endpoint.{SendStatus, Endpoint}
use espview.Protocol.Endpoint.Sending.{
  Sending, Transmitted, is_ok, start, sent, rollback_seq, refusal, encode_to,
  transmit_impl_with_sink,
}
use espview.Protocol.Endpoint.Acks.{wants_ack}
use espview.Protocol.Endpoint.Sequence.{count_from, noting, Tracks, After, Done, encode_stream-Done}

no_error : (e : PacketError) → not (is_ok e) ≡ false → e ≡ PacketError.ok
no_error PacketError.ok h = refl
no_error e h = absurd (false≢true (sym h))

-- What a transmission over a transport that notes the numbers has done: some packets, of the numbers in
-- a row from the endpoint's on, were accepted, and the endpoint goes on behind them.
pub record Consecutive {ℓ} {S : Type ℓ} (e f : Endpoint (S × List ℕ)) : Type 0 where
  pub accepted : ℕ
  pub noted : f.link.1 ≡ e.link.1 ++ count_from e.encoder.seq accepted
  pub next : f.encoder.seq ≡ u16 (e.encoder.seq + accepted)
  pub ready : IsReady f.encoder

module _ {ℓ} {S : Type ℓ} where
  nothing_sent : (e : Endpoint (S × List ℕ)) → IsReady e.encoder → Consecutive e e
  unfolding count_from
  nothing_sent e r = record {
    accepted = 0;
    noted = sym (append-nil e.link.1);
    next = omega (arith, r.seq);
    ready = r;
  }

  rollback_seq-Consecutive :
      (x : Sent (Sending (S × List ℕ))) (e : Endpoint (S × List ℕ))
      → After e.encoder.seq e.link.1 x
      → Consecutive e (
          rollback_seq e.session.epoch e.encoder.seq x.sink_state.sent_count
            (record e { encoder = x.encoder; link = x.sink_state.link }))
  unfolding rollback_seq Tracks
  rollback_seq-Consecutive x e a =
      let same : (e.session.epoch != e.session.epoch) ≡ false = ground arith in
      if_then (Consecutive e) (e.session.epoch != e.session.epoch)
        (λ h. absurd (false≢true (sym same ∙ h)))
        (λ h. record {
          accepted = x.sink_state.sent_count;
          noted = a.noted;
          next = refl;
          ready = record { seq = omega arith; room = a.ready.room };
        })

  sent-Consecutive :
      (x : Sent (Sending (S × List ℕ))) (e : Endpoint (S × List ℕ))
      → After e.encoder.seq e.link.1 x
      → Consecutive e (sent e.session.epoch e.encoder.seq x e).2
  unfolding sent Tracks
  sent-Consecutive x e a =
      let P : Transmitted (S × List ℕ) → Type 0 = λ t. Consecutive e t.2 in
      let back = rollback_seq-Consecutive x e a in
      if_then P x.sink_state.aborted (λ h. back)
        (λ h.
          if_then P (not (is_ok x.error)) (λ g. back)
            (λ g. record {
              accepted = x.sink_state.sent_count;
              noted = a.noted;
              next = a.next (no_error x.error g);
              ready = a.ready;
            }))

  Done-Consecutive :
      (o : Option (Sent (Sending (S × List ℕ)))) (h : HasValue o) (e : Endpoint (S × List ℕ))
      → Done e.encoder.seq e.link.1 o
      → Consecutive e (sent e.session.epoch e.encoder.seq (value_of o h) e).2
  unfolding value_of
  Done-Consecutive none h e d = absurd h
  Done-Consecutive (some x) h e d =
      let same : d.result ≡ x = cc in
      sent-Consecutive x e (subst (After e.encoder.seq e.link.1) same d.after)

  -- Of a message, over a transport that notes the sequence number of every packet that it accepts, whatever
  -- it answers and whatever becomes of the message: the numbers noted follow on each other, from
  -- the endpoint's number on, and the endpoint's number is then the one behind the last.
  pub transmit_impl_with_sink-Consecutive :
      (msg : Message) (connected : Bool) (sink : S → List ℕ → SendStatus × S) (check : Option ℕ)
      (e : Endpoint (S × List ℕ))
      → IsReady e.encoder
      → Consecutive e (transmit_impl_with_sink msg connected (some (noting sink)) check e).2
  unfolding transmit_impl_with_sink encode_to streamed
  transmit_impl_with_sink-Consecutive msg connected sink check e r =
      some_then (λ (t : Transmitted (S × List ℕ)). Consecutive e t.2)
        (refusal msg connected (some (noting sink)) check e.session)
        (λ h. Done-Consecutive _ _ e (
          encode_stream-Done e.encoder.seq e.link.1 (wants_ack msg) sink msg e.encoder
            (start e.link) r refl (unfold Tracks in unfold count_from in sym (append-nil e.link.1))
            (omega (arith, r.seq))))
        (λ err h. nothing_sent e r)
