-- ===== src/Protocol/Endpoint/Totality.antt =====
-- shared/protocol/protocol_endpoint.cpp: what an endpoint that is fed some bytes returns.
use mathlib.Core.Option
use espview.Base.{
  ℕ, zero, suc, ◌++◌, ◌<◌, ◌≡◌, refl, sym, ap, arith, Bool, true, false, List, [], ◌∷◌, Option,
  some, if_then, length, drop-append_le, length-append,
}
use mathlib.Core.Path.{subst}
use espview.Protocol.Decoder
use espview.Protocol.Decoder.{StreamDecoder, Core, State, Turn, pending, turn, turns, consume}
use espview.Protocol.Decoder.Reassembly.{Event, received, packet, failed}
use espview.Protocol.Decoder.Turns.{IsReadyAt, measure}
use espview.Protocol.Decoder.Run.{
  IsValid, consume_lem, turn_at-Progress, turn_at-Waits, rank_bound, appended-IsReadyAt,
}
use espview.Protocol.Endpoint.{Endpoint, Setup}
use espview.Protocol.Endpoint.Receiving.{
  on_decoder_event, on_decoder_events, take_turn, process, feed, before_feed, on_transport_data,
}
use espview.Protocol.Endpoint.Kept.{handle_message_lem}
use espview.Protocol.Endpoint.Feeding.{Same, Feeding, kept}

pub same_ready :
    (s : State) (bytes : List ℕ) (c c' : Core)
    → c'.candidate ≡ c.candidate
    → IsReadyAt s bytes c
    → IsReadyAt s bytes c'
same_ready State.sync bytes c c' e r = tt
same_ready State.header bytes c c' e r = tt
same_ready State.payload bytes c c' e r = tt
same_ready State.verify bytes c c' e r = rw e r

unread_equal : (d x : StreamDecoder) (b : Bool) → Same d x b → pending x ≡ pending d
unread_equal d x b v = rw (v.start, v.buf) refl

Same-IsValid : (d x : StreamDecoder) (b : Bool) → Same d x b → IsValid d → IsValid x
Same-IsValid d x b s v = record {
  start = rw (s.start, s.buf) v.start;
  ready = rw (unread_equal d x b s) (
      subst (λ (k : State). IsReadyAt k (pending d) x.core) (sym s.state)
        (same_ready d.core.state (pending d) d.core x.core s.candidate v.ready));
}

module _ {ℓ} {S : Type ℓ} (p : Setup S) (now : ℕ) where
  on_decoder_event-Feeding :
      (d : StreamDecoder) (ev : Event) (e : Endpoint S)
      → Feeding d e
      → Feeding d (on_decoder_event p now ev e)
  unfolding on_decoder_event Feeding
  on_decoder_event-Feeding d (received msg) e v =
      handle_message_lem p now (Feeding d) (kept p now d) msg e v
  on_decoder_event-Feeding d (packet h body) e v = v
  on_decoder_event-Feeding d (failed err) e v = v

  on_decoder_events-Feeding :
      (d : StreamDecoder) (evs : List Event) (e : Endpoint S)
      → Feeding d e
      → Feeding d (on_decoder_events p now evs e)
  unfolding on_decoder_events
  on_decoder_events-Feeding d [] e v = v
  on_decoder_events-Feeding d (ev ∷ evs) e v =
      on_decoder_events-Feeding d evs (on_decoder_event p now ev e)
        (on_decoder_event-Feeding d ev e v)

  -- The decoder after a turn, before its callbacks.
  turned : Endpoint S → StreamDecoder
  turned e =
      consume (turn (pending e.decoder) e.decoder.core).consumed
        (record e.decoder { core = (turn (pending e.decoder) e.decoder.core).core })

  take_turn-Feeding :
      (e : Endpoint S) → e.in_decoder_callback ≡ true → Feeding (turned e) (take_turn p now e)
  unfolding take_turn Feeding turned
  take_turn-Feeding e h =
      on_decoder_events-Feeding (turned e) (turn (pending e.decoder) e.decoder.core).events
        (record e { decoder = turned e })
        (record { buf = refl; start = refl; state = refl; candidate = refl; callback = h })

  -- The endpoint that a call returned, its decoder in order.
  pub record Returns (o : Option (Endpoint S)) : Type ℓ where
    pub endpoint : Endpoint S
    pub returns : o ≡ some endpoint
    pub valid : IsValid endpoint.decoder

  -- A turn's endpoint, and the measure there.
  record Turned (e : Endpoint S) (bytes : List ℕ) (c : Core) : Type 0 where
    pub valid : IsValid e.decoder
    pub inside : e.in_decoder_callback ≡ true
    pub less : measure (pending e.decoder) e.decoder.core ≡ measure bytes c

  turned_lem :
      (e : Endpoint S) (d : StreamDecoder) → Feeding d e → IsValid d → Turned e (pending d) d.core
  unfolding Feeding
  turned_lem e d s v = record {
    valid = Same-IsValid d e.decoder e.in_decoder_callback s v;
    inside = s.callback;
    less = rw (unread_equal d e.decoder e.in_decoder_callback s, s.state) refl;
  }

  process-Returns :
      (fuel : ℕ) (e : Endpoint S)
      → measure (pending e.decoder) e.decoder.core < fuel
      → IsValid e.decoder
      → e.in_decoder_callback ≡ true
      → Returns (process p now fuel e)
  unfolding process turned
  process-Returns zero e f v h = absurd (omega arith)
  process-Returns (suc fuel) e f v h =
      let t : Turn = turn (pending e.decoder) e.decoder.core in
      let d : StreamDecoder = record e.decoder { core = t.core } in
      if_then Returns t.again
        (λ g.
          let q =
            turn_at-Progress e.decoder.core.state (pending e.decoder) e.decoder.core v.ready g in
          let k = consume_lem t.consumed d v.start q.within in
          let valid : IsValid (consume t.consumed d) = record {
            start = k.start;
            ready = rw (k.left, k.core) q.ready;
          } in
          let n =
            turned_lem (take_turn p now e) (consume t.consumed d) (take_turn-Feeding e h) valid in
          process-Returns fuel (take_turn p now e)
            (rw (n.less, k.left, k.core) (omega (arith, q.less))) n.valid n.inside)
        (λ g.
          let w = turn_at-Waits e.decoder.core.state (pending e.decoder) e.decoder.core refl g in
          let k = consume_lem t.consumed d v.start w.within in
          let valid : IsValid (consume t.consumed d) = record {
            start = k.start;
            ready = rw (k.left, k.core) w.ready;
          } in
          let n =
            turned_lem (take_turn p now e) (consume t.consumed d) (take_turn-Feeding e h) valid in
          record { endpoint = take_turn p now e; returns = refl; valid = n.valid })

  feed-Returns :
      (bytes : List ℕ) (e : Endpoint S)
      → IsValid e.decoder
      → e.in_decoder_callback ≡ true
      → Returns (feed p now bytes e)
  unfolding feed
  feed-Returns [] e v h = record { endpoint = e; returns = refl; valid = v }
  feed-Returns (b ∷ bytes) e v h =
      let d : StreamDecoder = record e.decoder { buf = e.decoder.buf ++ (b ∷ bytes) } in
      let same : pending d ≡ pending e.decoder ++ (b ∷ bytes) =
        drop-append_le e.decoder.start e.decoder.buf (b ∷ bytes) v.start in
      process-Returns (turns (length (pending d))) (record e { decoder = d })
        (omega (arith, rank_bound e.decoder.core.state))
        (record {
          start = omega (arith, v.start, length-append e.decoder.buf (b ∷ bytes));
          ready = rw same (
              appended-IsReadyAt e.decoder.core.state (pending e.decoder) (b ∷ bytes) e.decoder.core
                v.ready);
        })
        h

  before_feed-IsValid :
      (bytes : List ℕ) (e : Endpoint S)
      → IsValid e.decoder
      → IsValid (before_feed p now bytes e).decoder
  unfolding before_feed Decoder.reset
  before_feed-IsValid bytes e v =
      if_then (λ (e : Endpoint S). IsValid e.decoder) e.decoder_reset_pending
        (λ h. record { start = omega arith; ready = tt }) (λ h. v)

  before_feed_callback :
      (bytes : List ℕ) (e : Endpoint S) → (before_feed p now bytes e).in_decoder_callback ≡ true
  unfolding before_feed
  before_feed_callback bytes e = refl

  fed-Returns :
      (o : Option (Endpoint S))
      → Returns o
      → Returns (Option.map (λ (e : Endpoint S). record e { in_decoder_callback = false }) o)
  fed-Returns o f = record {
    endpoint = record f.endpoint { in_decoder_callback = false };
    returns =
        ap (Option.map (λ (e : Endpoint S). record e { in_decoder_callback = false })) f.returns;
    valid = f.valid;
  }

  -- The fuel is enough: an endpoint whose decoder is in order takes any bytes and returns, its decoder in
  -- order again.
  pub on_transport_data-Returns :
      (bytes : List ℕ) (e : Endpoint S)
      → IsValid e.decoder
      → Returns (on_transport_data p now bytes e)
  unfolding on_transport_data
  on_transport_data-Returns bytes e v = fed-Returns (feed p now bytes (before_feed p now bytes e)) (
      feed-Returns bytes (before_feed p now bytes e) (before_feed-IsValid bytes e v)
        (before_feed_callback bytes e))
