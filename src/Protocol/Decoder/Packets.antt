-- ===== src/Protocol/Decoder/Packets.antt =====
-- shared/protocol/decoder.cpp: a packet that was encoded, in front of the decoder, and the turns
-- that take it.
use espview.Base.{
  ℕ, suc, ◌+◌, ◌≤◌, ◌≡◌, refl, sym, ap, ◌∙◌, arith, true, List, [], ◌∷◌, ◌++◌, Option, some, length,
  take, drop, length-append, drop-drop, take-at, drop-at, append-nil,
}
use espview.Base.Bytes.{IsBytes}
use espview.Protocol.Wire.{protocol_magic}
use espview.Protocol.Packet.{
  PacketHeader, PacketError, packet_header_size, header_bytes, check_header, header_fields,
  decode_header, verify_packet_crc,
}
use espview.Protocol.Packet.Header.{
  IsHeader, length-header_bytes, check_header-header_bytes, header_fields-header_bytes,
}
use espview.Protocol.Packet.RoundTrip.{
  sealed, payload_of_sealed, sealed-IsHeader, decode_header-ok, verify_packet_crc-sealed,
}
use espview.Protocol.Decoder.{
  State, Core, to_state, Turn, turn, turn_at, sync_turn, header_turn, verify_turn, verified_turn,
  body_of,
}
use espview.Protocol.Decoder.Reassembly.{Event, Assembly}
use espview.Protocol.Decoder.Scan.{ScanResult, found, scan, magic0, magic_rest}
use espview.Protocol.Decoder.Scan.Cases.{scan-whole}
use espview.Protocol.Decoder.Turns.{header_on, payload_on}
use espview.Protocol.Decoder.Run.{Run, go}

-- The members between two packets.
abbrev pub between : ℕ → PacketHeader → Assembly → ℕ → Core
between max_payload candidate assembly seq = record {
  state = State.sync;
  candidate = candidate;
  assembly = assembly;
  expected_seq = seq;
  max_payload = max_payload;
}

scan_word : (f : ℕ) (more : List ℕ) → scan (suc f) (magic0 ∷ (magic_rest ++ more)) 0 ≡ found 0
scan_word f more = scan-whole f magic0 (magic_rest ++ more) 0 refl refl

header_word :
    (h : PacketHeader) (more : List ℕ)
    → h.magic ≡ protocol_magic
    → header_bytes h ++ more ≡ magic0 ∷ (magic_rest ++ drop 4 (header_bytes h ++ more))
unfolding header_bytes
header_word h more e = rw e refl

scan_magic :
    (f : ℕ) (h : PacketHeader) (more : List ℕ)
    → h.magic ≡ protocol_magic
    → scan (suc f) (header_bytes h ++ more) 0 ≡ found 0
scan_magic f h more e =
    ap (λ (bytes : List ℕ). scan (suc f) bytes 0) (header_word h more e)
    ∙ scan_word f (drop 4 (header_bytes h ++ more))

-- A turn whose outcome is known.
turn_go :
    {bytes : List ℕ} {c : Core} (t : Turn) {left : List ℕ} {c' : Core} {events : List Event}
    → turn bytes c ≡ t
    → t.again ≡ true
    → Run (drop t.consumed bytes) t.core left c' events
    → Run bytes c left c' (t.events ++ events)
turn_go t {events = events} e g r =
    go {rest = events} (rw e g) (rw e r) (ap (λ (t : Turn). t.events ++ events) (sym e))

-- The members when the packet is there and its CRC is to be checked.
abbrev pub arrived : PacketHeader → List ℕ → Core → Core
arrived h payload c = record c { state = State.verify; candidate = sealed h payload }

module _ (h : PacketHeader) (payload rest : List ℕ) (v : IsHeader h) (b : IsBytes payload)
    (size : h.length ≡ length payload) where
  abbrev wire : List ℕ
  wire = header_bytes (sealed h payload) ++ (payload ++ rest)

  length-wire : packet_header_size + h.length ≤ length wire
  length-wire = omega (
    arith,
    size,
    length-append (header_bytes (sealed h payload)) (payload ++ rest),
    length-header_bytes (sealed h payload),
    length-append payload rest,
  )

  sync_step : (c : Core) → turn_at State.sync wire c ≡ to_state State.header c
  unfolding turn_at sync_turn
  sync_step c =
      ap (λ (r : ScanResult). sync_turn r c)
        (scan_magic (length wire) (sealed h payload) (payload ++ rest) v.magic)

  head_of_wire : take packet_header_size wire ≡ header_bytes (sealed h payload)
  head_of_wire =
      take-at packet_header_size (header_bytes (sealed h payload)) (payload ++ rest)
        (sym (length-header_bytes (sealed h payload)))

  decode_head :
      (candidate : PacketHeader)
      → decode_header (some (take packet_header_size wire)) (some candidate)
        ≡ (PacketError.ok, some (sealed h payload))
  decode_head candidate =
      let valid = sealed-IsHeader h payload v b in
      let accepted = check_header-header_bytes (sealed h payload) [] valid in
      let fields = header_fields-header_bytes (sealed h payload) [] valid in
      let bare = append-nil (header_bytes (sealed h payload)) in
      rw head_of_wire (
        decode_header-ok (header_bytes (sealed h payload)) candidate
          (ap check_header (sym bare) ∙ accepted)
        ∙ ap (λ (g : PacketHeader). (PacketError.ok, some g))
            (ap header_fields (sym bare) ∙ fields))

  header_step :
      (c : Core)
      → turn_at State.header wire c
        ≡ to_state State.payload (record c { candidate = sealed h payload })
  unfolding header_turn
  header_step c =
      header_on wire c (omega (arith, length-wire))
      ∙ ap (λ (r : PacketError × Option PacketHeader). header_turn r c) (decode_head c.candidate)

  wire_body : body_of (sealed h payload) wire ≡ payload
  wire_body = payload_of_sealed h payload rest size

  wire_rest : drop (packet_header_size + h.length) wire ≡ rest
  wire_rest = rw (← drop-drop packet_header_size h.length wire) (
      ap (drop h.length) (
        drop-at packet_header_size (header_bytes (sealed h payload)) (payload ++ rest)
          (sym (length-header_bytes (sealed h payload))))
      ∙ drop-at h.length payload rest size)

  verify_step :
      (c : Core)
      → turn_at State.verify wire (arrived h payload c)
        ≡ verified_turn PacketError.ok payload (arrived h payload c)
  unfolding turn_at verify_turn
  verify_step c =
      ap
        (λ (body : List ℕ).
          verified_turn (verify_packet_crc (sealed h payload) body) body (arrived h payload c))
        wire_body
      ∙ ap (λ (e : PacketError). verified_turn e payload (arrived h payload c))
          (verify_packet_crc-sealed h payload size)

  -- The four turns that take the packet.
  pub packet_Run :
      (c : Core) (t : Turn) {left : List ℕ} {c' : Core} {events : List Event}
      → c.state ≡ State.sync
      → verified_turn PacketError.ok payload (arrived h payload c) ≡ t
      → t.again ≡ true
      → t.consumed ≡ packet_header_size + h.length
      → Run rest t.core left c' events
      → Run wire c left c' (t.events ++ events)
  packet_Run c t {left = left} {c' = c'} {events = events} s e g n r =
      turn_go (to_state State.header c) (ap (λ (st : State). turn_at st wire c) s ∙ sync_step c)
        refl
        (turn_go (to_state State.payload (record c { candidate = sealed h payload }))
          (header_step (record c { state = State.header })) refl
          (turn_go (to_state State.verify (record c { candidate = sealed h payload }))
            (payload_on wire (record c { state = State.payload; candidate = sealed h payload })
              length-wire)
            refl (turn_go t (verify_step c ∙ e) g (rw (n, wire_rest) r))))
