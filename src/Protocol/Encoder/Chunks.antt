-- ===== src/Protocol/Encoder/Chunks.antt =====
-- shared/protocol/encoder.cpp: the reference for the encoder, how a payload falls into chunks, and
-- the packets of the chunks.
use espview.Base.{
  bit_and, bit_or, ℕ, ◌+◌, ◌-◌, ◌≤◌, ◌<◌, ◌≡◌, sym, ap, ◌∙◌, arith, Bool, true, false, List, [],
  ◌∷◌, ◌++◌, length, length-append, append-nil, ◌*◌,
}
use espview.Base.Word.{u16}
use espview.Protocol.Wire.{max_packet_payload, flag_chunked, not_flag_chunked}
use espview.Protocol.Packet.{PacketHeader, make_header, header_bytes}
use espview.Protocol.Packet.RoundTrip.{sealed}
use espview.Protocol.Message.{Message}

-- Full chunks, then one that is not empty unless the payload is.
pub data Chunks : List ℕ → List (List ℕ) → Type 0 where
  last : (payload : List ℕ) → length payload ≤ max_packet_payload → Chunks payload (payload ∷ [])
  more :
      {payload : List ℕ} (chunk rest : List ℕ) {chunks : List (List ℕ)}
      → payload ≡ chunk ++ rest
      → length chunk ≡ max_packet_payload
      → 0 < length rest
      → Chunks rest chunks
      → Chunks payload (chunk ∷ chunks)

abbrev pub is_empty {ℓ} : {A : Type ℓ} → List A → Bool
is_empty [] = true
is_empty (x ∷ xs) = false

abbrev pub concat : List (List ℕ) → List ℕ
concat [] = []
concat (xs ∷ xss) = xs ++ concat xss

-- The bytes of a packet on the wire.
unfoldable pub packet_bytes : PacketHeader → List ℕ → List ℕ
packet_bytes h payload = header_bytes (sealed h payload) ++ payload

-- The flags of a packet: those of the message, with CHUNKED on all but the last.
abbrev pub marked : ℕ → Bool → ℕ
marked flags true = bit_and flags not_flag_chunked
marked flags false = bit_or (bit_and flags not_flag_chunked) flag_chunked

abbrev pub chunk_header : Message → ℕ → Bool → List ℕ → PacketHeader
chunk_header msg seq final chunk = make_header msg.type (marked msg.flags final) seq (length chunk)

-- The packets of the chunks: the sequence number goes up by one, and only the last is not CHUNKED.
unfoldable pub packets : Message → ℕ → List (List ℕ) → List (List ℕ)
packets msg seq [] = []
packets msg seq (chunk ∷ chunks) =
    packet_bytes (chunk_header msg seq (is_empty chunks) chunk) chunk
    ∷ packets msg (u16 (seq + 1)) chunks

-- The chunks are the payload, in order.
pub concat-Chunks :
    {payload : List ℕ} {chunks : List (List ℕ)} → Chunks payload chunks → concat chunks ≡ payload
concat-Chunks (last payload small) = append-nil payload
concat-Chunks (more chunk rest e full some_left cs) =
    ap (λ ws. chunk ++ ws) (concat-Chunks cs) ∙ sym e

-- There are as many as the payload needs: all but the last are full.
pub length-Chunks :
    {payload : List ℕ} {chunks : List (List ℕ)}
    → Chunks payload chunks
    → (length payload ≤ max_packet_payload * length chunks)
      × (max_packet_payload * (length chunks - 1) ≤ length payload)
length-Chunks (last payload small) = omega arith
length-Chunks (more chunk rest {chunks} e full some_left cs) =
    omega (arith, ap length e, length-append chunk rest, length-Chunks cs)
