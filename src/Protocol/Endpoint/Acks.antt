-- ===== src/Protocol/Endpoint/Acks.antt =====
-- shared/protocol/protocol_endpoint.cpp: the request that waits for its acknowledgement. `retry` has the
-- `retrySeq` and `retryEpoch` of a retry.
use espview.Base.{
  ℕ, suc, ◌+◌, Bool, not, ◌&&◌, Option, none, some, bit_and, ◌==◌, ◌!=◌, if◌then◌else◌,
}
use espview.Base.Word.{u64}
use espview.Protocol.Wire.{flag_ack_req}
use espview.Protocol.Message.{Message}
use espview.Protocol.Endpoint.{SendResult, PendingAck, Session, is_disconnected, is_sent}

abbrev pub wants_ack : Message → Bool
wants_ack msg = bit_and msg.flags flag_ack_req != 0

abbrev pub same_slot : ℕ → ℕ → PendingAck → Bool
same_slot seq epoch p = p.epoch == epoch && p.seq == seq

-- A retry is counted in the slot that it belongs to.
unfoldable pub renew : (timeout now first_seq seq epoch : ℕ) → Option PendingAck → Session → Session
renew timeout now first_seq seq epoch none s = s
renew timeout now first_seq seq epoch (some p) s =
    if same_slot seq epoch p
    then record s {
      pending_ack = some (record p {
        seq = first_seq;
        deadline_ms = u64 (now + timeout);
        attempts = suc p.attempts;
      });
      stats = record s.stats { ack_retries = suc s.stats.ack_retries };
    }
    else s

unfoldable pub register :
    (timeout now : ℕ) → Message → Option (ℕ × ℕ) → Option ℕ → Session → Session
unfolding renew
register timeout now msg retry none s = s
register timeout now msg (some (seq, epoch)) (some first_seq) s =
    if wants_ack msg then renew timeout now first_seq seq epoch s.pending_ack s else s
register timeout now msg none (some first_seq) s =
    if wants_ack msg && not (is_disconnected s.state)
    then record s {
      pending_ack = some (record {
        seq = first_seq;
        epoch = s.epoch;
        message = msg;
        attempts = 1;
        deadline_ms = u64 (now + timeout);
      });
    }
    else s

unfoldable pub after_send :
    (timeout now : ℕ) → Message → Option (ℕ × ℕ) → SendResult → Option ℕ → Session → Session
unfolding register
after_send timeout now msg retry r first_seq s =
    if is_sent r
    then register timeout now msg retry first_seq
        (record s { stats = record s.stats { tx_messages = suc s.stats.tx_messages } })
    else s
