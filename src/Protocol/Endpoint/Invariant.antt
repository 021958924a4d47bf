-- ===== src/Protocol/Endpoint/Invariant.antt =====
-- shared/protocol/protocol_endpoint.cpp: what holds of a session between the calls.
pub mod Sending
pub mod Handlers
pub mod Runs
pub mod Calls
use espview.Base.{
  ℕ, zero, suc, ◌+◌, ◌<◌, ◌≤◌, ◌≡◌, refl, arith, Bool, true, false, not, ◌&&◌, Option, none, some,
  ◌==◌, if◌then◌else◌, if_then,
}
use espview.Protocol.Message.{Message}
use espview.Protocol.Endpoint.{
  EndpointConfig, Setup, SessionState, SendResult, PendingAck, Session, Endpoint, is_disconnected,
  is_sent,
}
use espview.Protocol.Endpoint.Acks.{wants_ack, same_slot, renew, register, after_send}

abbrev pub is_handshake : SessionState → Bool
is_handshake SessionState.handshake = true
is_handshake _ = false

-- A request that waits belongs to the session that is there, and was sent once or more, but no more often
-- than the retries allow.
pub record Waiting (retries epoch : ℕ) (state : SessionState) (a : PendingAck) : Type 0 where
  pub current : a.epoch ≡ epoch
  pub alive : is_disconnected state ≡ false
  pub sent : 0 < a.attempts
  pub few : a.attempts ≤ 1 + retries
  pub request : wants_ack a.message ≡ true

abbrev pub AllWaiting : (retries epoch : ℕ) → SessionState → Option PendingAck → Type 0
AllWaiting retries epoch state none = Unit
AllWaiting retries epoch state (some a) = Waiting retries epoch state a

pub record Valid (retries epoch : ℕ) (state : SessionState) (failed : Bool)
    (ack : Option PendingAck) : Type 0 where
  pub waiting : AllWaiting retries epoch state ack
  pub no_handshake : is_handshake state ≡ false
  pub dead : failed ≡ true → is_disconnected state ≡ true

-- The invariant of a session: the request that waits, if there is one, is `Waiting`; the state is not
-- `kHandshake`; and a session that failed is disconnected.
abbrev pub IsValid : ℕ → Session → Type 0
IsValid retries s = Valid retries s.epoch s.state s.failed s.pending_ack

-- The invariant of an endpoint is that of its session.
pub Holds {ℓ} : {S : Type ℓ} → ℕ → Endpoint S → Type 0
Holds retries e = IsValid retries e.session

abbrev pub retries_of {ℓ} : {S : Type ℓ} → Setup S → ℕ
retries_of p = p.config.ack_max_retries

-- The slot that a retry belongs to may be sent once more.
abbrev pub Retryable : (retries : ℕ) → Option (ℕ × ℕ) → Option PendingAck → Type 0
Retryable retries none ack = Unit
Retryable retries (some (seq, epoch)) none = Unit
Retryable retries (some (seq, epoch)) (some a) = a.attempts < 1 + retries

pub no_request :
    {retries epoch : ℕ} {state : SessionState} {failed : Bool} {ack : Option PendingAck}
    → Valid retries epoch state failed ack
    → Valid retries epoch state failed none
no_request v = record { waiting = tt; no_handshake = v.no_handshake; dead = v.dead }

module _ (retries timeout now : ℕ) where
  renew-IsValid :
      (first seq epoch : ℕ) (ack : Option PendingAck) (s : Session)
      → Valid retries s.epoch s.state s.failed ack
      → IsValid retries s
      → Retryable retries (some (seq, epoch)) ack
      → IsValid retries (renew timeout now first seq epoch ack s)
  unfolding renew
  renew-IsValid first seq epoch none s w v r = v
  renew-IsValid first seq epoch (some a) s w v r =
      if_then (IsValid retries) (same_slot seq epoch a)
        (λ e. record {
          waiting = record {
            current = w.waiting.current;
            alive = w.waiting.alive;
            sent = omega arith;
            few = omega arith;
            request = w.waiting.request;
          };
          no_handshake = v.no_handshake;
          dead = v.dead;
        })
        (λ e. v)

  register-IsValid :
      (msg : Message) (retry : Option (ℕ × ℕ)) (first : Option ℕ) (s : Session)
      → Retryable retries retry s.pending_ack
      → IsValid retries s
      → IsValid retries (register timeout now msg retry first s)
  unfolding register
  register-IsValid msg retry none s r v = v
  register-IsValid msg (some (seq, epoch)) (some first) s r v =
      if_then (IsValid retries) (wants_ack msg)
        (λ e. renew-IsValid first seq epoch s.pending_ack s v v r) (λ e. v)
  register-IsValid msg none (some first) s r v =
      if_then (IsValid retries) (wants_ack msg && not (is_disconnected s.state))
        (λ e. record {
          waiting = record {
            current = refl;
            alive = ground arith;
            sent = omega arith;
            few = omega arith;
            request = ground arith;
          };
          no_handshake = v.no_handshake;
          dead = v.dead;
        })
        (λ e. v)

  pub after_send-IsValid :
      (msg : Message) (retry : Option (ℕ × ℕ)) (r : SendResult) (first : Option ℕ) (s : Session)
      → Retryable retries retry s.pending_ack
      → IsValid retries s
      → IsValid retries (after_send timeout now msg retry r first s)
  unfolding after_send
  after_send-IsValid msg retry r first s h v =
      if_then (IsValid retries) (is_sent r) (λ e. register-IsValid msg retry first _ h v) (λ e. v)
