-- ===== src/Protocol/Endpoint/Recovery.antt =====
-- shared/protocol/protocol_endpoint.cpp: the passive recovery, by a HELLO that finds the endpoint
-- disconnected.
use espview.Base.{ℕ, suc, ◌≡◌, Bool, false, List}
use espview.Base.Word.{u64}
use espview.Protocol.Message.{Message}
use espview.Protocol.Endpoint.{SessionState, no_hello, Session, Endpoint, Setup, on_session}
use espview.Protocol.Endpoint.Handlers.{hello_info, note_hello, recover}

-- The session is the same but for its counters, and what waits to be acknowledged or sent.
record Similar (s s' : Session) : Type 0 where
  pub state : s'.state ≡ s.state
  pub epoch : s'.epoch ≡ s.epoch
  pub failed : s'.failed ≡ s.failed
  pub peer_hello : s'.peer_hello ≡ s.peer_hello

-- A session that has begun, in a state.
pub record Begun (epoch : ℕ) (state : SessionState) (s : Session) : Type 0 where
  pub same_state : s.state ≡ state
  pub next_epoch : s.epoch ≡ u64 (suc epoch)
  pub alive : s.failed ≡ false
  pub forgotten : s.peer_hello ≡ no_hello

module _ {ℓ} {S : Type ℓ} (p : Setup S) (now : ℕ) where
  -- Whether the endpoint's own HELLO went out.
  abbrev pub answered : List ℕ → Endpoint S → Bool
  answered payload e = (recover p now (on_session (note_hello (hello_info payload)) e)).0
