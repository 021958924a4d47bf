-- ===== src/Protocol/Message.antt =====
-- shared/protocol/message.h and message.cpp: the logical message and the writers of its payload.
pub mod Builders
pub mod Capabilities
pub mod Preview
pub mod Wifi
mod Tests
use espview.Base.{ℕ, List, Bool, ◌||◌, ◌==◌}
use espview.Protocol.MessageType

pub record Message : Type 0 where
  pub type : ℕ
  pub flags : ℕ
  pub payload : List ℕ

abbrev pub make_message : ℕ → ℕ → List ℕ → Message
make_message type flags payload = record { type = type; flags = flags; payload = payload }

-- The only messages that may ask for an acknowledgement.
unfoldable pub allowed_ack_request_type : ℕ → Bool
allowed_ack_request_type type =
    type == MessageType.set_mode
    || type == MessageType.wifi_scan_req
    || type == MessageType.wifi_config
