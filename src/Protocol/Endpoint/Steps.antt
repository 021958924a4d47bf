-- ===== src/Protocol/Endpoint/Steps.antt =====
-- shared/protocol/protocol_endpoint.h: the calls of an endpoint, and runs of them.
use mathlib.Core.Option
use espview.Base.{ℕ, List, [], ◌∷◌, Option, some}
use espview.Protocol.Wire.{ErrorCode}
use espview.Protocol.Message.{Message}
use espview.Protocol.Message.Capabilities.{CapabilitiesInfo}
use espview.Protocol.Message.Preview.{PhysicalPreviewInfo}
use espview.Protocol.Message.Wifi.{WifiScanResultInfo, WifiStatusInfo}
use espview.Protocol.Endpoint.{Endpoint, Setup}
use espview.Protocol.Endpoint.Sending.{
  send_message, send_hello, acknowledge, send_error, send_physical_preview, send_wifi_scan_result,
  send_wifi_status, send_capabilities,
}
use espview.Protocol.Endpoint.Generations.{on_transport_connected, on_transport_disconnected}
use espview.Protocol.Endpoint.Receiving.{on_transport_data}
use espview.Protocol.Endpoint.Ticking.{tick}

pub data Input : Type 0 where
  transport_connected transport_disconnected ticked hello_sent : Input
  data_received : List ℕ → Input
  message_sent : Message → Input
  acknowledged : ℕ → ℕ → ErrorCode → Input
  error_sent : ErrorCode → List ℕ → Input
  capabilities_sent : CapabilitiesInfo → Input
  physical_preview_sent : PhysicalPreviewInfo → Option (List ℕ) → Input
  wifi_scan_result_sent : WifiScanResultInfo → Input
  wifi_status_sent : WifiStatusInfo → Input

module _ {ℓ} {S : Type ℓ} (p : Setup S) where
  -- A call at a reading of the clock; without a result only if the decoder's fuel were too little.
  unfoldable pub step : ℕ → Input → Endpoint S → Option (Endpoint S)
  step now transport_connected e = some (on_transport_connected p now e).1
  step now transport_disconnected e = some (on_transport_disconnected now e)
  step now ticked e = some (tick p now e)
  step now hello_sent e = some (send_hello p now e).1
  step now (data_received bytes) e = on_transport_data p now bytes e
  step now (message_sent msg) e = some (send_message p now msg e).1
  step now (acknowledged seq status code) e = some (acknowledge p now seq status code e).1
  step now (error_sent code text) e = some (send_error p now code text e).1
  step now (capabilities_sent caps) e = some (send_capabilities p now caps e).1
  step now (physical_preview_sent info pixels) e =
      some (send_physical_preview p now info pixels e).1
  step now (wifi_scan_result_sent result) e = some (send_wifi_scan_result p now result e).1
  step now (wifi_status_sent status) e = some (send_wifi_status p now status e).1

  unfoldable pub steps : List (ℕ × Input) → Endpoint S → Option (Endpoint S)
  steps [] e = some e
  steps ((now, input) ∷ inputs) e = Option.bind (step now input e) (steps inputs)
