-- ===== src/Protocol/Message/Wifi.antt =====
-- shared/protocol/message.h and message.cpp: the Wi-Fi messages. A string is the list of its bytes, and
-- an RSSI its byte; `bssid` has six bytes. The null pointer with a count of records has no counterpart.
pub mod RoundTrip
pub mod Scans
use espview.Base.{
  ℕ, zero, suc, ◌+◌, ◌*◌, Bool, true, false, not, ◌&&◌, ◌||◌, List, [], ◌∷◌, ◌++◌, Option, none,
  some, bit_and, bit_or, ltb, ◌==◌, ◌!=◌, if◌then◌else◌, length, take, drop, get_or, replicate,
}
use espview.Base.Word.{u8, ◌<<◌, ◌>>◌}
use espview.Protocol.Wire.{flag_ack_req}
use espview.Protocol.MessageType
use espview.Protocol.ByteOrder.{read_u16_le, write_u16_le}
use espview.Protocol.Message.{Message, make_message}

abbrev pub wifi_ssid_max_bytes : ℕ
wifi_ssid_max_bytes = 32

abbrev pub wifi_password_field_bytes : ℕ
wifi_password_field_bytes = 64

abbrev wifi_config_payload_size : ℕ
wifi_config_payload_size = 103

abbrev wifi_scan_req_payload_size : ℕ
wifi_scan_req_payload_size = 2

abbrev wifi_scan_req_max_entries : ℕ
wifi_scan_req_max_entries = 64

abbrev pub wifi_scan_result_record_bytes : ℕ
wifi_scan_result_record_bytes = 42

abbrev pub wifi_scan_result_max_records : ℕ
wifi_scan_result_max_records = 64

abbrev wifi_config_flag_clear : ℕ
wifi_config_flag_clear = 0x01

abbrev pub wifi_scan_result_flag_truncated : ℕ
wifi_scan_result_flag_truncated = 0x01

pub record WifiScanRecordInfo : Type 0 where
  pub ssid : List ℕ
  pub bssid : List ℕ
  pub rssi : ℕ
  pub channel : ℕ
  pub authmode : ℕ

pub record WifiScanResultInfo : Type 0 where
  pub scan_seq : ℕ
  pub count : ℕ
  pub flags : ℕ
  pub total : ℕ
  pub records : List WifiScanRecordInfo

pub record WifiConfigInfo : Type 0 where
  pub flags : ℕ
  pub ssid : List ℕ
  pub password : List ℕ
  pub server_ip : ℕ
  pub server_port : ℕ

pub record WifiStatusInfo : Type 0 where
  pub phase : ℕ
  pub error_code : ℕ
  pub flags : ℕ
  pub rssi : ℕ
  pub channel : ℕ
  pub ip : ℕ
  pub server_ip : ℕ
  pub server_port : ℕ
  pub ssid_len : ℕ
  pub ssid : List ℕ

unfoldable pub push_net_u32 : ℕ → List ℕ
push_net_u32 v =
    bit_and (v >> 24) 0xFF ∷ bit_and (v >> 16) 0xFF ∷ bit_and (v >> 8) 0xFF ∷ bit_and v 0xFF ∷ []

unfoldable pub read_net_u32 : List ℕ → ℕ
read_net_u32 p =
    bit_or (bit_or (bit_or (get_or p 0 0 << 24) (get_or p 1 0 << 16)) (get_or p 2 0 << 8))
      (get_or p 3 0)

-- A string in a field of so many bytes, filled up with zeros.
unfoldable pub fixed_string : ℕ → List ℕ → List ℕ
fixed_string zero s = []
fixed_string (suc n) [] = 0 ∷ fixed_string n []
fixed_string (suc n) (c ∷ s) = c ∷ fixed_string n s

-- The bytes of a field up to its first zero.
unfoldable pub read_fixed_string : ℕ → List ℕ → List ℕ
read_fixed_string zero p = []
read_fixed_string (suc n) [] = []
read_fixed_string (suc n) (b ∷ p) =
    let rest = read_fixed_string n p in if b == 0 then [] else b ∷ rest

unfoldable pub make_wifi_scan_req : ℕ → ℕ → Option Message
make_wifi_scan_req flags max_entries =
    if flags != 0
    then none
    else if ltb wifi_scan_req_max_entries max_entries
    then none
    else some (make_message MessageType.wifi_scan_req flag_ack_req (flags ∷ max_entries ∷ []))

unfoldable pub parse_wifi_scan_req : List ℕ → Option (ℕ × ℕ)
parse_wifi_scan_req payload =
    if length payload != wifi_scan_req_payload_size
    then none
    else some (get_or payload 0 0, get_or payload 1 0)

-- A record that the message does not carry.
abbrev pub bad_record : WifiScanRecordInfo → Bool
bad_record r = (length r.ssid == 0 || ltb wifi_ssid_max_bytes (length r.ssid)) || ltb 8 r.authmode

unfoldable pub any_bad_record : List WifiScanRecordInfo → Bool
any_bad_record [] = false
any_bad_record (r ∷ rs) = bad_record r || any_bad_record rs

abbrev pub record_bytes : WifiScanRecordInfo → List ℕ
record_bytes r =
    fixed_string wifi_ssid_max_bytes r.ssid
    ++ (r.bssid ++ (r.rssi ∷ r.channel ∷ r.authmode ∷ 0 ∷ []))

unfoldable pub all_record_bytes : List WifiScanRecordInfo → List ℕ
all_record_bytes [] = []
all_record_bytes (r ∷ rs) = record_bytes r ++ all_record_bytes rs

unfoldable pub make_wifi_scan_result : ℕ → Bool → ℕ → List WifiScanRecordInfo → Option Message
unfolding any_bad_record all_record_bytes
make_wifi_scan_result scan_seq truncated total records =
    if ltb wifi_scan_result_max_records (length records)
    then none
    else if any_bad_record records
    then none
    else some (
        make_message MessageType.wifi_scan_result 0 (
          scan_seq
          ∷ u8 (length records)
          ∷ (if truncated then wifi_scan_result_flag_truncated else 0)
          ∷ (write_u16_le total ++ all_record_bytes records)))

-- The record in front of the bytes.
abbrev pub record_at : List ℕ → WifiScanRecordInfo
record_at p = record {
  ssid = read_fixed_string wifi_ssid_max_bytes p;
  bssid = take 6 (drop wifi_ssid_max_bytes p);
  rssi = get_or p 38 0;
  channel = get_or p 39 0;
  authmode = get_or p 40 0;
}

unfoldable pub records_at : ℕ → List ℕ → List WifiScanRecordInfo
records_at zero p = []
records_at (suc n) p = record_at p ∷ records_at n (drop wifi_scan_result_record_bytes p)

unfoldable pub parse_wifi_scan_result : List ℕ → Option WifiScanResultInfo
unfolding records_at
parse_wifi_scan_result payload =
    let count = get_or payload 1 0 in
    if ltb (length payload) 5
    then none
    else if ltb wifi_scan_result_max_records count
    then none
    else if ltb (length payload) (5 + count * wifi_scan_result_record_bytes)
    then none
    else some (record {
      scan_seq = get_or payload 0 0;
      count = count;
      flags = get_or payload 2 0;
      total = read_u16_le (drop 3 payload);
      records = records_at count (drop 5 payload);
    })

abbrev pub config_bytes : List ℕ → List ℕ → ℕ → ℕ → List ℕ
config_bytes ssid password server_ip server_port =
    0
    ∷ (fixed_string wifi_ssid_max_bytes ssid
        ++ (fixed_string wifi_password_field_bytes password
            ++ (push_net_u32 server_ip ++ write_u16_le server_port)))

unfoldable pub make_wifi_config : List ℕ → List ℕ → ℕ → ℕ → Option Message
make_wifi_config ssid password server_ip server_port =
    if length ssid == 0 || ltb wifi_ssid_max_bytes (length ssid)
    then none
    else if length password != 0 && (ltb (length password) 8 || ltb 63 (length password))
    then none
    else if server_ip == 0
    then none
    else if server_port == 0
    then none
    else some (
        make_message MessageType.wifi_config flag_ack_req
          (config_bytes ssid password server_ip server_port))

unfoldable pub make_wifi_clear : Message
make_wifi_clear =
    make_message MessageType.wifi_config flag_ack_req (wifi_config_flag_clear ∷ replicate (102) 0)

unfoldable pub parse_wifi_config : List ℕ → Option WifiConfigInfo
parse_wifi_config payload =
    if ltb (length payload) wifi_config_payload_size
    then none
    else some (record {
      flags = get_or payload 0 0;
      ssid = read_fixed_string wifi_ssid_max_bytes (drop 1 payload);
      password = read_fixed_string wifi_password_field_bytes (drop 33 payload);
      server_ip = read_net_u32 (drop 97 payload);
      server_port = read_u16_le (drop 101 payload);
    })

unfoldable pub make_wifi_status : ℕ → ℕ → ℕ → ℕ → ℕ → ℕ → ℕ → ℕ → List ℕ → Option Message
make_wifi_status phase error_code flags rssi channel ip server_ip server_port ssid =
    if ltb 9 phase
    then none
    else if ltb wifi_ssid_max_bytes (length ssid)
    then none
    else some (
        make_message MessageType.wifi_status 0 (
          phase
          ∷ (write_u16_le error_code
              ++ (flags
                  ∷ rssi
                  ∷ channel
                  ∷ (push_net_u32 ip
                      ++ (push_net_u32 server_ip
                          ++ (write_u16_le server_port ++ (u8 (length ssid) ∷ ssid))))))))

unfoldable pub parse_wifi_status : List ℕ → Option WifiStatusInfo
parse_wifi_status payload =
    let ssid_len = get_or payload 16 0 in
    if ltb (length payload) 17
    then none
    else if ltb wifi_ssid_max_bytes ssid_len
    then none
    else if ltb (length payload) (17 + ssid_len)
    then none
    else some (record {
      phase = get_or payload 0 0;
      error_code = read_u16_le (drop 1 payload);
      flags = get_or payload 3 0;
      rssi = get_or payload 4 0;
      channel = get_or payload 5 0;
      ip = read_net_u32 (drop 6 payload);
      server_ip = read_net_u32 (drop 10 payload);
      server_port = read_u16_le (drop 14 payload);
      ssid_len = ssid_len;
      ssid = take ssid_len (drop 17 payload);
    })
