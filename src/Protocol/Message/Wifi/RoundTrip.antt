-- ===== src/Protocol/Message/Wifi/RoundTrip.antt =====
-- shared/protocol/message.cpp: the parsers of the Wi-Fi messages on what the builders write.
use espview.Base.{
  ℕ, zero, suc, ◌+◌, ◌*◌, ◌/◌, ◌^◌, ◌<◌, ◌≤◌, ◌≡◌, refl, sym, ap, ◌∙◌, arith, false, List, [], ◌∷◌,
  ◌++◌, append_assoc, some, bit_and, bit_or, ◌==◌, length, drop, All, not_lt→ltb, length-append,
  drop-at, take-at, drop-drop,
}
use espview.Base.Bits.{bit_or-shift_left}
use espview.Base.Word.{u8}
use espview.Base.Bytes.{IsByte}
use espview.Protocol.ByteOrder.{write_u16_le}
use espview.Protocol.ByteOrder.RoundTrip.{read_u16_le-write_u16_le, low_byte}
use espview.Protocol.Message.{Message}
use espview.Protocol.Message.Wifi.{
  push_net_u32, read_net_u32, fixed_string, read_fixed_string, config_bytes, make_wifi_config,
  parse_wifi_config, make_wifi_status, parse_wifi_status,
}

read_net_u32_sum :
    (a b c d : ℕ) (rest : List ℕ)
    → IsByte b
    → IsByte c
    → IsByte d
    → read_net_u32 (a ∷ b ∷ c ∷ d ∷ rest) ≡ a * 2 ^ 24 + b * 2 ^ 16 + c * 2 ^ 8 + d
unfolding read_net_u32
read_net_u32_sum a b c d rest hb hc hd =
    let high : a * 2 ^ 24 + b * 2 ^ 16 ≡ (a * 2 ^ 8 + b) * 2 ^ 16 = omega arith in
    let three : (a * 2 ^ 8 + b) * 2 ^ 16 + c * 2 ^ 8 ≡ (a * 2 ^ 16 + b * 2 ^ 8 + c) * 2 ^ 8 =
      omega arith in
    ap (λ (n : ℕ). bit_or (bit_or n (c * 2 ^ 8)) d)
      (bit_or-shift_left 24 a (b * 2 ^ 16) (omega arith))
    ∙ ap (λ (n : ℕ). bit_or (bit_or n (c * 2 ^ 8)) d) high
    ∙ ap (λ (n : ℕ). bit_or n d) (bit_or-shift_left 16 (a * 2 ^ 8 + b) (c * 2 ^ 8) (omega arith))
    ∙ ap (λ (n : ℕ). bit_or n d) three
    ∙ bit_or-shift_left 8 (a * 2 ^ 16 + b * 2 ^ 8 + c) d hd
    ∙ omega arith

pub read_net_u32-push_net_u32 :
    (v : ℕ) (rest : List ℕ) → v < 2 ^ 32 → read_net_u32 (push_net_u32 v ++ rest) ≡ v
unfolding push_net_u32
read_net_u32-push_net_u32 v rest h =
    let b0 = low_byte v in
    let b1 = low_byte (v / 2 ^ 8) in
    let b2 = low_byte (v / 2 ^ 16) in
    rw
      (read_net_u32_sum (bit_and (v / 2 ^ 24) 0xFF) (bit_and (v / 2 ^ 16) 0xFF)
        (bit_and (v / 2 ^ 8) 0xFF) (bit_and v 0xFF) rest (omega arith) (omega arith) (omega arith))
      (omega (arith, low_byte (v / 2 ^ 24)))

-- A byte of a string that a field of fixed size can carry.
abbrev pub NonZero : ℕ → Type 0
NonZero b = 0 < b

read_fixed_string-zeros :
    (n : ℕ) (rest : List ℕ) → read_fixed_string n (fixed_string n [] ++ rest) ≡ []
unfolding read_fixed_string fixed_string
read_fixed_string-zeros zero rest = refl
read_fixed_string-zeros (suc n) rest = refl

pub read_fixed_string-fixed_string :
    (n : ℕ) (s rest : List ℕ)
    → length s ≤ n
    → All NonZero s
    → read_fixed_string n (fixed_string n s ++ rest) ≡ s
unfolding read_fixed_string fixed_string
read_fixed_string-fixed_string zero [] rest h z = refl
read_fixed_string-fixed_string zero (c ∷ s) rest h z = absurd (omega arith)
read_fixed_string-fixed_string (suc n) [] rest h z = refl
read_fixed_string-fixed_string (suc n) (c ∷ s) rest h (pc, z) =
    let other : (c == 0) ≡ false = ground arith in
    rw other (ap (λ (t : List ℕ). c ∷ t) (read_fixed_string-fixed_string n s rest (omega arith) z))

pub length-fixed_string : (n : ℕ) (s : List ℕ) → length (fixed_string n s) ≡ n
unfolding fixed_string
length-fixed_string zero s = refl
length-fixed_string (suc n) [] = ap suc (length-fixed_string n [])
length-fixed_string (suc n) (c ∷ s) = ap suc (length-fixed_string n s)

pub length-push_net_u32 : (v : ℕ) → length (push_net_u32 v) ≡ 4
unfolding push_net_u32
length-push_net_u32 v = refl

pub length-write_u16_le : (v : ℕ) → length (write_u16_le v) ≡ 2
unfolding write_u16_le
length-write_u16_le v = refl

config_built :
    (ssid password : List ℕ) (ip port : ℕ) (m : Message)
    → make_wifi_config ssid password ip port ≡ some m
    → (length ssid ≤ 32) × (length password ≤ 64) × (m.payload ≡ config_bytes ssid password ip port)
unfolding make_wifi_config
config_built ssid password ip port m e = ground arith

status_built :
    (phase error_code flags rssi channel ip server_ip port : ℕ) (ssid : List ℕ) (m : Message)
    → make_wifi_status phase error_code flags rssi channel ip server_ip port ssid ≡ some m
    → (length ssid ≤ 32)
      × (m.payload
          ≡ phase
            ∷ (write_u16_le error_code
                ++ (flags
                    ∷ rssi
                    ∷ channel
                    ∷ (push_net_u32 ip
                        ++ (push_net_u32 server_ip
                            ++ (write_u16_le port ++ (u8 (length ssid) ∷ ssid)))))))
unfolding make_wifi_status
status_built phase error_code flags rssi channel ip server_ip port ssid m e = ground arith

-- The bytes of a WIFI_CONFIG and what follows them, in parts.
module _ (ssid password : List ℕ) (ip port : ℕ) (rest : List ℕ) where
  after_ip : List ℕ
  after_ip = push_net_u32 ip ++ (write_u16_le port ++ rest)

  after_password : List ℕ
  after_password = fixed_string 64 password ++ after_ip

  after_flags : List ℕ
  after_flags = fixed_string 32 ssid ++ after_password

  config_parts : config_bytes ssid password ip port ++ rest ≡ 0 ∷ after_flags
  unfolding after_flags after_password after_ip
  config_parts = simp append_assoc

  length-after_flags : length after_flags ≡ 102 + length rest
  unfolding after_flags after_password after_ip
  length-after_flags = omega (
    arith,
    length-append (fixed_string 32 ssid) after_password,
    length-append (fixed_string 64 password) after_ip,
    length-append (push_net_u32 ip) (write_u16_le port ++ rest),
    length-append (write_u16_le port) rest,
    length-fixed_string 32 ssid,
    length-fixed_string 64 password,
    length-push_net_u32 ip,
    length-write_u16_le port,
  )

  at_password : drop 32 after_flags ≡ after_password
  unfolding after_flags
  at_password = drop-at 32 (fixed_string 32 ssid) after_password (sym (length-fixed_string 32 ssid))

  at_ip : drop 96 after_flags ≡ after_ip
  unfolding after_password
  at_ip =
      sym (drop-drop 32 64 after_flags)
      ∙ ap (λ (p : List ℕ). drop 64 p) at_password
      ∙ drop-at 64 (fixed_string 64 password) after_ip (sym (length-fixed_string 64 password))

  at_port : drop 100 after_flags ≡ write_u16_le port ++ rest
  unfolding after_ip
  at_port =
      sym (drop-drop 96 4 after_flags)
      ∙ ap (λ (p : List ℕ). drop 4 p) at_ip
      ∙ drop-at 4 (push_net_u32 ip) (write_u16_le port ++ rest) (sym (length-push_net_u32 ip))

  config_read :
      length ssid ≤ 32
      → length password ≤ 64
      → All NonZero ssid
      → All NonZero password
      → ip < 2 ^ 32
      → port < 2 ^ 16
      → parse_wifi_config (0 ∷ after_flags)
        ≡ some (record {
          flags = 0;
          ssid = ssid;
          password = password;
          server_ip = ip;
          server_port = port;
        })
  unfolding parse_wifi_config
  config_read ls lp zs zp hi hp =
      let s : read_fixed_string 32 after_flags ≡ ssid =
        unfold after_flags in read_fixed_string-fixed_string 32 ssid after_password ls zs in
      let w : read_fixed_string 64 after_password ≡ password =
        unfold after_password in read_fixed_string-fixed_string 64 password after_ip lp zp in
      let a : read_net_u32 after_ip ≡ ip =
        unfold after_ip in read_net_u32-push_net_u32 ip (write_u16_le port ++ rest) hi in
      rw
        (
          not_lt→ltb (length (0 ∷ after_flags)) 103 (omega (arith, length-after_flags)),
          s,
          at_password,
          w,
          at_ip,
          a,
          at_port,
          read_u16_le-write_u16_le port rest hp,
        )
        refl

-- Of every WIFI_CONFIG that is built from strings without a zero byte and from numbers in the range of
-- their types, whatever follows its payload: the parser gives the arguments back, the flags clear.
pub parse_wifi_config-make_wifi_config :
    (ssid password : List ℕ) (ip port : ℕ) (m : Message) (rest : List ℕ)
    → make_wifi_config ssid password ip port ≡ some m
    → All NonZero ssid
    → All NonZero password
    → ip < 2 ^ 32
    → port < 2 ^ 16
    → parse_wifi_config (m.payload ++ rest)
      ≡ some (record {
        flags = 0;
        ssid = ssid;
        password = password;
        server_ip = ip;
        server_port = port;
      })
parse_wifi_config-make_wifi_config ssid password ip port m rest e zs zp hi hp =
    let (ls, lp, built) = config_built ssid password ip port m e in
    ap (λ (p : List ℕ). parse_wifi_config (p ++ rest)) built
    ∙ ap parse_wifi_config (config_parts ssid password ip port rest)
    ∙ config_read ssid password ip port rest ls lp zs zp hi hp

-- Of every WIFI_STATUS that is built from numbers in the range of their types, whatever follows its
-- payload: the parser gives the arguments back, with the length of the name.
pub parse_wifi_status-make_wifi_status :
    (phase error_code flags rssi channel ip server_ip port : ℕ) (ssid : List ℕ) (m : Message)
    (rest : List ℕ)
    → make_wifi_status phase error_code flags rssi channel ip server_ip port ssid ≡ some m
    → error_code < 2 ^ 16
    → ip < 2 ^ 32
    → server_ip < 2 ^ 32
    → port < 2 ^ 16
    → parse_wifi_status (m.payload ++ rest)
      ≡ some (record {
        phase = phase;
        error_code = error_code;
        flags = flags;
        rssi = rssi;
        channel = channel;
        ip = ip;
        server_ip = server_ip;
        server_port = port;
        ssid_len = length ssid;
        ssid = ssid;
      })
unfolding parse_wifi_status write_u16_le push_net_u32
parse_wifi_status-make_wifi_status phase error_code flags rssi channel ip server_ip port ssid m rest
      e he hi hs hp =
    let (ls, built) = status_built phase error_code flags rssi channel ip server_ip port ssid m e in
    let n : u8 (length ssid) ≡ length ssid = omega arith in
    let bytes : List ℕ =
      phase
      ∷ (write_u16_le error_code
          ++ (flags
              ∷ rssi
              ∷ channel
              ∷ (push_net_u32 ip
                  ++ (push_net_u32 server_ip ++ (write_u16_le port ++ (length ssid ∷ ssid)))))) in
    let l : length (bytes ++ rest) ≡ 17 + length ssid + length rest =
      omega (arith, length-append ssid rest) in
    rw
      (
        built,
        n,
        not_lt→ltb 32 (length ssid) ls,
        not_lt→ltb (length (bytes ++ rest)) 17 (omega (arith, l)),
        not_lt→ltb (length (bytes ++ rest)) (17 + length ssid) (omega (arith, l)),
        read_u16_le-write_u16_le error_code _ he,
        read_net_u32-push_net_u32 ip _ hi,
        read_net_u32-push_net_u32 server_ip _ hs,
        read_u16_le-write_u16_le port _ hp,
        take-at (length ssid) ssid rest refl,
      )
      refl
