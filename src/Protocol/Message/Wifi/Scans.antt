-- ===== src/Protocol/Message/Wifi/Scans.antt =====
-- shared/protocol/message.cpp: the records of a scan, written and read.
use espview.Base.{
  ℕ, zero, suc, ◌+◌, ◌*◌, ◌^◌, ◌<◌, ◌≤◌, ◌≡◌, refl, sym, ap, ◌∙◌, arith, Bool, false, List, [], ◌∷◌,
  ◌++◌, append_assoc, some, if◌then◌else◌, length, take, drop, get_or, All, not_lt→ltb,
  length-append, drop-at, take-at, drop-drop,
}
use native.Mathlib.Nat.{zero-add}
use espview.Base.Word.{u8}
use espview.Protocol.ByteOrder.{write_u16_le}
use espview.Protocol.ByteOrder.RoundTrip.{read_u16_le-write_u16_le}
use espview.Protocol.Message.{Message}
use espview.Protocol.Message.Wifi.{
  WifiScanRecordInfo, fixed_string, bad_record, any_bad_record, record_bytes, all_record_bytes,
  make_wifi_scan_result, record_at, records_at, parse_wifi_scan_result,
}
use espview.Protocol.Message.Wifi.RoundTrip.{
  NonZero, read_fixed_string-fixed_string, length-fixed_string,
}

-- The name has no zero byte, and the address six bytes.
pub record IsRecord (r : WifiScanRecordInfo) : Type 0 where
  pub ssid : All NonZero r.ssid
  pub bssid : length r.bssid ≡ 6

good_ssid : (r : WifiScanRecordInfo) → bad_record r ≡ false → length r.ssid ≤ 32
good_ssid r h = ground arith

module _ (r : WifiScanRecordInfo) (v : IsRecord r) (rest : List ℕ) where
  tail_bytes : List ℕ
  tail_bytes = r.rssi ∷ r.channel ∷ r.authmode ∷ 0 ∷ rest

  record_parts : record_bytes r ++ rest ≡ fixed_string 32 r.ssid ++ (r.bssid ++ tail_bytes)
  unfolding tail_bytes
  record_parts = simp append_assoc

  length-record_bytes : length (record_bytes r) ≡ 42
  length-record_bytes = omega (
    arith,
    length-append (fixed_string 32 r.ssid) (r.bssid ++ (r.rssi ∷ r.channel ∷ r.authmode ∷ 0 ∷ [])),
    length-append r.bssid (r.rssi ∷ r.channel ∷ r.authmode ∷ 0 ∷ []),
    length-fixed_string 32 r.ssid,
    v.bssid,
  )

  at_bssid : drop 32 (fixed_string 32 r.ssid ++ (r.bssid ++ tail_bytes)) ≡ r.bssid ++ tail_bytes
  at_bssid =
      drop-at 32 (fixed_string 32 r.ssid) (r.bssid ++ tail_bytes)
        (sym (length-fixed_string 32 r.ssid))

  at_tail : drop 38 (fixed_string 32 r.ssid ++ (r.bssid ++ tail_bytes)) ≡ tail_bytes
  at_tail =
      sym (drop-drop 32 6 (fixed_string 32 r.ssid ++ (r.bssid ++ tail_bytes)))
      ∙ ap (λ (p : List ℕ). drop 6 p) at_bssid
      ∙ drop-at 6 r.bssid tail_bytes (sym v.bssid)

get_or-drop : (n i : ℕ) (p : List ℕ) → get_or p (n + i) 0 ≡ get_or (drop n p) i 0
get_or-drop zero i p = rw zero-add
get_or-drop (suc n) i [] = refl
get_or-drop (suc n) i (x ∷ p) =
    let e : suc n + i ≡ suc (n + i) = omega arith in rw e (get_or-drop n i p)

-- The record in front of the bytes is read back, and what stands behind it is found.
record_read :
    (r : WifiScanRecordInfo) (rest : List ℕ)
    → IsRecord r
    → bad_record r ≡ false
    → record_at (record_bytes r ++ rest) ≡ r
unfolding tail_bytes
record_read r rest v good =
    let whole = fixed_string 32 r.ssid ++ (r.bssid ++ tail_bytes r v rest) in
    let tail = at_tail r v rest in
    let name =
      read_fixed_string-fixed_string 32 r.ssid (r.bssid ++ tail_bytes r v rest) (good_ssid r good)
        v.ssid in
    let address : take 6 (r.bssid ++ tail_bytes r v rest) ≡ r.bssid =
      take-at 6 r.bssid (tail_bytes r v rest) (sym v.bssid) in
    let rssi : get_or whole 38 0 ≡ r.rssi =
      get_or-drop 38 0 whole ∙ ap (λ (p : List ℕ). get_or p 0 0) tail in
    let channel : get_or whole 39 0 ≡ r.channel =
      get_or-drop 38 1 whole ∙ ap (λ (p : List ℕ). get_or p 1 0) tail in
    let authmode : get_or whole 40 0 ≡ r.authmode =
      get_or-drop 38 2 whole ∙ ap (λ (p : List ℕ). get_or p 2 0) tail in
    let address_at : take 6 (drop 32 whole) ≡ r.bssid =
      ap (λ (p : List ℕ). take 6 p) (at_bssid r v rest) ∙ address in
    let read : record_at whole ≡ r = λ i. record {
      ssid = name i;
      bssid = address_at i;
      rssi = rssi i;
      channel = channel i;
      authmode = authmode i;
    } in
    ap record_at (record_parts r v rest) ∙ read

records_read :
    (rs : List WifiScanRecordInfo) (rest : List ℕ)
    → All IsRecord rs
    → any_bad_record rs ≡ false
    → records_at (length rs) (all_record_bytes rs ++ rest) ≡ rs
unfolding records_at all_record_bytes any_bad_record
records_read [] rest v good = refl
records_read (r ∷ rs) rest (v, vs) good =
    let behind = all_record_bytes rs ++ rest in
    let good_r : bad_record r ≡ false = ground arith in
    let good_rs : any_bad_record rs ≡ false = ground arith in
    let next : drop 42 (record_bytes r ++ behind) ≡ behind =
      drop-at 42 (record_bytes r) behind (sym (length-record_bytes r v rest)) in
    rw (append_assoc (record_bytes r) (all_record_bytes rs) rest, next)
      (λ i. record_read r behind v good_r i ∷ records_read rs rest vs good_rs i)

length-all_record_bytes :
    (rs : List WifiScanRecordInfo) → All IsRecord rs → length (all_record_bytes rs) ≡ length rs * 42
unfolding all_record_bytes
length-all_record_bytes [] v = refl
length-all_record_bytes (r ∷ rs) (v, vs) = omega (
  arith,
  length-append (record_bytes r) (all_record_bytes rs),
  length-record_bytes r v [],
  length-all_record_bytes rs vs,
)

built :
    (scan_seq total : ℕ) (truncated : Bool) (rs : List WifiScanRecordInfo) (m : Message)
    → make_wifi_scan_result scan_seq truncated total rs ≡ some m
    → (length rs ≤ 64)
      × (any_bad_record rs ≡ false)
      × (m.payload
          ≡ scan_seq
            ∷ u8 (length rs)
            ∷ (if truncated then 1 else 0)
            ∷ (write_u16_le total ++ all_record_bytes rs))
unfolding make_wifi_scan_result
built scan_seq total truncated rs m e = ground arith

-- Of every WIFI_SCAN_RESULT that is built, with a total of 16 bits, names without a zero byte and
-- addresses of six bytes, whatever follows its payload: the parser gives the arguments back, all the
-- records in order, with their number.
pub parse_wifi_scan_result-make_wifi_scan_result :
    (scan_seq total : ℕ) (truncated : Bool) (rs : List WifiScanRecordInfo) (m : Message)
    (rest : List ℕ)
    → make_wifi_scan_result scan_seq truncated total rs ≡ some m
    → All IsRecord rs
    → total < 2 ^ 16
    → parse_wifi_scan_result (m.payload ++ rest)
      ≡ some (record {
        scan_seq = scan_seq;
        count = length rs;
        flags = if truncated then 1 else 0;
        total = total;
        records = rs;
      })
unfolding parse_wifi_scan_result write_u16_le
parse_wifi_scan_result-make_wifi_scan_result scan_seq total truncated rs m rest e v ht =
    let (few, good, payload) = built scan_seq total truncated rs m e in
    let n : u8 (length rs) ≡ length rs = omega arith in
    let bytes : List ℕ =
      scan_seq
      ∷ length rs
      ∷ (if truncated then 1 else 0)
      ∷ (write_u16_le total ++ all_record_bytes rs) in
    let l : length (bytes ++ rest) ≡ 5 + length rs * 42 + length rest =
      omega (arith, length-append (all_record_bytes rs) rest, length-all_record_bytes rs v) in
    rw
      (
        payload,
        n,
        not_lt→ltb 64 (length rs) few,
        not_lt→ltb (length (bytes ++ rest)) 5 (omega (arith, l)),
        not_lt→ltb (length (bytes ++ rest)) (5 + length rs * 42) (omega (arith, l)),
        read_u16_le-write_u16_le total _ ht,
        records_read rs rest v good,
      )
      refl
