-- ===== src/XBee/Description/Answer.antt =====
-- A module that answers askDeviceDescription, IoTRepublicPlus/Broker/XBeeBroker_ApiMode.cpp, at once.
use io_trepublic_plus.Base.{
  elapsed, ℕ, suc, ◌+◌, ◌-◌, ◌*◌, ◌≤◌, ◌≡◌, refl, ap, ◌∙◌, true, Option, some, List, [], ◌∷◌, ◌++◌,
  append-nil, Bytes, codes, length, length-append, le→not-ltb, lt→ltb, ◌==◌, Bool-cases, inl, inr,
  arith,
}
use io_trepublic_plus.Package.Checksum.SignedBytes.{IsByte}
use io_trepublic_plus.LoRa.Serial.{erase_index, find_code_index}
use io_trepublic_plus.LoRa.Serial.Frame.{erase_index-middle}
use io_trepublic_plus.XBee.{Packet, Request, XBeeAddress64, rx_response, tx_status_response}
use io_trepublic_plus.XBee.Module.{
  end_code, erase_ends, has_codes, read_packet, recv_data, recv_from, recv_response, response_of,
  send_data, start_code, waited,
}
use io_trepublic_plus.XBee.Description.{ask_device_description, describe, get_check_sum}
use io_trepublic_plus.XBee.Description.Accepted.{split_sum-summed, summed}

abbrev pub between_codes : Bytes → Bytes
between_codes content = start_code ∷ (content ++ (end_code ∷ []))

find_code_index-last :
    (code : ℕ) (content : Bytes)
    → (j : ℕ) × (find_code_index code (content ++ (code ∷ [])) ≡ some j)
unfolding find_code_index
find_code_index-last code [] = (0, ground arith)
find_code_index-last code (c ∷ cs) =
    let (j, e) = find_code_index-last code cs in
    elim (Bool-cases (c == code)) [ inl h ↦ (0, rw h refl) | inr h ↦ (suc j, rw (h, e) refl) ]

has_codes-between : (content : Bytes) → has_codes (between_codes content) ≡ true
unfolding has_codes find_code_index
has_codes-between content =
    let (j, e) = find_code_index-last end_code content in
    rw (has_codes, e) (lt→ltb 0 (suc j) (omega arith))

erase_ends-between : (content : Bytes) → erase_ends (between_codes content) ≡ some content
unfolding erase_ends erase_index
erase_ends-between content =
    let size : length (content ++ (end_code ∷ [])) - 1 ≡ length content =
      omega (arith, length-append content (end_code ∷ [])) in
    rw size (erase_index-middle content [] end_code ∙ ap some (append-nil content))

-- When the module reports that the request was sent, and a packet comes in time with a description and
-- its sum between the two codes, and the two bytes of the sum spell the sum of the description's bytes,
-- then askDeviceDescription returns the description after these two packets and one request.
pub ask_device_description-summed :
    (address : XBeeAddress64) (description : Bytes) (high low start_time now : ℕ) (clock : List ℕ)
    (ps : List (Option Packet)) (requests : List Request)
    → IsByte high
    → IsByte low
    → get_check_sum description ≡ high * 256 + low
    → elapsed now start_time ≤ 1000
    → ask_device_description address (record {
      clock = start_time ∷ now ∷ clock;
      packets =
          some (tx_status_response true)
          ∷ some (rx_response true (between_codes (summed description high low)))
          ∷ ps;
      requests = requests;
    })
      ≡ some (
        description,
        send_data address
            (codes "DES")
            (record { clock = clock; packets = ps; requests = requests }),
      )
unfolding ask_device_description describe recv_response read_packet response_of recv_data waited
    recv_from send_data
ask_device_description-summed address description high low start_time now clock ps requests h k same
      in_time =
    let content = summed description high low in
    let equal : (high * 256 + low == get_check_sum description) ≡ true = ground (arith, same) in
    rw
      (
        describe,
        le→not-ltb 1000 (elapsed now start_time) in_time,
        has_codes-between content,
        erase_ends-between content,
        split_sum-summed description high low h k,
        equal,
      )
      refl
