-- ===== src/XBee/Module.antt =====
-- The radio module behind the XBee library: the utility functions of XBeeBroker_ApiMode.cpp.
pub mod Receive
use io_trepublic_plus.Base.{
  elapsed, ℕ, zero, suc, ◌+◌, ◌-◌, ◌%◌, ◌<◌, Bool, false, true, Option, none, some, List, [], ◌∷◌,
  ◌++◌, Bytes, length, take, leb, ltb, ◌==◌, ◌&&◌, if◌then◌else◌, ◌>>=◌,
}
use io_trepublic_plus.LoRa.Serial.{erase_index, find_code_index}
use io_trepublic_plus.XBee.{
  Packet, RecvResult, XBee, XBeeAddress64, XBeeResponseType, at_command, at_command_request,
  at_command_response, failed, other_response, rx_response, rx_status, succeed, timeout, tx_status,
  tx_status_response, unknown, zb_tx_request,
}

abbrev pub start_code : ℕ
start_code = 2

abbrev pub end_code : ℕ
end_code = 3

-- `sendAtCommand` without a value
abbrev pub send_at_command : Bytes → XBee → XBee
send_at_command cmd x = record x { requests = x.requests ++ (at_command_request cmd ∷ []) }

-- `sendData`: the data goes between the two codes, and the length becomes a `uint8_t`.
unfoldable pub send_data : XBeeAddress64 → Bytes → XBee → XBee
send_data address content x =
    let framed = start_code ∷ (content ++ (end_code ∷ [])) in
    let payload = take (length framed % 256) framed in
    record x { requests = x.requests ++ (zb_tx_request address payload ∷ []) }

-- `readPacket`
unfoldable pub read_packet : XBee → Option Packet × XBee
read_packet x = elim x.packets [ [] ↦ (none, x) | p ∷ ps ↦ (p, record x { packets = ps }) ]

-- The branches of `recvResponse`.
unfoldable pub response_of : XBeeResponseType → Option Packet → Bytes → RecvResult × Bytes
response_of expect none buffer = (timeout, buffer)
response_of at_command (some (at_command_response true value)) buffer = (succeed, buffer ++ value)
response_of rx_status (some (rx_response true content)) buffer = (succeed, buffer ++ content)
response_of tx_status (some (tx_status_response true)) buffer = (succeed, buffer)
response_of expect (some p) buffer = (failed, buffer)

-- `recvResponse`
unfoldable pub recv_response : XBeeResponseType → Bytes → XBee → RecvResult × Bytes × XBee
unfolding read_packet response_of
recv_response expect buffer x =
    let (packet, x1) = read_packet x in
    let (result, received) = response_of expect packet buffer in (result, received, x1)

-- What one packet adds to the count, the result and the buffer of `getResponse`.
unfoldable pub counted : Option Packet → ℕ → RecvResult → Bytes → ℕ × RecvResult × Bytes
counted (some (rx_response true content)) n result buffer = (n + 1, succeed, buffer ++ content)
counted (some (rx_response false content)) n result buffer = (n + 1, result, buffer)
counted (some (tx_status_response true)) n result buffer = (n + 1, succeed, buffer)
counted (some (tx_status_response false)) n result buffer = (n + 1, result, buffer)
counted packet n result buffer = (n, result, buffer)

-- The loop of `getResponse`, over the readings of the clock.
unfoldable pub get_from : ℕ → ℕ → ℕ → RecvResult → Bytes → List ℕ → XBee → RecvResult × Bytes × XBee
unfolding read_packet counted
get_from start_time time_out n result buffer [] x = (timeout, buffer, record x { clock = [] })
get_from start_time time_out n result buffer (now ∷ clock) x =
    let (packet, x1) = read_packet x in
    let (n1, result1, buffer1) = counted packet n result buffer in
    let again = get_from start_time time_out n1 result1 buffer1 clock x1 in
    if ltb time_out (elapsed now start_time)
    then (timeout, buffer, record x { clock = clock })
    else if n1 == 2
    then (result1, buffer1, record x1 { clock = clock })
    else again

-- `getResponse`
unfoldable pub get_response : Bytes → ℕ → XBee → RecvResult × Bytes × XBee
unfolding get_from
get_response buffer time_out x = elim x.clock [
  | [] ↦ (timeout, buffer, x)
  | start_time ∷ clock ↦ get_from start_time time_out 0 failed buffer clock x
]

-- `findStartCodeIndex(...) >= 0 && findEndCodeIndex(...) > 0`
unfoldable pub has_codes : Bytes → Bool
unfolding find_code_index
has_codes buffer = elim (find_code_index start_code buffer) [
  | none ↦ false
  | some i ↦ elim (find_code_index end_code buffer) [ none ↦ false | some j ↦ ltb 0 j ]
]

-- The loop of `recvData`, over the readings of the clock.
unfoldable pub recv_from : ℕ → ℕ → Bytes → List ℕ → XBee → RecvResult × Bytes × XBee
unfolding recv_response has_codes
recv_from start_time ms_timeout buffer [] x = (timeout, buffer, record x { clock = [] })
recv_from start_time ms_timeout buffer (now ∷ clock) x =
    let (result, received, x1) = recv_response rx_status buffer x in
    let again = recv_from start_time ms_timeout received clock x1 in
    let whole : Bool = elim result [ succeed ↦ has_codes received | _ ↦ false ] in
    if ltb ms_timeout (elapsed now start_time)
    then (timeout, buffer, record x { clock = clock })
    else if whole
    then (succeed, received, record x1 { clock = clock })
    else again

-- The two erasures at the end of `recvData`, of the first byte and of the last.
unfoldable pub erase_ends : Bytes → Option Bytes
unfolding erase_index
erase_ends buffer = do rest ← erase_index 0 buffer; erase_index (length rest - 1) rest

-- The time that `recvData` waits.
unfoldable pub waited : Bytes → ℕ → XBee → RecvResult × Bytes × XBee
unfolding recv_from
waited buffer ms_timeout x = elim x.clock [
  | [] ↦ (timeout, buffer, x)
  | start_time ∷ clock ↦ recv_from start_time ms_timeout buffer clock x
]

-- `recvData`. Its test `isStartRecv == isEndRecv == 1` holds when both are 0 too, so that the ends are
-- erased after a time-out as well.
unfoldable pub recv_data : Bytes → ℕ → XBee → Option (RecvResult × Bytes × XBee)
unfolding waited erase_ends
recv_data buffer ms_timeout x = do
  let (result, received, x1) = waited buffer ms_timeout x
  inner ← erase_ends received
  some (result, inner, x1)
