-- ===== src/LoRa/Serial.antt =====
-- The radio module on the serial port: the utility functions of LoRaBroker.cpp.
pub mod Frame
pub mod Retry
pub mod Limit
use io_trepublic_plus.Base.{
  elapsed, ℕ, zero, suc, ◌+◌, ◌-◌, ◌*◌, ◌≡◌, Bool, false, true, Option, none, some, List, [], ◌∷◌,
  ◌++◌, Bytes, codes, length, get_elem?, take, drop, str_eq, leb, ltb, ◌==◌, if◌then◌else◌, ◌>>=◌,
  ◌>>◌, require,
}
use io_trepublic_plus.Base64.{base64_decode, base64_encode}
use io_trepublic_plus.Manager.State.{is_empty}
use io_trepublic_plus.LoRa.{
  Poll, Radio, RecvResult, failed, succeed, timeout, Window, cmd_add_node, cmd_end_symbol,
  cmd_remove_node, cmd_send_data, end_code, enq_code, lora_response_wait_timeout,
  max_recv_buffer_size, max_retry_times, space, start_code,
}

abbrev pub silence : Window
silence = record { start = 0; polls = [] }

-- The window of the next call that waits.
unfoldable pub next_window : Radio → Window × Radio
next_window r = elim r.windows [ [] ↦ (silence, r) | w ∷ ws ↦ (w, record r { windows = ws }) ]

-- `RS232_SendBuf`
abbrev pub rs232_send_buf : Bytes → Radio → Radio
rs232_send_buf bytes r = record r { serial = r.serial ++ (bytes ∷ []) }

-- `clearComportBuffer`: what comes in until nothing does for 100 ms is thrown away.
unfoldable pub clear_comport_buffer : Radio → Radio
unfolding next_window
clear_comport_buffer r = (next_window r).1

-- The loop of `recvAtResponse`, whose polls of 2000 bytes read what has come in: the first bytes start the clock again, with 500 ms from then on.
unfoldable pub recv_at_from : ℕ → ℕ → Bool → List Poll → Bytes
recv_at_from start_time ms_timeout is_start_recv [] = []
recv_at_from start_time ms_timeout is_start_recv (p ∷ ps) =
    let rest = recv_at_from start_time ms_timeout is_start_recv ps in
    let begun = recv_at_from p.later 500 true ps in
    if ltb ms_timeout (elapsed p.now start_time)
    then []
    else if is_empty p.got
    then rest
    else p.got ++ (if is_start_recv then rest else begun)

-- `recvAtResponse`, which puts what comes in behind the buffer.
unfoldable pub recv_at_response : Bytes → ℕ → Radio → Bytes × Radio
unfolding next_window recv_at_from
recv_at_response data_buffer ms_timeout r =
    let (w, r1) = next_window r in
    (data_buffer ++ recv_at_from w.start ms_timeout false w.polls, r1)

-- `sendAtCommand`: the response is only printed.
unfoldable pub send_at_command : Bytes → Radio → Radio
unfolding recv_at_response
send_at_command cmd r = (recv_at_response [] 200 (rs232_send_buf cmd r)).1

-- `initLoRaModule`
unfoldable pub init_lora_module : Radio → Radio
unfolding send_at_command
init_lora_module r =
    send_at_command (codes "LoraMode MASTER" ++ (cmd_end_symbol ∷ []))
      (send_at_command (codes "LoraSystemMode inNormal" ++ (cmd_end_symbol ∷ [])) r)

-- The data between the start code and the end code.
abbrev pub framed : Bytes → Bytes
framed content = start_code ∷ (content ++ (end_code ∷ []))

-- The command that sends a text to a node.
abbrev pub node_data : Bytes → Bytes → Bytes
node_data address text =
    cmd_send_data ++ (space ∷ (address ++ (space ∷ (text ++ (cmd_end_symbol ∷ [])))))

-- `sendData`. The text and its '\0' have to fit `encodedBuffer`; '\r' takes the place of the '\0'.
unfoldable pub send_data : Bytes → Bytes → Radio → Option Radio
unfolding clear_comport_buffer
send_data address content r = do
  let (written, encoded_size) = base64_encode (framed content)
  require (leb (length written) max_recv_buffer_size)
  some (clear_comport_buffer (rs232_send_buf (node_data address (take encoded_size written)) r))

-- The capacity of a buffer for which some bytes were reserved: these, or, when it has grown, at least its
-- length, which is taken.
abbrev pub capacity : ℕ → Bytes → ℕ
capacity reserved buffer = if ltb reserved (length buffer) then length buffer else reserved

-- The second poll of `recvData`, of at most so many bytes, for what was left and what is still to come.
abbrev pub poll_again : ℕ → Bytes → List Poll → Bytes
poll_again size left [] = take size left
poll_again size left (p ∷ ps) = take size (left ++ p.got)

-- The loop of `recvData`: `none` when the time is up. `RS232_PollComport` reads at most `size` bytes of what
-- has come in, and leaves the others for the next poll; here `waiting`.
unfoldable pub recv_from : ℕ → ℕ → Bytes → List Poll → Option Bytes
recv_from size start_time waiting [] = none
recv_from size start_time waiting (p ∷ ps) =
    let there = waiting ++ p.got in
    let rest = recv_from size start_time there ps in
    if ltb (lora_response_wait_timeout * 2) (elapsed p.now start_time)
    then none
    else if is_empty (take size there)
    then rest
    else some (take size there ++ poll_again size (drop size there) ps)

-- The end of `recvData`: the decoded text goes behind the data. It has to fit `tempBuffer`, whose
-- other bytes are 0.
unfoldable pub decoded : Bytes → Bytes → Option Bytes
decoded text content = do
  (written, n) ← base64_decode text
  require (leb (length written) max_recv_buffer_size)
  some (content ++ take n written)

-- `recvData` into a buffer, for which some bytes were reserved. The size of its polls is the buffer's capacity.
-- What it leaves on the port is part of what the next window finds.
unfoldable pub recv_data : ℕ → Bytes → Bytes → Radio → Option (RecvResult × Bytes × Radio)
unfolding clear_comport_buffer next_window recv_from decoded
recv_data reserved address content r =
    let r1 = clear_comport_buffer (rs232_send_buf (node_data address (enq_code ∷ [])) r) in
    let (w, r2) = next_window r1 in
    elim (recv_from (capacity reserved content) w.start [] w.polls) [
      | none ↦ some (timeout, content, r2)
      | some text ↦ (do received ← decoded text content; some (succeed, received, r2))
    ]

-- `findStartCodeIndex` and `findEndCodeIndex`: `none` is -1.
unfoldable pub find_code_index : ℕ → Bytes → Option ℕ
find_code_index code [] = none
find_code_index code (c ∷ cs) =
    let rest = (do i ← find_code_index code cs; some (suc i)) in if c == code then some 0 else rest

-- `erase(begin() + i)`
unfoldable pub erase_index : ℕ → Bytes → Option Bytes
erase_index i [] = none
erase_index zero (c ∷ cs) = some cs
erase_index (suc i) (c ∷ cs) = do rest ← erase_index i cs; some (c ∷ rest)

-- The two codes are erased; the index of the end code goes down by one in between, and an index of -1 is
-- out of bounds.
unfoldable pub erase_codes : ℕ → ℕ → Bytes → Option Bytes
unfolding erase_index
erase_codes i zero buffer = none
erase_codes i (suc j) buffer = erase_index i buffer >>= erase_index j

-- What `getResponse` makes of received data.
unfoldable pub strip_codes : Bytes → Option (RecvResult × Bytes)
unfolding find_code_index erase_codes
strip_codes buffer = elim (find_code_index start_code buffer) [
  | none ↦ some (failed, [])
  | some i ↦ elim (find_code_index end_code buffer) [
    | none ↦ some (failed, [])
    | some j ↦ (do inner ← erase_codes i j buffer; some (succeed, inner))
  ]
]

abbrev checked : RecvResult × Bytes × Radio → Option (RecvResult × Bytes × Radio)
checked (succeed, buffer, r) = do (result, inner) ← strip_codes buffer; some (result, inner, r)
checked (other, buffer, r) = some (other, buffer, r)

-- `getResponse`
unfoldable pub get_response : ℕ → Bytes → Bytes → Radio → Option (RecvResult × Bytes × Radio)
unfolding recv_data strip_codes
get_response reserved address buffer r = recv_data reserved address buffer r >>= checked

-- The rounds of `addNode` and `removeNode`.
unfoldable pub command_node : Bytes → Bytes → Bytes → ℕ → Radio → Bool × Radio
unfolding send_at_command recv_at_response
command_node cmd expected address zero r = (false, r)
command_node cmd expected address (suc n) r =
    let sent = send_at_command (cmd ++ (space ∷ (address ++ (cmd_end_symbol ∷ [])))) r in
    let (result, r1) = recv_at_response [] lora_response_wait_timeout sent in
    let again = command_node cmd expected address n r1 in
    if str_eq result expected then (true, r1) else again

unfoldable pub add_node : Bytes → Radio → Bool × Radio
unfolding command_node
add_node address r = command_node cmd_add_node (codes "JoinOK") address max_retry_times r

unfoldable pub remove_node : Bytes → Radio → Bool × Radio
unfolding command_node
remove_node address r = command_node cmd_remove_node (codes "LeaveOK") address max_retry_times r

-- `clearEndNodeBuffer`
unfoldable pub clear_end_node_buffer : Bytes → Radio → Radio
unfolding clear_comport_buffer
clear_end_node_buffer address r =
    clear_comport_buffer (rs232_send_buf (node_data address (enq_code ∷ [])) r)

-- `memcmp(..., 3) == 0` on the buffer: reading a byte that is not there is `none`.
unfoldable pub starts_with : Bytes → Bytes → Option Bool
starts_with [] buffer = some true
starts_with (e ∷ es) [] = none
starts_with (e ∷ es) (c ∷ cs) = let rest = starts_with es cs in if e == c then rest else some false

abbrev pub acknowledged : RecvResult → Bytes → Option Bool
acknowledged succeed buffer = starts_with (codes "ACK") buffer
acknowledged other buffer = some false

-- The rounds of `checkAlive`, with its buffer.
unfoldable pub check_alive_from : Bytes → ℕ → Bytes → Radio → Option (Bool × Radio)
unfolding clear_end_node_buffer send_data recv_data starts_with
check_alive_from address zero buffer r = some (false, r)
check_alive_from address (suc n) buffer r = do
  r1 ← send_data address (codes "SYN") (clear_end_node_buffer address r)
  (result, buffer1, r2) ← recv_data max_recv_buffer_size address buffer r1
  alive ← acknowledged result buffer1
  elim alive [ true ↦ some (true, r2) | false ↦ check_alive_from address n buffer1 r2 ]

-- `checkAlive`
unfoldable pub check_alive : Bytes → Radio → Option (Bool × Radio)
unfolding check_alive_from
check_alive address r = check_alive_from address max_retry_times [] r
