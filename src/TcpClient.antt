-- ===== src/TcpClient.antt =====
-- A connection to a server: IoTRepublicPlus/Network/TcpClient.cpp and TcpClient.h.
use io_trepublic_plus.Base.{
  ℕ, Bool, false, true, Option, none, some, List, [], ◌∷◌, ◌++◌, Bytes, drop, length, ltb,
  if◌then◌else◌,
}
use io_trepublic_plus.Base.Int.{ℤ, pos, negsuc}

-- `NetworkError`
pub data NetworkError : Type 0 where
  no_network_error unknown_error init_error socket_error connect_error : NetworkError
  network_timeout network_login_error : NetworkError

-- The fields, whether the socket is open, and what `send` has been given.
pub record TcpClient : Type 0 where
  pub target_ip : Bytes
  pub server_port : ℕ
  pub max_receive_buffer : ℕ
  pub is_connected : Bool
  pub is_open : Bool
  pub sent : List Bytes

-- The constructor, by whether `socket` returns one.
unfoldable pub new_client : Bool → Bytes → ℕ → ℕ → TcpClient
new_client created ip port max_recv_size = record {
  target_ip = ip;
  server_port = port;
  max_receive_buffer = max_recv_size;
  is_connected = false;
  is_open = created;
  sent = [];
}

-- `Connect`, by whether `connect` succeeds.
unfoldable pub connect : Bool → TcpClient → NetworkError × TcpClient
connect true c = (no_network_error, record c { is_connected = true })
connect false c = (connect_error, c)

unfoldable pub disconnect : TcpClient → TcpClient
disconnect c = record c { is_connected = false; is_open = false }

-- `SendData` of a string, and of a buffer and its length.
unfoldable pub send_string : Bytes → TcpClient → TcpClient
send_string bytes c = if c.is_connected then record c { sent = c.sent ++ (bytes ∷ []) } else c

-- `SendData` of a vector, whose `at(0)` throws when it is empty.
unfoldable pub send_vector : Bytes → TcpClient → Option TcpClient
unfolding send_string
send_vector [] c = if c.is_connected then none else some c
send_vector (x ∷ bytes) c = some (send_string (x ∷ bytes) c)

-- `RecviveData`, with what `recv` writes, or none where it returns -1: the count and the caller's buffer.
unfoldable pub recvive_data : Option Bytes → Bytes → ℤ × Bytes
recvive_data none buffer = (negsuc 0, buffer)
recvive_data (some came) buffer = (pos (length came), buffer ++ came)

-- One round of `client_loop`, over the handler, which a class below may override, with what `recv` writes
-- over the front of the buffer.
unfoldable pub client_round {ℓ} :
    {S : Type ℓ} → (Bytes → ℕ → S → S) → Option Bytes → Bytes × S → Bytes × S
client_round event_received_data none (recv_buffer, s) = (recv_buffer, s)
client_round event_received_data (some came) (recv_buffer, s) =
    let written = came ++ drop (length came) recv_buffer in
    let handled = event_received_data written (length came) s in
    if ltb 0 (length came) then (written, handled) else (recv_buffer, s)
