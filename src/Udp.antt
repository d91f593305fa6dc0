-- ===== src/Udp.antt =====
-- The broadcast server by which clients find the manager: IoTRepublicPlus/Network/UdpServer.cpp with the
-- handler of IoTRepublicPlus/IoT/BrocastServer.cpp. A socket that was not opened is 0.
use io_trepublic_plus.Base.{
  ℕ, Bool, true, false, ◌<◌, ◌≡◌, sym, ap, ◌∙◌, inl, inr, Bool-cases, Option, none, some, List, [],
  ◌∷◌, ◌++◌, Bytes, codes, ltb, lt→ltb, append_assoc, append-nil, if◌then◌else◌, ◌>>=◌,
}
use io_trepublic_plus.Manager.State.{is_empty}

pub record Datagram : Type 0 where
  pub ip : Bytes
  pub port : ℕ
  pub bytes : Bytes

-- `sent` records each `sendto`.
pub record UdpServer : Type 0 where
  pub listener : ℕ
  pub sent : List Datagram

-- `SendData`; `&sendData->at(0)` throws on an empty vector.
unfoldable pub send_data : Bytes → ℕ → Bytes → UdpServer → Option UdpServer
send_data ip port bytes s =
    let packed =
      if is_empty bytes
      then none
      else some
          (record s { sent = s.sent ++ (record { ip = ip; port = port; bytes = bytes } ∷ []) }) in
    if ltb 0 s.listener then packed else some s

-- `BrocastServer::Event_ReceivedData`
unfoldable pub event_received_data : Datagram → UdpServer → Option UdpServer
unfolding send_data
event_received_data d s = send_data d.ip d.port (codes "Hi") s

-- The loop of `server_loop`, over what each `recvfrom` finds; no bytes are an error or an empty datagram.
unfoldable pub server_loop : List Datagram → UdpServer → Option UdpServer
unfolding event_received_data
server_loop [] s = some s
server_loop (d ∷ ds) s =
    let handled = (do s1 ← event_received_data d s; server_loop ds s1) in
    let ignored = server_loop ds s in if is_empty d.bytes then ignored else handled

-- `server_loop` whole, by what `socket` returns (none is 0 or less) and whether `bind` succeeds: whether it
-- ends in front of its loop, and the server then. Where `bind` fails the listener is closed and stays in its field;
-- a failure of `setsockopt` is only printed.
unfoldable pub server_thread : Option ℕ → Bool → List Datagram → Option (Bool × UdpServer)
unfolding server_loop
server_thread none bound ds = some (true, record { listener = 0; sent = [] })
server_thread (some listener) false ds = some (true, record { listener = listener; sent = [] })
server_thread (some listener) true ds = do
  s ← server_loop ds (record { listener = listener; sent = [] })
  some (false, s)

-- The answer to each datagram with bytes.
abbrev pub answers : List Datagram → List Datagram
answers [] = []
answers (d ∷ ds) =
    if is_empty d.bytes then answers ds else record d { bytes = codes "Hi" } ∷ answers ds

-- On an open socket the loop does not throw, and sends one "Hi" to the sender of each datagram that has bytes,
-- in their order, and nothing else.
pub server_loop-answers :
    (ds : List Datagram) (s : UdpServer)
    → 0 < s.listener
    → server_loop ds s ≡ some (record s { sent = s.sent ++ answers ds })
unfolding server_loop event_received_data send_data
server_loop-answers [] s h = ap (λ r. some (record s { sent = r })) (sym (append-nil s.sent))
server_loop-answers (d ∷ ds) s h = elim (Bool-cases (is_empty d.bytes)) [
  | inl e ↦ rw e (server_loop-answers ds s h)
  | inr e ↦
      rw (e, lt→ltb 0 s.listener h)
        (server_loop-answers ds
            (record s { sent = s.sent ++ (record d { bytes = codes "Hi" } ∷ []) }) h
          ∙ ap (λ r. some (record s { sent = r }))
              (append_assoc s.sent (record d { bytes = codes "Hi" } ∷ []) (answers ds)))
]
