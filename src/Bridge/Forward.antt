-- ===== src/Bridge/Forward.antt =====
-- What the bridge of IoTRepublicPlus/Broker/CloudBridge.cpp passes on to the manager.
use io_trepublic_plus.Base.{
  ◌^◌, ◌<◌, ◌≡◌, refl, ap, ◌∙◌, Bool, Bool-cases, false, true, inl, inr, some, List, [], ◌∷◌, ◌++◌,
  append_assoc, append-nil, sym, suc, Bytes, All, length, lt→ltb, if◌then◌else◌, >>=_at, arith,
}
use io_trepublic_plus.TcpClient.{TcpClient, disconnect, recvive_data, send_string, send_vector}
use io_trepublic_plus.Package.{package_of_string, packet_to_sending_vector}
use io_trepublic_plus.Manager.Stream.{Message, IsSendable, Pending, sent_package, wire_of, wires}
use io_trepublic_plus.Broker.{drain}
use io_trepublic_plus.Broker.Drain.{drain-wires, handle_all}
use io_trepublic_plus.Bridge.{
  CloudBridge, cloud_round, forward_package, needs_reconnect, reconnect_to_manager,
}

-- The bytes of each message.
abbrev pub each_wire : List Message → List Bytes
each_wire [] = []
each_wire (x ∷ xs) = wire_of x ∷ each_wire xs

-- The messages in front of the first one that asks the bridge to connect again, and whether none does.
abbrev pub passed : List Message → List Message
passed [] = []
passed (x ∷ xs) = let rest = x ∷ passed xs in if needs_reconnect x.content then [] else rest

abbrev pub all_plain : List Message → Bool
all_plain [] = true
all_plain (x ∷ xs) = let rest = all_plain xs in if needs_reconnect x.content then false else rest

-- The bridge with a connection to the manager that was made, and with one that `Disconnect` has closed.
abbrev pub connected : TcpClient → CloudBridge → CloudBridge
connected client b = record b { socket_to_manager = some (record client { is_connected = true }) }

abbrev pub dropped : TcpClient → CloudBridge → CloudBridge
dropped client b = record b {
  socket_to_manager = some (record client { is_connected = false; is_open = false });
  is_listening = false;
}

abbrev pub with_sent : List Bytes → TcpClient → TcpClient
with_sent out client = record client { sent = client.sent ++ out }

abbrev pub relayed : Bool → List Bytes → TcpClient → CloudBridge → CloudBridge
relayed true out client b = connected (with_sent out client) b
relayed false out client b = dropped (with_sent out client) b

module _ (x : Message) (client : TcpClient) (b : CloudBridge) where
  forward_package-plain :
      needs_reconnect x.content ≡ false
      → forward_package (sent_package x) (connected client b)
        ≡ some (connected (with_sent (wire_of x ∷ []) client) b)
  unfolding forward_package reconnect_to_manager send_vector send_string package_of_string
      packet_to_sending_vector
  forward_package-plain h = rw h refl

  forward_package-reconnect :
      needs_reconnect x.content ≡ true
      → forward_package (sent_package x) (connected client b) ≡ some (dropped client b)
  unfolding forward_package reconnect_to_manager disconnect package_of_string
      packet_to_sending_vector
  forward_package-reconnect h = rw h refl

  -- On a connection that is closed a package is lost, without an error.
  forward_package-dropped :
      forward_package (sent_package x) (dropped client b) ≡ some (dropped client b)
  unfolding forward_package reconnect_to_manager disconnect send_vector send_string
      package_of_string packet_to_sending_vector
  forward_package-dropped = elim (Bool-cases (needs_reconnect x.content)) [
    | inl h ↦ rw h refl
    | inr h ↦ rw h refl
  ]

handle_all-dropped :
    (xs : List Message) (client : TcpClient) (b : CloudBridge)
    → handle_all forward_package xs (dropped client b) ≡ some (dropped client b)
unfolding handle_all
handle_all-dropped [] client b = refl
handle_all-dropped (x ∷ xs) client b =
    >>=_at (handle_all forward_package xs) (forward_package-dropped x client b)
    ∙ handle_all-dropped xs client b

pub with_sent-nil : (client : TcpClient) → client ≡ with_sent [] client
with_sent-nil client = ap (λ out. record client { sent = out }) (sym (append-nil client.sent))

with_sent-cons :
    (t : Bool) (bytes : Bytes) (out : List Bytes) (client : TcpClient) (b : CloudBridge)
    → relayed t out (with_sent (bytes ∷ []) client) b ≡ relayed t (bytes ∷ out) client b
with_sent-cons true bytes out client b =
    ap (λ sent. connected (record client { sent = sent }) b)
      (append_assoc client.sent (bytes ∷ []) out)
with_sent-cons false bytes out client b =
    ap (λ sent. dropped (record client { sent = sent }) b)
      (append_assoc client.sent (bytes ∷ []) out)

handle_all-each_wire :
    (xs : List Message) (client : TcpClient) (b : CloudBridge)
    → handle_all forward_package xs (connected client b)
      ≡ some (relayed (all_plain xs) (each_wire (passed xs)) client b)
unfolding handle_all
handle_all-each_wire [] client b = ap (λ c. some (connected c b)) (with_sent-nil client)
handle_all-each_wire (x ∷ xs) client b = elim (Bool-cases (needs_reconnect x.content)) [
  | inl h ↦ rw h (
      >>=_at (handle_all forward_package xs) (forward_package-reconnect x client b h)
      ∙ handle_all-dropped xs client b
      ∙ ap (λ c. some (dropped c b)) (with_sent-nil client))
  | inr h ↦ rw h (
      >>=_at (handle_all forward_package xs) (forward_package-plain x client b h)
      ∙ handle_all-each_wire xs (with_sent (wire_of x ∷ []) client) b
      ∙ ap some (with_sent-cons (all_plain xs) (wire_of x) (each_wire (passed xs)) client b))
]

-- When the package buffer with what has come in from the cloud holds whole messages and then a proper front
-- part of one, and the connection to the manager was made, a round sends the manager the bytes of each message
-- in front of the first "discon", unchanged, once and in their order, and keeps the front part. If there is a
-- "discon", the connection is closed and the messages behind it are lost; else nothing else changes.
pub cloud_round-each_wire :
    (buffer came pre : Bytes) (xs : List Message) (client : TcpClient) (b : CloudBridge)
    → All IsSendable xs
    → Pending pre
    → buffer ++ came ≡ wires xs ++ pre
    → 0 < length came
    → length (buffer ++ came) < 2 ^ 31
    → cloud_round (some came) (buffer, connected client b)
      ≡ some (pre, relayed (all_plain xs) (each_wire (passed xs)) client b)
unfolding cloud_round recvive_data
cloud_round-each_wire buffer came pre xs client b sendable plain split some_bytes short =
    (λ i.
      if lt→ltb 0 (length came) some_bytes i
      then drain forward_package (suc (length (split i))) (split i) (connected client b)
      else some (buffer, connected client b))
    ∙ drain-wires forward_package (suc (length (wires xs ++ pre))) xs pre (connected client b)
        sendable plain (omega (arith, short, ap length split)) (omega arith)
    ∙ >>=_at (λ b1. some (pre, b1)) (handle_all-each_wire xs client b)
