-- ===== src/Bridge/Forwarded.antt =====
-- What goes through the bridge of IoTRepublicPlus/Broker/CloudBridge.cpp in any order of its threads' rounds.
use io_trepublic_plus.Base.{
  ℕ, lt→ltb, ◌^◌, ◌<◌, ◌≡◌, refl, ap, ◌∙◌, false, true, Option, none, some, List, [], ◌∷◌, ◌++◌,
  append_assoc, sym, suc, Bytes, All, length, >>=_at, arith,
}
use io_trepublic_plus.TcpClient.{
  TcpClient, connect, new_client, recvive_data, send_string, send_vector,
}
use io_trepublic_plus.Manager.Stream.{Message, IsSendable, Pending, wire_of, wires}
use io_trepublic_plus.Bridge.{
  CloudBridge, cloud_round, keep_alive_round, manager_round, manager_start,
}
use io_trepublic_plus.Bridge.Forward.{
  all_plain, connected, cloud_round-each_wire, each_wire, passed, relayed, with_sent, with_sent-nil,
}
use io_trepublic_plus.Bridge.Passes.{Plain, bool_apart, cloud_came-Passes, nothing_comes}
use io_trepublic_plus.Bridge.Relay.{
  Event, cloud_came, keep_alive, manager_came, is_steady, manager_started, run, step,
}

-- What has come in from the cloud, and what goes there.
abbrev pub received : Option Bytes → Bytes
received none = []
received (some came) = came

abbrev pub cloud_bytes : List Event → Bytes
cloud_bytes [] = []
cloud_bytes (cloud_came came ∷ es) = received came ++ cloud_bytes es
cloud_bytes (e ∷ es) = cloud_bytes es

abbrev pub to_cloud : List Event → List Bytes
to_cloud [] = []
to_cloud (manager_came (some (x ∷ bytes)) ∷ es) = (x ∷ bytes) ∷ to_cloud es
to_cloud (keep_alive ∷ es) = (5 ∷ []) ∷ to_cloud es
to_cloud (e ∷ es) = to_cloud es

-- The bridge with both connections made, and its thread for the manager's in the loop.
abbrev pub with_cloud : TcpClient → CloudBridge → CloudBridge
with_cloud cloud b = record b {
  socket_to_cloud = record cloud { is_connected = true };
  is_listening = true;
}

abbrev pub ready : TcpClient → TcpClient → CloudBridge → CloudBridge
ready cloud client b = connected client (with_cloud cloud b)

each_wire-append : (xs ys : List Message) → each_wire (xs ++ ys) ≡ each_wire xs ++ each_wire ys
each_wire-append [] ys = refl
each_wire-append (x ∷ xs) ys = ap (◌∷◌ (wire_of x)) (each_wire-append xs ys)

with_sent_twice :
    (out later : List Bytes) (client : TcpClient)
    → with_sent later (with_sent out client) ≡ with_sent (out ++ later) client
with_sent_twice out later client =
    ap (λ sent. record client { sent = sent }) (append_assoc client.sent out later)

-- What comes from the manager goes to the cloud as it is.
step-manager_came :
    (z : ℕ) (bytes buffer : Bytes) (cloud client : TcpClient) (b : CloudBridge)
    → step (manager_came (some (z ∷ bytes))) (buffer, ready cloud client b)
      ≡ some (buffer, ready (with_sent ((z ∷ bytes) ∷ []) cloud) client b)
unfolding step manager_round recvive_data send_vector send_string
step-manager_came z bytes buffer cloud client b =
    rw (lt→ltb 0 (suc (length bytes)) (omega arith)) refl

-- The bridge runs with both connections made and its thread for the manager's in the loop, its package buffer
-- holding at most a front part of a message, and in the run that thread does not start again. What comes
-- from the cloud, cut anywhere, holds with the buffer messages in full, none of them "discon", and then a front
-- part of one, fewer than 2 ^ 31 bytes in all. Then in any order of the events nothing is thrown, the
-- manager is sent each message, unchanged, once and in order, and the cloud is sent just what each receive
-- call on the manager's connection gave and a 5 for each five minutes, in the order of these events.
pub run-each_wire :
    (es : List Event) (buffer pre : Bytes) (xs : List Message) (cloud client : TcpClient)
    (b : CloudBridge)
    → All (λ e. is_steady e ≡ true) es
    → All IsSendable xs
    → Plain xs
    → Pending buffer
    → Pending pre
    → buffer ++ cloud_bytes es ≡ wires xs ++ pre
    → length (buffer ++ cloud_bytes es) < 2 ^ 31
    → run es (buffer, ready cloud client b)
      ≡ some (pre, ready (with_sent (to_cloud es) cloud) (with_sent (each_wire xs) client) b)
unfolding run step cloud_round manager_round keep_alive_round recvive_data send_vector send_string
run-each_wire [] buffer pre xs cloud client b steady s plain q p e short =
    let (left, nothing) = nothing_comes xs buffer pre s q p e short in
    λ i. some (
      left i,
      ready (with_sent-nil cloud i)
          ((with_sent-nil client ∙ ap (λ ys. with_sent (each_wire ys) client) nothing) i) b,
    )
run-each_wire (cloud_came none ∷ es) buffer pre xs cloud client b (h, hs) s plain q p e short =
    run-each_wire es buffer pre xs cloud client b hs s plain q p e short
run-each_wire (cloud_came (some []) ∷ es) buffer pre xs cloud client b (h, hs) s plain q p e short =
    run-each_wire es buffer pre xs cloud client b hs s plain q p e short
run-each_wire (cloud_came (some (z ∷ came)) ∷ es) buffer pre xs cloud client b (h, hs) s plain q p e
      short =
    let r =
      cloud_came-Passes buffer (z ∷ came) (cloud_bytes es) pre xs s plain p e (omega arith) short in
    >>=_at (run es) (r.forwards client (with_cloud cloud b))
    ∙ run-each_wire es r.pending pre r.later cloud (with_sent (each_wire r.done) client) b hs
        r.sendable r.plain r.is_pending p r.back r.short
    ∙ ap (λ c. some (pre, ready (with_sent (to_cloud es) cloud) c b))
        (with_sent_twice (each_wire r.done) (each_wire r.later) client
          ∙ ap (λ out. with_sent out client)
              (sym (each_wire-append r.done r.later) ∙ ap each_wire r.messages))
run-each_wire (manager_came none ∷ es) buffer pre xs cloud client b (h, hs) s plain q p e short =
    run-each_wire es buffer pre xs cloud client b hs s plain q p e short
run-each_wire (manager_came (some []) ∷ es) buffer pre xs cloud client b (h, hs) s plain q p e
      short =
    run-each_wire es buffer pre xs cloud client b hs s plain q p e short
run-each_wire (manager_came (some (z ∷ bytes)) ∷ es) buffer pre xs cloud client b (h, hs) s plain q
      p e short =
    >>=_at (run es) (step-manager_came z bytes buffer cloud client b)
    ∙ run-each_wire es buffer pre xs (with_sent ((z ∷ bytes) ∷ []) cloud) client b hs s plain q p e
        short
    ∙ ap (λ c. some (pre, ready c (with_sent (each_wire xs) client) b))
        (with_sent_twice ((z ∷ bytes) ∷ []) (to_cloud es) cloud)
run-each_wire (keep_alive ∷ es) buffer pre xs cloud client b (h, hs) s plain q p e short =
    run-each_wire es buffer pre xs (with_sent ((5 ∷ []) ∷ []) cloud) client b hs s plain q p e short
    ∙ ap (λ c. some (pre, ready c (with_sent (each_wire xs) client) b))
        (with_sent_twice ((5 ∷ []) ∷ []) (to_cloud es) cloud)
run-each_wire (manager_started c1 c2 ∷ es) buffer pre xs cloud client b (h, hs) s plain q p e
      short =
    absurd (bool_apart h)

-- The same bridge is asked to connect again by a message among those that a round has in its buffer, at the
-- end of which stands a front part of one; its thread for the manager's connection starts again and makes
-- the connection, and then the run goes on as above. The manager is sent what comes after this round, on the
-- new connection, unchanged, once and in order.
pub run-reconnected :
    (es : List Event) (buffer came left pre : Bytes) (xs ys : List Message)
    (cloud client : TcpClient) (b : CloudBridge)
    → All (λ e. is_steady e ≡ true) es
    → All IsSendable xs
    → all_plain xs ≡ false
    → Pending left
    → buffer ++ came ≡ wires xs ++ left
    → 0 < length came
    → length (buffer ++ came) < 2 ^ 31
    → All IsSendable ys
    → Plain ys
    → Pending pre
    → left ++ cloud_bytes es ≡ wires ys ++ pre
    → length (left ++ cloud_bytes es) < 2 ^ 31
    → run (cloud_came (some came) ∷ manager_started true true ∷ es) (buffer, ready cloud client b)
      ≡ some (
        pre,
        ready
            (with_sent (to_cloud es) cloud)
            (with_sent
              (each_wire ys)
              (new_client true b.manager_ip b.manager_server_port b.max_recv_size))
            b,
      )
unfolding run step manager_start connect new_client
run-reconnected es buffer came left pre xs ys cloud client b steady s asks p e some_bytes short s2
      plain2 p2 e2 short2 =
    >>=_at (run (manager_started true true ∷ es)) (
      cloud_round-each_wire buffer came left xs client (with_cloud cloud b) s p e some_bytes short
      ∙ ap (λ t. some (left, relayed t (each_wire (passed xs)) client (with_cloud cloud b))) asks)
    ∙ run-each_wire es left pre ys cloud
        (new_client true b.manager_ip b.manager_server_port b.max_recv_size) b steady s2 plain2 p p2
        e2 short2
