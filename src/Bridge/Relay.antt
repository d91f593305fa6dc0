-- ===== src/Bridge/Relay.antt =====
-- The bridge as a machine: rounds of the three loops of IoTRepublicPlus/Broker/CloudBridge.cpp, each of which
-- runs in a thread of its own, in any order. A round is taken to run alone. On Linux the old thread for the
-- manager's connection goes on beside the new one; here it ends, as on Windows.
use io_trepublic_plus.Base.{
  Bool, false, true, Option, none, some, List, [], ◌∷◌, Bytes, if◌then◌else◌, ◌>>=◌,
}
use io_trepublic_plus.Bridge.{
  CloudBridge, cloud_round, keep_alive_round, manager_round, manager_start,
}

-- What happens to a bridge: a receive call on either connection returns, the five minutes of keepAliveLoop
-- are over, or the thread for the manager's connection starts, by whether `socket` and `connect` succeed.
pub data Event : Type 0 where
  cloud_came manager_came : Option Bytes → Event
  keep_alive : Event
  manager_started : Bool → Bool → Event

-- The event, with the package buffer of cloudLoop. It is none where the code accesses what is not there, or
-- where the thread for the manager's connection does not wait for the event.
unfoldable pub step : Event → Bytes × CloudBridge → Option (Bytes × CloudBridge)
unfolding cloud_round manager_round keep_alive_round manager_start
step (cloud_came came) (buffer, b) = cloud_round came (buffer, b)
step (manager_came came) (buffer, b) =
    let received = manager_round came b >>= λ b1. some (buffer, b1) in
    if b.is_listening then received else none
step keep_alive (buffer, b) = keep_alive_round b >>= λ b1. some (buffer, b1)
step (manager_started created connected) (buffer, b) =
    if b.is_listening then none else some (buffer, manager_start created connected b)

-- The thread for the manager's connection does not start with this event.
abbrev pub is_steady : Event → Bool
is_steady (manager_started created connected) = false
is_steady e = true

unfoldable pub run : List Event → Bytes × CloudBridge → Option (Bytes × CloudBridge)
unfolding step
run [] s = some s
run (e ∷ es) s = step e s >>= run es
