-- ===== src/Server/Machine.antt =====
-- The hub as a machine: rounds of the server's loop and rounds of the rules' thread in any order
-- (IoTRepublicPlus/Network/TcpServer.cpp, IoTRepublicPlus/IoT/Ruler.cpp). A round is taken to run alone.
use io_trepublic_plus.Base.{ℕ, ◌<◌, ◌≡◌, false, Bool, some}
use io_trepublic_plus.Json.{Jansson}
use io_trepublic_plus.Manager.Events.{scanned}
use io_trepublic_plus.Server.{Round, ServerState, fd_isset, server_round, with_event}
use io_trepublic_plus.Server.Sockets.{IsServing}
use io_trepublic_plus.Server.Watched.{IsWatching}

-- A descriptor that `accept` can return: it is not 0, and none that is open, such as those in the set.
abbrev pub IsFresh : ℕ → ServerState → Type 0
IsFresh fd s = (0 < fd) × (fd_isset fd s.master ≡ false)

module _ (J : Jansson) where
  -- The states that a run gets into from one, none of its steps throwing.
  pub data Run (s : ServerState) : ServerState → Type 0 where
    start : Run s s
    round :
        {t u : ServerState} (r : Round) (goes_on : Bool)
        → ((fd : ℕ) → r.accepted ≡ some fd → IsFresh fd t)
        → Run s t
        → server_round J r t ≡ some (goes_on, u)
        → Run s u
    scan : {t u : ServerState} → Run s t → with_event J (scanned J t.state) t ≡ some u → Run s u

  abbrev IsHub : ServerState → Type 0
  IsHub s = IsServing s × IsWatching s
