-- ===== src/Server.antt =====
-- The loop of the server: IoTRepublicPlus/Network/TcpServer.cpp, with the event handlers of IoTManager.
pub mod Rounds
pub mod Watched
pub mod Machine
pub mod Polled
pub mod Open
pub mod Sockets
use io_trepublic_plus.Base.{
  ℕ, zero, suc, Bool, true, false, not, Option, none, some, List, [], ◌∷◌, ◌+◌, ◌||◌, ◌&&◌, Bytes,
  leb, ◌==◌, ◌⊎◌, inl, inr, length, get_elem?, set, filter, if◌then◌else◌, ◌>>=◌,
}
use io_trepublic_plus.Base.Int.{ℤ}
use io_trepublic_plus.Json.{Jansson}
use io_trepublic_plus.Manager.State.{Manager, ManagerState, is_empty}
use io_trepublic_plus.TcpClient.{NetworkError, socket_error}
use io_trepublic_plus.Manager.Handle.{event_connection_denied, event_received_data}

-- The locals of `server_loop` and the fields behind them. A set of descriptors is a list; descriptors
-- are below FD_SETSIZE. `closed` records each CloseTSSocket.
pub record ServerState : Type 0 where
  pub state : ManagerState
  pub listener : ℕ
  pub max_client : ℕ
  pub master : List ℕ
  pub fdmax : ℕ
  pub closed : List ℕ

abbrev pub places {ℓ} : {A : Type ℓ} → ℕ → A → List A
places zero x = []
places (suc n) x = x ∷ places n x

-- The manager as its constructors leave it, in front of the loop, once the socket is open. The period of the
-- ruler comes with its start.
abbrev pub new_server : ℕ → ℕ → ℤ → ServerState
new_server listener max_client action_frequency = record {
  state = record {
    manager = record {
      ip_count = 0;
      registed_devices = [];
      client_sockets = places max_client 0;
      rules = [];
      next_rule_id = 0;
      action_frequency = action_frequency;
      sent = [];
    };
    package_buffer = places max_client [];
  };
  listener = listener;
  max_client = max_client;
  master = listener ∷ [];
  fdmax = listener;
  closed = [];
}

-- FD_ISSET
abbrev pub fd_isset : ℕ → List ℕ → Bool
fd_isset fd [] = false
fd_isset fd (x ∷ xs) = (fd == x) || fd_isset fd xs

-- FD_CLR
abbrev pub fd_clr : ℕ → List ℕ → List ℕ
fd_clr fd xs = filter (λ x. not (fd == x)) xs

-- What the calls of the operating system find in one round: the descriptors that can be read, what
-- `accept` returns (`none` is an error), and what `recv` reads from a descriptor (no byte is an error or
-- the end).
pub record Round : Type 0 where
  pub is_ready : ℕ → Bool
  pub accepted : Option ℕ
  pub received : ℕ → Bytes

-- The table of the sockets under another one.
abbrev pub with_sockets : List ℕ → ServerState → ServerState
with_sockets sockets s = record s {
  state = record (s.state) { manager = record (s.state.manager) { client_sockets = sockets } };
}

-- `select`, on what stands in the set up to fdmax
unfoldable pub select_of : Round → ServerState → List ℕ
select_of r s = filter (λ fd. leb fd s.fdmax && r.is_ready fd) s.master

-- A new socket in a place of the table; Event_NewConnection does nothing.
abbrev pub place_socket : ℕ → ℕ → ServerState → ServerState
place_socket i new_socket s =
    record (with_sockets (set s.state.manager.client_sockets i new_socket) s) {
      master = new_socket ∷ s.master;
      fdmax = new_socket;
    }

-- The loop that puts a new socket into the first free place.
unfoldable pub add_socket : ℕ → ℕ → ℕ → ServerState → Option ServerState
add_socket zero i new_socket s = some s
add_socket (suc left) i new_socket s = do
  socket ← get_elem? s.state.manager.client_sockets i
  let rest = add_socket left (i + 1) new_socket s
  if socket == 0 then some (place_socket i new_socket s) else rest

module _ (J : Jansson) where
  abbrev pub with_event : Option ManagerState → ServerState → Option ServerState
  with_event o s = do t ← o; some (record s { state = t })

  -- `CutConnection`
  unfoldable pub cut_connection : ℕ → ServerState → Option ServerState
  cut_connection i s = do
    socket ← get_elem? s.state.manager.client_sockets i
    let s1 = record (with_sockets (set s.state.manager.client_sockets i 0) s) {
      master = fd_clr socket s.master;
      closed = socket ∷ s.closed;
    }
    with_event (event_connection_denied J i s1.state) s1

  -- The body of the loop over the clients, for one socket index.
  unfoldable pub serve_client : Round → List ℕ → ℕ → ServerState → Option ServerState
  serve_client r readfds i s = do
    socket ← get_elem? s.state.manager.client_sockets i
    let bytes = r.received socket
    if fd_isset socket readfds
        then (if is_empty bytes
            then cut_connection i s
            else with_event (event_received_data J i bytes (length bytes) s.state) s)
        else some s

  -- The loop over the clients, from a socket index on.
  unfoldable pub serve_from : Round → List ℕ → ℕ → ℕ → ServerState → Option ServerState
  serve_from r readfds zero i s = some s
  serve_from r readfds (suc left) i s = do
    s1 ← serve_client r readfds i s
    serve_from r readfds left (i + 1) s1

  -- The clients of one round.
  abbrev pub served : Round → List ℕ → ServerState → Option (Bool × ServerState)
  served r readfds s = do u ← serve_from r readfds s.max_client 0 s; some (true, u)

  -- One round after `select`, and whether the loop goes on.
  unfoldable pub server_round : Round → ServerState → Option (Bool × ServerState)
  server_round r s =
      let readfds = select_of r s in
      let accepting : Option (Bool × ServerState) = elim r.accepted [
        | none ↦ some (false, s)
        | some new_socket ↦ (do t ← add_socket s.max_client 0 new_socket s; served r readfds t)
      ] in
      if fd_isset s.listener readfds then accepting else served r readfds s

  -- The loop over some rounds; in a round that is `none`, `select` fails, and the loop ends.
  unfoldable pub server_loop : List (Option Round) → ServerState → Option ServerState
  server_loop [] s = some s
  server_loop (none ∷ rounds) s = some s
  server_loop (some r ∷ rounds) s = do
    (goes_on, t) ← server_round r s
    let rest = server_loop rounds t
    if goes_on then rest else some t

  -- The thread of the server: `server_loop` whole, by what `socket` and `bind` return. It ends with an error
  -- in front of its loop, or is in the state that the rounds lead to; what `listen` returns is not looked at.
  unfoldable pub server_thread :
      Option ℕ → Bool → ℕ → ℤ → List (Option Round) → Option (NetworkError ⊎ ServerState)
  unfolding server_loop
  server_thread none bound max_client action_frequency rounds = some (inl socket_error)
  server_thread (some listener) false max_client action_frequency rounds = some (inl socket_error)
  server_thread (some listener) true max_client action_frequency rounds = do
    t ← server_loop rounds (new_server listener max_client action_frequency)
    some (inr t)
