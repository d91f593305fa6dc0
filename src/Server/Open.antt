-- ===== src/Server/Open.antt =====
-- The devices stand on open sockets, whatever the server's loop does
-- (IoTRepublicPlus/Network/TcpServer.cpp).
use io_trepublic_plus.Base.{
  ◌⊎◌, inl, inr, Bool, false, true, none, ℕ, zero, suc, ◌<◌, not, Option, none, some, List, [], ◌∷◌,
  ◌≡◌, refl, sym, ap, subst, ◌∙◌, arith, All, All-filter, All-weaken, Returns, Returns-some,
  Returns-bind, Returns-if, some_inj, ◌==◌, length, length-set, get_elem?, set,
}
use io_trepublic_plus.Base.Int.{ℤ}
use io_trepublic_plus.Json.{Jansson}
use io_trepublic_plus.Manager.State.{ManagerState}
use io_trepublic_plus.Manager.Handle.{event_received_data}
use io_trepublic_plus.Manager.Invariant.{Fits, WellFormed}
use io_trepublic_plus.Manager.Invariant.Receive.{event_received_data-FitsState}
use io_trepublic_plus.Manager.Denied.{event_connection_denied-lem, without-WellFormed}
use io_trepublic_plus.TcpClient.{NetworkError, socket_error}
use io_trepublic_plus.Server.{
  server_thread, place_socket, new_server, places, ServerState, Round, with_event, cut_connection,
  server_round, server_loop,
}
use io_trepublic_plus.Server.Sockets.{
  OnOpen, IsServing, AcceptsSockets, OnOpen-set-free, other_devices-OnOpen,
}
use io_trepublic_plus.Server.Rounds.{IsKept, server_round-keeps}

place_socket-IsServing :
    (i fd : ℕ) (s : ServerState)
    → get_elem? s.state.manager.client_sockets i ≡ some 0
    → 0 < fd
    → IsServing s
    → IsServing (place_socket i fd s)
place_socket-IsServing i fd s free h w =
    let sockets = s.state.manager.client_sockets in
    record {
      well = record {
        unique_devices = w.well.unique_devices;
        numbered_rules = w.well.numbered_rules;
      };
      on_open =
          All-weaken (λ d. OnOpen sockets d.socket_index)
            (λ d. OnOpen (set sockets i fd) d.socket_index) s.state.manager.registed_devices
            (λ d. OnOpen-set-free sockets i d.socket_index fd free) w.on_open;
      watched = (h, w.watched);
      as_many = w.as_many ∙ sym (length-set sockets i fd);
    }

pub IsServing-Fits :
    (s : ServerState)
    → IsServing s
    → Fits s.state.manager.client_sockets (OnOpen s.state.manager.client_sockets) s.state.manager
IsServing-Fits s w = record { well = w.well; same_sockets = refl; placed = w.on_open }

-- A new state of the manager that keeps the table of the sockets.
pub Fits-IsServing :
    (s : ServerState) (t : ManagerState)
    → IsServing s
    → Fits s.state.manager.client_sockets (OnOpen s.state.manager.client_sockets) t.manager
    → length t.package_buffer ≡ length s.state.package_buffer
    → IsServing (record s { state = t })
Fits-IsServing s t w fits l = record {
  well = fits.well;
  on_open =
      subst (λ ss. All (λ d. OnOpen ss d.socket_index) t.manager.registed_devices)
        (sym fits.same_sockets) fits.placed;
  watched = w.watched;
  as_many = l ∙ w.as_many ∙ ap length (sym fits.same_sockets);
}

module _ (J : Jansson) where
  cut_connection-IsServing :
      (i : ℕ) (s : ServerState) → IsServing s → Returns IsServing (cut_connection J i s)
  unfolding cut_connection
  cut_connection-IsServing i s w =
      let sockets = s.state.manager.client_sockets in
      Returns-bind IsServing (get_elem? sockets i) _ λ socket e.
        let t : ManagerState = record (s.state) {
          manager = record (s.state.manager) { client_sockets = set sockets i 0 };
        } in
        let well : WellFormed t.manager = record {
          unique_devices = w.well.unique_devices;
          numbered_rules = w.well.numbered_rules;
        } in
        rw (event_connection_denied-lem J i t well) (
          Returns-some IsServing _ (record {
            well = without-WellFormed i t.manager well;
            on_open = other_devices-OnOpen sockets i s.state.manager.registed_devices w.on_open;
            watched = All-filter (λ fd. 0 < fd) (λ fd. not (socket == fd)) s.master w.watched;
            as_many = w.as_many ∙ sym (length-set sockets i 0);
          }))

  received-IsServing :
      (i k : ℕ) (bytes : List ℕ) (s : ServerState)
      → OnOpen s.state.manager.client_sockets i
      → IsServing s
      → Returns IsServing (with_event J (event_received_data J i bytes k s.state) s)
  received-IsServing i k bytes s at w =
      let sockets = s.state.manager.client_sockets in
      Returns-bind IsServing (event_received_data J i bytes k s.state) _ λ t e.
        let (fits, l) =
          event_received_data-FitsState J sockets (OnOpen sockets) i _ k bytes s.state t at
            (IsServing-Fits s w, refl) e in
        Returns-some IsServing _ (Fits-IsServing s t w fits l)

  pub IsServing-IsKept : IsKept J IsServing (λ fd s. 0 < fd)
  IsServing-IsKept = record {
    positive = λ s w. w.watched;
    placed = place_socket-IsServing;
    cut = cut_connection-IsServing;
    received = λ i bytes s. received-IsServing i (length bytes) bytes s;
  }

  -- Whatever the rounds find, and in whatever order clients come, send bytes and leave: where the loop
  -- returns or still runs, the manager is well-formed, each registered device stands on an open socket,
  -- each watched descriptor is above 0, and there are as many receive buffers as places for sockets. It
  -- holds from a state in which these hold, if `accept` returns no descriptor 0.
  pub server_loop-IsServing :
      (rounds : List (Option Round)) (s t : ServerState)
      → All AcceptsSockets rounds
      → IsServing s
      → server_loop J rounds s ≡ some t
      → IsServing t
  unfolding server_loop
  server_loop-IsServing [] s t h w e = subst IsServing (some_inj e) w
  server_loop-IsServing (none ∷ rounds) s t h w e = subst IsServing (some_inj e) w
  server_loop-IsServing (some r ∷ rounds) s t h w e =
      Returns-bind IsServing (server_round J r s) _
        (λ u q.
          let w1 =
            server_round-keeps J IsServing (λ fd s. 0 < fd) IsServing-IsKept r s
              (λ fd. h.0 r fd refl) w u q in
          Returns-if IsServing u.0 _ _ (λ v e1. server_loop-IsServing rounds u.1 v h.1 w1 e1)
            (Returns-some IsServing u.1 w1))
        t e

length-places : {A : Type 0} (n : ℕ) (x : A) → length (places n x) ≡ n
length-places zero x = refl
length-places (suc n) x = ap suc (length-places n x)

-- A server that has been opened and has no client yet serves.
pub new_server-IsServing :
    (listener max_client : ℕ) (action_frequency : ℤ)
    → 0 < listener
    → IsServing (new_server listener max_client action_frequency)
new_server-IsServing listener max_client action_frequency h = record {
  well = record { unique_devices = tt; numbered_rules = omega arith };
  on_open = tt;
  watched = (h, tt);
  as_many = length-places max_client [] ∙ sym (length-places max_client 0);
}

-- The thread of the server ends with a socket error where `socket` or `bind` fails. Else, if it throws nothing,
-- its state is one that serves.
abbrev pub Serves : NetworkError ⊎ ServerState → Type 0
Serves (inl error) = error ≡ socket_error
Serves (inr s) = IsServing s

pub server_thread-Serves :
    (J : Jansson) (socket : Option ℕ) (bound : Bool) (max_client : ℕ) (action_frequency : ℤ)
    (rounds : List (Option Round))
    → ((fd : ℕ) → socket ≡ some fd → 0 < fd)
    → All AcceptsSockets rounds
    → Returns Serves (server_thread J socket bound max_client action_frequency rounds)
unfolding server_thread
server_thread-Serves J none bound n f rounds h k = Returns-some Serves _ refl
server_thread-Serves J (some fd) false n f rounds h k = Returns-some Serves _ refl
server_thread-Serves J (some fd) true n f rounds h k =
    Returns-bind Serves (server_loop J rounds (new_server fd n f)) _ λ t e. Returns-some Serves _ (
      server_loop-IsServing J rounds (new_server fd n f) t k
        (new_server-IsServing fd n f (h fd refl)) e)
