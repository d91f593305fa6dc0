-- ===== src/Server/Rounds.antt =====
-- What the loop of the server keeps: a property that each single event keeps is kept by every round
-- (IoTRepublicPlus/Network/TcpServer.cpp).
use io_trepublic_plus.Base.{
  Bytes, ℕ, zero, suc, ◌<◌, Bool, some, inl, inr, Option-cases, Bool-cases, List, ◌+◌, ◌≡◌, ap, ◌∙◌,
  All, All-filter, Returns, Returns-some, Returns-bind, Returns-if, ==_iff, ◌==◌, leb, ◌&&◌, length,
  get_elem?,
}
use io_trepublic_plus.Json.{Jansson}
use io_trepublic_plus.Manager.State.{is_empty}
use io_trepublic_plus.Manager.Handle.{event_received_data}
use io_trepublic_plus.Server.{
  place_socket, ServerState, Round, fd_isset, add_socket, select_of, with_event, cut_connection,
  serve_client, serve_from, served, server_round,
}
use io_trepublic_plus.Server.Sockets.{OnOpen, fd_isset-All}

-- A property of the server that each event keeps: a socket that stands in a free place, a connection that
-- is cut, data that come in on an open socket.
pub record IsKept (J : Jansson) (P : ServerState → Type 0) (Fresh : ℕ → ServerState → Type 0)
    : Type 0 where
  pub positive : (s : ServerState) → P s → All (λ fd. 0 < fd) s.master
  pub placed :
      (i fd : ℕ) (s : ServerState)
      → get_elem? s.state.manager.client_sockets i ≡ some 0
      → Fresh fd s
      → P s
      → P (place_socket i fd s)
  pub cut : (i : ℕ) (s : ServerState) → P s → Returns P (cut_connection J i s)
  pub received :
      (i : ℕ) (bytes : Bytes) (s : ServerState)
      → OnOpen s.state.manager.client_sockets i
      → P s
      → Returns P (with_event J (event_received_data J i bytes (length bytes) s.state) s)

module _ (J : Jansson) (P : ServerState → Type 0) (Fresh : ℕ → ServerState → Type 0)
    (k : IsKept J P Fresh) where
  add_socket-keeps :
      (left i fd : ℕ) (s : ServerState) → Fresh fd s → P s → Returns P (add_socket left i fd s)
  unfolding add_socket
  add_socket-keeps zero i fd s h w = Returns-some P s w
  add_socket-keeps (suc left) i fd s h w =
      Returns-bind P (get_elem? s.state.manager.client_sockets i) _ λ socket e.
        elim (Bool-cases (socket == 0)) [
          | inr taken ↦ rw taken (add_socket-keeps left (i + 1) fd s h w)
          | inl free ↦
              rw free
                (Returns-some P _ (k.placed i fd s (e ∙ ap some ((==_iff socket 0).0 free)) h w))
        ]

  serve_client-keeps :
      (r : Round) (readfds : List ℕ) (i : ℕ) (s : ServerState)
      → All (λ fd. 0 < fd) readfds
      → P s
      → Returns P (serve_client J r readfds i s)
  unfolding serve_client
  serve_client-keeps r readfds i s reads w =
      Returns-bind P (get_elem? s.state.manager.client_sockets i) _ λ socket e.
        elim (Bool-cases (fd_isset socket readfds)) [
          | inr unread ↦ rw unread (Returns-some P s w)
          | inl read ↦ rw read (
              Returns-if P (is_empty (r.received socket)) _ _ (k.cut i s w) (
                k.received i (r.received socket) s
                  (socket, e, fd_isset-All (λ fd. 0 < fd) socket readfds read reads) w))
        ]

  serve_from-keeps :
      (r : Round) (readfds : List ℕ) (left i : ℕ) (s : ServerState)
      → All (λ fd. 0 < fd) readfds
      → P s
      → Returns P (serve_from J r readfds left i s)
  unfolding serve_from
  serve_from-keeps r readfds zero i s reads w = Returns-some P s w
  serve_from-keeps r readfds (suc left) i s reads w =
      Returns-bind P (serve_client J r readfds i s) _ λ s1 e.
        serve_from-keeps r readfds left (i + 1) s1 reads
          (serve_client-keeps r readfds i s reads w s1 e)

  abbrev Next : Bool × ServerState → Type 0
  Next t = P t.1

  served-Next :
      (r : Round) (readfds : List ℕ) (s : ServerState)
      → All (λ fd. 0 < fd) readfds
      → P s
      → Returns Next (served J r readfds s)
  served-Next r readfds s reads w =
      Returns-bind Next (serve_from J r readfds s.max_client 0 s) _
        λ t e. Returns-some Next _ (serve_from-keeps r readfds s.max_client 0 s reads w t e)

  pub server_round-keeps :
      (r : Round) (s : ServerState)
      → ((fd : ℕ) → r.accepted ≡ some fd → Fresh fd s)
      → P s
      → Returns (λ t. P t.1) (server_round J r s)
  unfolding server_round select_of
  server_round-keeps r s h w =
      let reads =
        All-filter (λ fd. 0 < fd) (λ fd. leb fd s.fdmax && r.is_ready fd) s.master
          (k.positive s w) in
      Returns-if Next (fd_isset s.listener (select_of r s)) _ _
        (elim (Option-cases r.accepted) [
          | inl e ↦ rw e (Returns-some Next _ w)
          | inr (fd, e) ↦ rw e (
              Returns-bind Next (add_socket s.max_client 0 fd s) _ λ t q.
                served-Next r (select_of r s) t reads
                  (add_socket-keeps s.max_client 0 fd s (h fd e) w t q))
        ])
        (served-Next r (select_of r s) s reads w)
