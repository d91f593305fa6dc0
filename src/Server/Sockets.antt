-- ===== src/Server/Sockets.antt =====
-- The table of the sockets and the devices that stand on it (IoTRepublicPlus/Network/TcpServer.cpp).
use io_trepublic_plus.Base.{
  ℕ, zero, suc, ◌<◌, true, false, Option, some, inl, inr, Bool-cases, List, [], ◌∷◌, ◌≡◌, sym,
  subst, ◌∙◌, All, some_inj, ==_iff, ◌==◌, ◌||◌, length, get_elem?, set, arith,
}
use io_trepublic_plus.Manager.State.{DeviceInfo}
use io_trepublic_plus.Manager.Devices.{has_socket}
use io_trepublic_plus.Manager.Invariant.{WellFormed}
use io_trepublic_plus.Manager.Denied.{other_devices}
use io_trepublic_plus.Server.{ServerState, Round, fd_isset}

-- A socket index whose place in a table holds an open socket.
abbrev pub OnOpen : List ℕ → ℕ → Type 0
OnOpen sockets i = (fd : ℕ) × (get_elem? sockets i ≡ some fd) × (0 < fd)

-- The manager is well-formed, each registered device stands on an open socket, each watched descriptor
-- can be one of a socket, and there are as many receive buffers as places for sockets.
pub record IsServing (s : ServerState) : Type 0 where
  pub well : WellFormed s.state.manager
  pub on_open :
      All
        (λ d. OnOpen s.state.manager.client_sockets d.socket_index)
        s.state.manager.registed_devices
  pub watched : All (λ fd. 0 < fd) s.master
  pub as_many : length s.state.package_buffer ≡ length s.state.manager.client_sockets

-- `accept` returns no descriptor of a standard stream.
abbrev pub AcceptsSockets : Option Round → Type 0
AcceptsSockets o = (r : Round) (fd : ℕ) → o ≡ some r → r.accepted ≡ some fd → 0 < fd

pub OnOpen-set-free :
    (sockets : List ℕ) (i j fd : ℕ)
    → get_elem? sockets i ≡ some 0
    → OnOpen sockets j
    → OnOpen (set sockets i fd) j
OnOpen-set-free [] i j fd free (old, e, h) = cc
OnOpen-set-free (x ∷ xs) zero zero fd free (old, e, h) =
    elim (subst (λ k. 0 < k) (sym (some_inj e) ∙ some_inj free) h) [ ]
OnOpen-set-free (x ∷ xs) zero (suc j) fd free open_j = open_j
OnOpen-set-free (x ∷ xs) (suc i) zero fd free open_j = open_j
OnOpen-set-free (x ∷ xs) (suc i) (suc j) fd free open_j = OnOpen-set-free xs i j fd free open_j

OnOpen-set-other :
    (sockets : List ℕ) (i j fd : ℕ)
    → (j == i) ≡ false
    → OnOpen sockets j
    → OnOpen (set sockets i fd) j
OnOpen-set-other [] i j fd other (old, e, h) = cc
OnOpen-set-other (x ∷ xs) zero zero fd other open_j = cc
OnOpen-set-other (x ∷ xs) zero (suc j) fd other open_j = open_j
OnOpen-set-other (x ∷ xs) (suc i) zero fd other open_j = open_j
OnOpen-set-other (x ∷ xs) (suc i) (suc j) fd other open_j =
    OnOpen-set-other xs i j fd (ground arith) open_j

pub other_devices-OnOpen :
    (sockets : List ℕ) (i : ℕ) (ds : List DeviceInfo)
    → All (λ d. OnOpen sockets d.socket_index) ds
    → All (λ d. OnOpen (set sockets i 0) d.socket_index) (other_devices i ds)
other_devices-OnOpen sockets i [] h = tt
other_devices-OnOpen sockets i (d ∷ ds) h = elim (Bool-cases (has_socket i d)) [
  | inl e ↦ rw e (other_devices-OnOpen sockets i ds h.1)
  | inr e ↦
      rw e
        (OnOpen-set-other sockets i d.socket_index 0 e h.0, other_devices-OnOpen sockets i ds h.1)
]

pub fd_isset-All : (P : ℕ → Type 0) (fd : ℕ) (xs : List ℕ) → fd_isset fd xs ≡ true → All P xs → P fd
fd_isset-All P fd [] e h = cc
fd_isset-All P fd (x ∷ xs) e h = elim (Bool-cases (fd == x)) [
  | inl same ↦ subst P (sym ((==_iff fd x).0 same)) h.0
  | inr other ↦ fd_isset-All P fd xs (subst (λ b. (b || fd_isset fd xs) ≡ true) other e) h.1
]
