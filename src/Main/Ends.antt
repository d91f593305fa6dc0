-- ===== src/Main/Ends.antt =====
-- What `main` of IoTRepublicPlus/main.cpp leaves running: nothing.
use io_trepublic_plus.Base.{
  ◌≡◌, refl, ap, ◌∙◌, Bool, Bool-cases, false, true, inl, inr, none, some, List, All, if◌then◌else◌,
  >>=_at,
}
use io_trepublic_plus.TcpClient.{NetworkError}
use io_trepublic_plus.Controller.{start_all_broker-All, stop_all_broker-All}
use io_trepublic_plus.Config.{ManagerConfig}
use io_trepublic_plus.Main.{
  BrokerObject, Program, add_brokers, cloud_bridge, cloud_uploader, each_broker, fake_broker,
  is_set, lo_ra_broker, nothing_runs, set_running, shut_down, start_servers, start_up, stop_servers,
  xbee_broker_api_mode,
}

abbrev pub is_running : BrokerObject → Bool
is_running (xbee_broker_api_mode name type ip port com_number baud runs) = runs
is_running (lo_ra_broker name type ip port com_number baud runs) = runs
is_running (fake_broker name type ip port runs) = runs
is_running (cloud_bridge name type ip port target_ip target_port max runs) = runs
is_running (cloud_uploader url id pw name type ip port runs) = runs

running-set : (on : Bool) (b : BrokerObject) → is_running (set_running on b) ≡ on
running-set on (xbee_broker_api_mode name type ip port com_number baud runs) = refl
running-set on (lo_ra_broker name type ip port com_number baud runs) = refl
running-set on (fake_broker name type ip port runs) = refl
running-set on (cloud_bridge name type ip port target_ip target_port max runs) = refl
running-set on (cloud_uploader url id pw name type ip port runs) = refl

-- What has been started, and what is left when the program ends.
abbrev pub IsStarted : ManagerConfig → Program → Type 0
IsStarted c p =
    All (λ b. is_running b ≡ true) p.brokers
    × (p.brocast_server
        ≡ (if is_set c.brocast_server then some (c.brocast_port, c.max_receive_buffer) else none))
    × (p.ruler ≡ (if is_set c.io_t_manager then some c.ruler_action_frequency else none))

abbrev pub IsStopped : Program → Type 0
IsStopped p =
    All (λ b. is_running b ≡ false) p.brokers
    × (p.brocast_server ≡ none)
    × (p.manager ≡ none)
    × (p.ruler ≡ none)

started_servers :
    (c : ManagerConfig)
    → ((start_servers c nothing_runs).brocast_server
        ≡ (if is_set c.brocast_server then some (c.brocast_port, c.max_receive_buffer) else none))
      × ((start_servers c nothing_runs).ruler
          ≡ (if is_set c.io_t_manager then some c.ruler_action_frequency else none))
started_servers c = elim (Bool-cases (is_set c.brocast_server)) [
  | inl h ↦ elim (Bool-cases (is_set c.io_t_manager)) [
    | inl k ↦ rw (h, k) (refl, refl)
    | inr k ↦ rw (h, k) (refl, refl)
  ]
  | inr h ↦ elim (Bool-cases (is_set c.io_t_manager)) [
    | inl k ↦ rw (h, k) (refl, refl)
    | inr k ↦ rw (h, k) (refl, refl)
  ]
]

-- The servers that are stopped are those that were started.
stop_servers-start_servers :
    (c : ManagerConfig) (bs : List BrokerObject)
    → stop_servers c (record (start_servers c nothing_runs) { brokers = bs })
      ≡ record nothing_runs { brokers = bs }
stop_servers-start_servers c bs = elim (Bool-cases (is_set c.brocast_server)) [
  | inl h ↦ elim (Bool-cases (is_set c.io_t_manager)) [
    | inl k ↦ rw (h, k) refl
    | inr k ↦ rw (h, k) refl
  ]
  | inr h ↦ elim (Bool-cases (is_set c.io_t_manager)) [
    | inl k ↦ rw (h, k) refl
    | inr k ↦ rw (h, k) refl
  ]
]

-- With any configuration, and whatever the login of the bridge returns, `main` gets to PAUSE with every broker
-- that it made, and the servers of the configuration, running, and it ends with all of them stopped.
pub start_up-shut_down :
    (c : ManagerConfig) (login : NetworkError)
    → (p : Program) × (start_up c login ≡ some p)
      × IsStarted c p
      × ((q : Program) × (shut_down c p ≡ some q) × IsStopped q)
unfolding start_up shut_down
start_up-shut_down c login =
    let (on, e, runs) =
      start_all_broker-All each_broker (λ b. is_running b ≡ true)
        (λ b. (set_running true b, refl, running-set true b)) (add_brokers c login) in
    let (off, e1, stopped) =
      stop_all_broker-All each_broker (λ b. is_running b ≡ false)
        (λ b. (set_running false b, refl, running-set false b)) on in
    let (brocast, ruler) = started_servers c in
    (
      record (start_servers c nothing_runs) { brokers = on },
      >>=_at _ e,
      (runs, brocast, ruler),
      (
        record nothing_runs { brokers = off },
        >>=_at _ e1 ∙ ap some (stop_servers-start_servers c off),
        (stopped, refl, refl, refl),
      ),
    )
