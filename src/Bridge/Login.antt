-- ===== src/Bridge/Login.antt =====
-- The login of IoTRepublicPlus/Broker/CloudBridge.cpp.
use io_trepublic_plus.Base.{
  elapsed, ℕ, ◌<◌, ◌≡◌, refl, Bool, Bool-cases, false, true, Option, some, List, [], ◌∷◌, ◌++◌,
  Bytes, codes, ltb, lt→ltb, str_eq, inl, inr,
}
use io_trepublic_plus.Json.{Jansson, load_json_data}
use io_trepublic_plus.TcpClient.{
  NetworkError, connect, no_network_error, recvive_data, send_string, unknown_error,
}
use io_trepublic_plus.Bridge.{
  CloudBridge, check_login_info, login, login_error, register_text, register_template, wait_login,
}

-- By whether the answer is "Success": what `Login` returns, and the bridge then.
abbrev pub outcome : Bool → NetworkError
outcome true = no_network_error
outcome false = unknown_error

-- The bridge with a connection to the cloud on which the text has been sent.
abbrev pub asked : Bytes → CloudBridge → CloudBridge
asked content b = record b {
  socket_to_cloud = record (b.socket_to_cloud) {
    is_connected = true;
    sent = b.socket_to_cloud.sent ++ (content ∷ []);
  };
}

abbrev pub logged : Bool → CloudBridge → CloudBridge
logged true b = record b { is_loggeed = true }
logged false b = b

-- The wait for the answer is over when a receive call returns more than a second after the start.
wait_login-ends :
    (start_time : ℕ) (received : Bytes) (rounds : List (Option Bytes × ℕ)) (came : Option Bytes)
    (now : ℕ)
    → 1000 < elapsed now start_time
    → (answer : Bytes) × (wait_login start_time received (rounds ++ ((came, now) ∷ []))
        ≡ some answer)
unfolding wait_login
wait_login-ends start_time (x ∷ received) rounds came now late = (x ∷ received, refl)
wait_login-ends start_time [] [] came now late =
    ((recvive_data came []).1, rw (lt→ltb 1000 (elapsed now start_time) late) refl)
wait_login-ends start_time [] ((came1, now1) ∷ rounds) came now late =
    elim (Bool-cases (ltb 1000 (elapsed now1 start_time))) [
      | inl over ↦ ((recvive_data came1 []).1, rw over refl)
      | inr early ↦
          let (answer, e) =
            wait_login-ends start_time (recvive_data came1 []).1 rounds came now late in
          (answer, rw early e)
    ]

module _ (J : Jansson) where
  -- A login on a connection that was made returns, where the text of the register command can be made and a
  -- receive call returns more than a second after the start. It sends the text, and it has no error and marks
  -- the bridge exactly if the first bytes that the loop takes are "Success". Otherwise it returns the unknown
  -- error, whether the password is wrong, the time is up or the connection is closed.
  pub login-outcome :
      (id password : Bytes) (start_time : ℕ) (rounds : List (Option Bytes × ℕ))
      (came : Option Bytes) (now : ℕ) (b : CloudBridge) (content : Bytes)
      → register_text J (load_json_data J register_template) id password ≡ some content
      → 1000 < elapsed now start_time
      → (answer : Bytes) × (wait_login start_time [] (rounds ++ ((came, now) ∷ [])) ≡ some answer)
        × (login J true id password start_time (rounds ++ ((came, now) ∷ [])) b
            ≡ some (
              outcome (str_eq answer (codes "Success")),
              logged (str_eq answer (codes "Success")) (asked content b),
            ))
  unfolding login check_login_info connect send_string login_error
  login-outcome id password start_time rounds came now b content e late =
      let (answer, w) = wait_login-ends start_time [] rounds came now late in
      (
        answer,
        w,
        elim (Bool-cases (str_eq answer (codes "Success"))) [
          | inl t ↦ rw (e, w, t) refl
          | inr t ↦ rw (e, w, t) refl
        ],
      )
