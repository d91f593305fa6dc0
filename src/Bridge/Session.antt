-- ===== src/Bridge/Session.antt =====
-- A bridge from its constructor on (IoTRepublicPlus/Broker/CloudBridge.cpp): the login, the start of its
-- threads, and what they pass on.
use io_trepublic_plus.Base.{
  elapsed, ℕ, ◌^◌, ◌<◌, ◌≡◌, refl, sym, ap, ◌∙◌, true, Option, some, some_inj, List, [], ◌∷◌, ◌++◌,
  Bytes, codes, All, length, str_eq, str_eq_iff,
}
use io_trepublic_plus.Json.{Jansson, load_json_data}
use io_trepublic_plus.TcpClient.{connect, new_client, no_network_error}
use io_trepublic_plus.Manager.Stream.{IsSendable, Message, Pending, wire_of, wires}
use io_trepublic_plus.Package.{package_of_string, packet_to_sending_vector}
use io_trepublic_plus.Bridge.{
  CloudBridge, login, manager_start, new_bridge, register_template, register_text, wait_login,
}
use io_trepublic_plus.Bridge.Forward.{each_wire, with_sent}
use io_trepublic_plus.Bridge.Passes.{Plain}
use io_trepublic_plus.Bridge.Relay.{Event, is_steady, manager_started, run, step}
use io_trepublic_plus.Bridge.Forwarded.{cloud_bytes, ready, run-each_wire, to_cloud}
use io_trepublic_plus.Bridge.Login.{asked, login-outcome, logged, outcome}

-- An empty buffer is a front part of any message.
nothing-Pending : (pre : Bytes) → Pending pre → Pending []
unfolding package_of_string packet_to_sending_vector
nothing-Pending pre p = record {
  message = p.message;
  sendable = p.sendable;
  missing = wire_of p.message;
  not_whole = λ q. cc;
  splits = refl;
}

module _ (J : Jansson) where
  -- A bridge that is made, connects to the cloud and is answered "Success" to its login, with a receive call that
  -- returns more than a second after the start, is logged in. When its thread for the manager's connection then
  -- starts and connects, and what comes from the cloud, cut anywhere, holds messages in full, none of them
  -- "discon", and then a front part of one, fewer than 2 ^ 31 bytes in all, then in any order of the rounds of
  -- its threads nothing is thrown, the manager is sent each message, unchanged, once and in order, and
  -- the cloud the login, and then what comes from the manager and a 5 for each five minutes, in their order.
  pub login-run :
      (manager_ip target_ip id password content : Bytes) (manager_port port max start_time now : ℕ)
      (rounds : List (Option Bytes × ℕ)) (came : Option Bytes) (es : List Event) (pre : Bytes)
      (xs : List Message)
      → register_text J (load_json_data J register_template) id password ≡ some content
      → 1000 < elapsed now start_time
      → wait_login start_time [] (rounds ++ ((came, now) ∷ [])) ≡ some (codes "Success")
      → All (λ e. is_steady e ≡ true) es
      → All IsSendable xs
      → Plain xs
      → Pending pre
      → cloud_bytes es ≡ wires xs ++ pre
      → length (cloud_bytes es) < 2 ^ 31
      → (b : CloudBridge) × (login J true id password start_time
            (rounds ++ ((came, now) ∷ []))
            (new_bridge true manager_ip manager_port target_ip port max)
          ≡ some (no_network_error, b))
        × (b.is_loggeed ≡ true)
        × (run (manager_started true true ∷ es) ([], b)
            ≡ some (
              pre,
              ready
                  (with_sent (content ∷ to_cloud es) (new_client true target_ip port max))
                  (with_sent (each_wire xs) (new_client true manager_ip manager_port max))
                  b,
            ))
  unfolding run step manager_start connect new_bridge new_client
  login-run manager_ip target_ip id password content manager_port port max start_time now rounds
        came es pre xs text late success steady s plain p e short =
      let start = new_bridge true manager_ip manager_port target_ip port max in
      let (answer, w, done) =
        login-outcome J id password start_time rounds came now start content text late in
      let yes : str_eq answer (codes "Success") ≡ true =
        (str_eq_iff answer (codes "Success")).1 (some_inj (sym w ∙ success)) in
      let b = logged true (asked content start) in
      (
        b,
        done ∙ ap (λ t. some (outcome t, logged t (asked content start))) yes,
        refl,
        run-each_wire es [] pre xs (with_sent (content ∷ []) (new_client true target_ip port max))
            (new_client true manager_ip manager_port max) b steady s plain (nothing-Pending pre p) p
            e short,
      )
