-- ===== src/Tests/ServerRuns.antt =====
-- A run of the server's loop: a client leaves, another one comes.
use io_trepublic_plus.Base.{◌≡◌, refl, Option, none, some, List, [], ◌∷◌, ◌||◌, ◌==◌, codes, str_eq}
use io_trepublic_plus.Framing.{get_completed_package, is_valid_package}
use io_trepublic_plus.Manager.Devices.{
  erase_at, find_device_index_by_iot_ip, is_socket_index_exists_any_device,
  remove_device_by_socket_index,
}
use io_trepublic_plus.Manager.Rules.{is_stale, notice_reload_device_list, remove_rule}
use io_trepublic_plus.Manager.Denied.{without}
use io_trepublic_plus.Server.{
  new_server, place_socket, Round, ServerState, add_socket, cut_connection, select_of, serve_client,
  serve_from, server_loop, server_round,
}
use io_trepublic_plus.Base.Int.{pos}
use io_trepublic_plus.Manager.Handle.{
  event_connection_denied, event_received_data, handle_package, handle_loop,
}
use io_trepublic_plus.Tests.{no_json}
use io_trepublic_plus.Tests.Managers.{busy_manager, busy_state}

abbrev busy_server : ServerState
busy_server = record {
  state = busy_state;
  listener = 3;
  max_client = 2;
  master = 6 ∷ 5 ∷ 3 ∷ [];
  fdmax = 6;
  closed = [];
}

-- Descriptor 6 is at its end; the socket 7 finds no place.
abbrev leaving : Round
leaving = record { is_ready = λ fd. (fd == 3) || (fd == 6); accepted = some 7; received = λ fd. [] }

-- The socket 8 takes the place that is free, and descriptor 5 has a byte.
abbrev coming : Round
coming = record {
  is_ready = λ fd. (fd == 3) || (fd == 5);
  accepted = some 8;
  received = λ fd. codes "I";
}

abbrev rounds : List (Option Round)
rounds = some leaving ∷ some coming ∷ none ∷ some leaving ∷ []

abbrev left_server : ServerState
left_server = record {
  state = record {
    manager = record (without 1 busy_manager) { client_sockets = 5 ∷ 8 ∷ [] };
    package_buffer = codes "I" ∷ codes "IUD" ∷ [];
  };
  listener = 3;
  max_client = 2;
  master = 8 ∷ 5 ∷ 3 ∷ [];
  fdmax = 8;
  closed = 6 ∷ [];
}

rounds-left : server_loop no_json rounds busy_server ≡ some left_server
unfolding server_loop server_round serve_from serve_client cut_connection add_socket select_of
    event_connection_denied event_received_data handle_package handle_loop
    is_socket_index_exists_any_device remove_device_by_socket_index notice_reload_device_list
    is_stale find_device_index_by_iot_ip erase_at str_eq remove_rule get_completed_package
    is_valid_package
rounds-left = refl

abbrev started : ServerState
started = new_server 3 2 (pos 1000)

-- The first client comes.
abbrev arrival : Round
arrival = record { is_ready = λ fd. fd == 3; accepted = some 5; received = λ fd. [] }

abbrev talking : Round
talking = record { is_ready = λ fd. fd == 5; accepted = none; received = λ fd. codes "I" }

abbrev one_client : ServerState
one_client = place_socket 0 5 started

abbrev one_byte : ServerState
one_byte = record one_client {
  state = record (one_client.state) { package_buffer = codes "I" ∷ [] ∷ [] };
}

-- A client with a smaller descriptor came after descriptor 9, which is ready and is not reported.
abbrev hiding : ServerState
hiding = place_socket 1 5 (place_socket 0 9 started)

abbrev both_ready : Round
both_ready = record {
  is_ready = λ fd. (fd == 9) || (fd == 5);
  accepted = none;
  received = λ fd. [];
}

hiding-reported : select_of both_ready hiding ≡ (5 ∷ [])
unfolding select_of
hiding-reported = refl
