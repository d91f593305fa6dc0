-- ===== src/Manager/Answer.antt =====
-- The answer to a request for an address: handlePackage of IoTRepublicPlus/IoT/IoTManager.cpp, and
-- what a client makes of it with the receiver of IoTUtility.cpp.
use io_trepublic_plus.Base.{
  ℕ, ◌+◌, ◌^◌, ◌<◌, ◌≤◌, ◌≡◌, refl, ap, ◌∙◌, false, some, [], ◌∷◌, ◌++◌, append-nil, Bytes, codes,
  length, get_elem?, All, All-append, All-weaken, arith, lt→ltb, str_eq,
}
use io_trepublic_plus.Base.Int.{pos, to_int, to_int_small}
use io_trepublic_plus.Base.Decimal.{
  to_string, int_to_string-pos, to_string-IsDigit, IsDigit, length-to_string-le,
}
use io_trepublic_plus.Package.{
  IoTPackage, protocol_version, package_of_string, package_of_vector, other_columns,
}
use io_trepublic_plus.Package.Checksum.SignedBytes.{IsAscii}
use io_trepublic_plus.Framing.{get_completed_package}
use io_trepublic_plus.Framing.Columns.{IsText}
use io_trepublic_plus.Framing.Sent.{received}
use io_trepublic_plus.Framing.RoundTrip.{get_completed_package-package_of_string}
use io_trepublic_plus.Json.{Jansson}
use io_trepublic_plus.Manager.State.{
  Manager, prefix, server_iot_ip, is_empty, send_on, send_data_to_exists_connection,
}
use io_trepublic_plus.Manager.Devices.{get_new_iot_ip}
use io_trepublic_plus.Manager.Handle.{answer_ip_request, dispatch, manager_utility}
use io_trepublic_plus.Manager.Stream.{Message, IsSendable, wire_of, wire-two}

-- The address with a number.
abbrev pub address : ℕ → Bytes
address n = prefix ++ to_string n

abbrev pub address_message : ℕ → Message
address_message n = record { so_ip = server_iot_ip; des_ip = address n; content = [] }

small_int : to_int 0 ≡ pos 0
small_int = to_int_small 0 (omega arith)

address-columns :
    (n : ℕ)
    → n < 2 ^ 31
    → (20 ≤ other_columns protocol_version server_iot_ip (address n) (to_int 0))
      × (other_columns protocol_version server_iot_ip (address n) (to_int 0) ≤ 40)
unfolding to_string
address-columns n h =
    rw (small_int, int_to_string-pos 0)
      (
        omega (arith, length-to_string-le n h),
        omega (arith, length-to_string-le n h, length-to_string-le 0 (omega arith)),
      )

address-digits :
    (P : ℕ → Type 0) (n : ℕ) → ((c : ℕ) → IsDigit c → P c) → All P prefix → All P (address n)
address-digits P n f h =
    All-append P prefix (to_string n) h (All-weaken IsDigit P (to_string n) f (to_string-IsDigit n))

pub address-IsSendable : (n : ℕ) → n < 2 ^ 31 → IsSendable (address_message n)
address-IsSendable n h =
    let (lo, hi) = address-columns n h in
    record {
      message = record {
        ver_text = ground arith;
        so_text = ground arith;
        des_text = address-digits IsText n (λ c k. omega arith) (ground arith);
        guessed = ((λ q. omega (arith, lo, hi)), (λ q. omega (arith, lo, hi)), omega (arith, hi));
        fits = omega (arith, hi);
      };
      ascii =
          All-append IsAscii protocol_version (server_iot_ip ++ (address n ++ [])) (ground arith) (
            All-append IsAscii server_iot_ip (address n ++ []) (ground arith) (
              All-append IsAscii (address n) []
                (address-digits IsAscii n (λ c k. omega arith) (ground arith)) tt));
    }

pub non_empty : (xs : Bytes) → 0 < length xs → is_empty xs ≡ false
non_empty [] h = elim h [ ]
non_empty (x ∷ xs) h = refl

send-open :
    (socket_index socket : ℕ) (bytes : Bytes) (m : Manager)
    → get_elem? m.client_sockets socket_index ≡ some socket
    → 0 < socket
    → 0 < length bytes
    → send_data_to_exists_connection socket_index bytes m
      ≡ some (record m { sent = m.sent ++ ((socket, bytes) ∷ []) })
unfolding send_data_to_exists_connection send_on
send-open socket_index socket bytes m e h k = rw (e, lt→ltb 0 socket h, non_empty bytes k) refl

dispatch-request :
    (J : Jansson) (socket_index : ℕ) (pkg : IoTPackage) (m : Manager)
    → pkg.sor_ip ≡ codes "0"
    → pkg.des_ip ≡ codes "0"
    → m.ip_count < 2 ^ 31
    → dispatch J socket_index pkg m
      ≡ send_data_to_exists_connection socket_index
          (wire_of (address_message m.ip_count))
          (record m { ip_count = m.ip_count + 1 })
unfolding dispatch answer_ip_request get_new_iot_ip package_of_vector package_of_string str_eq
dispatch-request J socket_index pkg m from to h =
    rw (from, to, to_int_small m.ip_count h, int_to_string-pos m.ip_count) refl

-- On an open connection a request for an address is answered by one package. It goes to that
-- connection and nothing else but the count changes; whatever follows it there, the client's
-- receiver returns a package from "Master" to the new address, "DEV." and the count.
pub answer_ip_request-received :
    (J : Jansson) (socket_index socket : ℕ) (pkg : IoTPackage) (m : Manager) (rest : Bytes)
    → pkg.sor_ip ≡ codes "0"
    → pkg.des_ip ≡ codes "0"
    → get_elem? m.client_sockets socket_index ≡ some socket
    → 0 < socket
    → m.ip_count < 2 ^ 31
    → length (wire_of (address_message m.ip_count) ++ rest) < 2 ^ 31
    → (dispatch J socket_index pkg m
        ≡ some (record m {
          ip_count = m.ip_count + 1;
          sent = m.sent ++ ((socket, wire_of (address_message m.ip_count)) ∷ []);
        }))
      × (get_completed_package manager_utility (wire_of (address_message m.ip_count) ++ rest)
          ≡ some (received protocol_version server_iot_ip (address m.ip_count) [] rest))
answer_ip_request-received J socket_index socket pkg m rest from to at positive h short =
    let s = address-IsSendable m.ip_count h in
    let bytes = wire_of (address_message m.ip_count) in
    (
      dispatch-request J socket_index pkg m from to h
          ∙ send-open socket_index socket bytes (record m { ip_count = m.ip_count + 1 }) at positive
              (omega
                (arith, wire-two (address_message m.ip_count) [] s, ap length (append-nil bytes))),
      get_completed_package-package_of_string protocol_version server_iot_ip (address m.ip_count) []
          rest 0 s.message s.ascii short,
    )
