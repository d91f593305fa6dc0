-- ===== src/Uploader/StartUp/Answered.antt =====
-- What the uploader makes of the manager's answer to its request for the list of devices:
-- waitIoTPackage and getAllDeviceDescription of IoTRepublicPlus/Broker/CloudUploader.cpp with
-- commandHandler of IoTRepublicPlus/IoT/IoTManager.cpp.
use io_trepublic_plus.Base.{
  ℕ, ◌<◌, ◌≤◌, ◌^◌, ◌/◌, ◌%◌, ◌≡◌, ◌≢◌, ◌⊎◌, inl, inr, refl, sym, ap, subst, ◌∙◌, Bool-cases,
  Option, none, some, List, [], ◌∷◌, ◌++◌, Bytes, codes, length, All, append_assoc, append-nil, ltb,
  lt→ltb, le→not-ltb, if◌then◌else◌, ◌>>=◌, arith, str_eq,
}
use io_trepublic_plus.Package.{
  IoTPackage, package_of_string, package_of_vector, packet_to_sending_vector, protocol_version,
  segment_symbol,
}
use io_trepublic_plus.Framing.{get_completed_package}
use io_trepublic_plus.Framing.Columns.{symbols, symbols-append}
use io_trepublic_plus.Framing.Frame.{body}
use io_trepublic_plus.Framing.Sent.{frame_of, frame_of-IsFrame, wire-frame, received, folded}
use io_trepublic_plus.Framing.Incomplete.{
  WaitsForHeader, WaitsForRest, incomplete-cases, whole_header-symbols,
}
use io_trepublic_plus.Framing.RoundTrip.{get_completed_package-package_of_string}
use io_trepublic_plus.Json.{Jansson}
use io_trepublic_plus.Command.{IoTCommand}
use io_trepublic_plus.Manager.State.{Manager, server_iot_ip, send_data_to_exists_connection}
use io_trepublic_plus.Manager.Devices.{encode_all_registed_devices}
use io_trepublic_plus.Manager.Handle.{command_handler}
use io_trepublic_plus.Manager.Stream.{Message, IsSendable, wire_of, sent_package}
use io_trepublic_plus.Broker.Ask.{joined, nil_cases}
use io_trepublic_plus.Uploader.{Uploader, uploader_utility}
use io_trepublic_plus.Uploader.DeviceList.{
  IsListed, described_devices, save_all_device_description-encode_all_registed_devices,
}
use io_trepublic_plus.Uploader.StartUp.{
  wait_from, wait_iot_package, device_request, get_all_device_description, send_data,
}

-- Receive calls that all return in time.
abbrev pub in_time : List Bytes → List (Option Bytes)
in_time [] = []
in_time (c ∷ cs) = some c ∷ in_time cs

module _ (x : Message) (s : IsSendable x) (short : length (wire_of x) < 2 ^ 31) where
  abbrev sum : ℕ
  sum = folded protocol_version x.so_ip x.des_ip x.content s.message

  wire-end :
      wire_of x
      ≡ body (frame_of protocol_version x.so_ip x.des_ip x.content)
        ++ (sum / 256 % 256 ∷ sum % 256 ∷ [])
  wire-end =
      sym (append-nil (wire_of x))
      ∙ wire-frame protocol_version x.so_ip x.des_ip x.content s.message []

  front-cases :
      (pre suf : Bytes)
      → pre ++ suf ≡ wire_of x
      → suf ≢ []
      → ((symbols pre < 5) × WaitsForHeader segment_symbol protocol_version pre)
        ⊎ ((5 ≤ symbols pre) × WaitsForRest segment_symbol protocol_version pre)
  front-cases pre suf e more =
      incomplete-cases (frame_of protocol_version x.so_ip x.des_ip x.content)
        (frame_of-IsFrame protocol_version x.so_ip x.des_ip x.content s.message) _ _ pre suf
        segment_symbol (e ∙ wire-end) more

  wire-symbols : 5 ≤ symbols (wire_of x)
  wire-symbols =
      let f = frame_of protocol_version x.so_ip x.des_ip x.content in
      omega (
        arith,
        ap symbols wire-end,
        symbols-append (body f) _,
        whole_header-symbols f
            (frame_of-IsFrame protocol_version x.so_ip x.des_ip x.content s.message) x.content,
      )

  whole-received :
      get_completed_package uploader_utility (wire_of x)
      ≡ some (received protocol_version x.so_ip x.des_ip x.content [])
  whole-received =
      ap (get_completed_package uploader_utility) (sym (append-nil (wire_of x)))
      ∙ get_completed_package-package_of_string protocol_version x.so_ip x.des_ip x.content []
          segment_symbol s.message s.ascii
          (subst (λ w. length w < 2 ^ 31) (sym (append-nil (wire_of x))) short)

  -- Once the header is in, the loop waits for the rest.
  wait_from-rest :
      (result : Option IoTPackage) (buffer : Bytes) (cs : List Bytes)
      → 5 ≤ symbols buffer
      → joined cs ≢ []
      → buffer ++ joined cs ≡ wire_of x
      → wait_from result buffer (in_time cs) ≡ some (some (sent_package x))
  unfolding wait_from
  wait_from-rest result buffer [] h more split = absurd (more refl)
  wait_from-rest result buffer (c ∷ cs) h more split =
      let whole : (buffer ++ c) ++ joined cs ≡ wire_of x =
        append_assoc buffer c (joined cs) ∙ split in
      elim (nil_cases (joined cs)) [
        | inl last ↦
            let all : buffer ++ c ≡ wire_of x =
              sym (append-nil (buffer ++ c)) ∙ ap (λ r. (buffer ++ c) ++ r) (sym last) ∙ whole in
            rw (all, whole-received) refl
        | inr left ↦
            let enough : 5 ≤ symbols (buffer ++ c) = omega (arith, symbols-append buffer c) in
            elim (front-cases (buffer ++ c) (joined cs) whole left) [
              | inl (few, _) ↦ absurd (omega arith)
              | inr (_, waits) ↦
                  rw (waits, wait_from) (wait_from-rest none (buffer ++ c) cs enough left whole)
            ]
      ]

  abbrev first_part : Bytes → Option IoTPackage
  first_part c = if ltb (symbols c) 5 then none else some (sent_package x)

  wait_iot_package-wire :
      (c : Bytes) (cs : List Bytes)
      → joined (c ∷ cs) ≡ wire_of x
      → wait_iot_package (in_time (c ∷ cs)) ≡ some (first_part c)
  unfolding wait_iot_package wait_from
  wait_iot_package-wire c cs whole = elim (nil_cases (joined cs)) [
    | inl last ↦
        let all : c ≡ wire_of x = sym (append-nil c) ∙ ap (λ r. c ++ r) (sym last) ∙ whole in
        rw (all, whole-received, le→not-ltb (symbols (wire_of x)) 5 wire-symbols) refl
    | inr left ↦ elim (front-cases c (joined cs) whole left) [
      | inl (few, (error, inl h, waits)) ↦ rw (waits, h, lt→ltb (symbols c) 5 few) refl
      | inl (few, (error, inr h, waits)) ↦ rw (waits, h, lt→ltb (symbols c) 5 few) refl
      | inr (enough, waits) ↦
          rw (waits, le→not-ltb (symbols c) 5 enough, wait_from)
            (wait_from-rest none c cs enough left whole)
    ]
  ]

-- The manager's answer to a request for the list of devices.
abbrev pub list_message : Bytes → Manager → Message
list_message ip m = record {
  so_ip = server_iot_ip;
  des_ip = ip;
  content = encode_all_registed_devices m.registed_devices;
}

-- The command "Dis_All" is answered on its connection with one package from "Master" to the sender. Let
-- nothing but that package come in at the uploader that asks, cut anywhere into parts that all come
-- in time, and let no address and no description have a '\0' in it. If the first part has the five
-- '\0' of the header, the uploader then has the manager's devices, the same in the same order, each
-- described by its own text, and it fails exactly where one of the texts cannot be read. If not, it
-- gives up and has sent its request for nothing: its list stays as it was.
pub get_all_device_description-answered :
    (J : Jansson) (m : Manager) (socket_index : ℕ) (cmd : IoTCommand) (pkg : IoTPackage)
    (u : Uploader) (request c : Bytes) (cs : List Bytes)
    → cmd.id ≡ codes "Dis_All"
    → pkg.sor_ip ≡ u.self_iot_ip
    → device_request J u ≡ some request
    → All IsListed m.registed_devices
    → IsSendable (list_message u.self_iot_ip m)
    → length (wire_of (list_message u.self_iot_ip m)) < 2 ^ 31
    → joined (c ∷ cs) ≡ wire_of (list_message u.self_iot_ip m)
    → (command_handler J socket_index cmd pkg m
        ≡ send_data_to_exists_connection socket_index (wire_of (list_message u.self_iot_ip m)) m)
      × (get_all_device_description J (in_time (c ∷ cs)) u ≡ (
          if ltb (symbols c) 5
          then some (send_data request u)
          else described_devices J m.registed_devices >>= λ devices.
              some (record (send_data request u) { all_devices = devices })))
unfolding command_handler get_all_device_description package_of_vector package_of_string str_eq
    packet_to_sending_vector
get_all_device_description-answered J m socket_index cmd pkg u request c cs id from asked listed s
      short whole =
    let x = list_message u.self_iot_ip m in
    (
      rw (id, from) refl,
      rw (asked, wait_iot_package-wire x s short c cs whole)
          (elim (Bool-cases (ltb (symbols c) 5)) [
            | inl few ↦ rw few refl
            | inr enough ↦ rw enough (
                save_all_device_description-encode_all_registed_devices J m.registed_devices
                  (sent_package x) (send_data request u) listed refl)
          ]),
    )
