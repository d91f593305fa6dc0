-- ===== src/LoRa/Scan/Register.antt =====
-- What ScanAllDevice of IoTRepublicPlus/Broker/LoRaBroker.cpp leaves: the devices that are alive, each
-- registered with the manager.
use io_trepublic_plus.Base.{
  suc, ◌≡◌, refl, sym, ap, ◌∙◌, false, true, Option, some, List, [], ◌∷◌, ◌++◌, append_assoc,
  append-nil, Bytes, length, Returns, Returns-some, Returns-none, Returns-bind,
}
use io_trepublic_plus.Manager.State.{is_empty}
use io_trepublic_plus.Broker.{ask_call}
use io_trepublic_plus.Broker.Known.{ask_call-known}
use io_trepublic_plus.LoRa.{LoRaBroker, LoRaDevice}
use io_trepublic_plus.LoRa.Config.{load_lora_config_file}
use io_trepublic_plus.LoRa.Scan.{
  ask, check_devices, register_devices, registration, scan_all_device, send_to_manager,
}
use io_trepublic_plus.LoRa.Scan.Alive.{alive_devices, check_devices-alive_devices}

-- The devices without their IoT addresses.
abbrev pub nodes : List LoRaDevice → List (Bytes × Bytes)
nodes [] = []
nodes (d ∷ ds) = (d.lora_address, d.device_description) ∷ nodes ds

-- One registration for each device.
abbrev pub registrations : Bytes → List LoRaDevice → List Bytes
registrations manager [] = []
registrations manager (d ∷ ds) = registration manager d ∷ registrations manager ds

-- What the second loop adds to a broker, from the devices that it has left.
pub record Registered (done ds : List LoRaDevice) (b b' : LoRaBroker) : Type 0 where
  pub added : List LoRaDevice
  pub behind_done : b'.lora_devices ≡ done ++ added
  pub same_nodes : nodes added ≡ nodes ds
  pub one_each : b'.sent ≡ b.sent ++ registrations b.manager_iot_ip added
  pub same_manager : b'.manager_iot_ip ≡ b.manager_iot_ip
  pub same_radio : b'.radio ≡ b.radio

-- A call of `askIoTIp` changes only what is known of the manager, and that not when it is known.
record Asked (b : LoRaBroker) (out : Bytes × LoRaBroker) : Type 0 where
  same_sent : out.1.sent ≡ b.sent
  same_manager : out.1.manager_iot_ip ≡ b.manager_iot_ip
  same_radio : out.1.radio ≡ b.radio

ask-Asked : (b : LoRaBroker) → is_empty b.manager_iot_ip ≡ false → Returns (Asked b) (ask b)
unfolding ask
ask-Asked b k = go b.answers
  where
    go :
        (answers : List (Option (List Bytes)))
        → Returns (Asked b) (ask (record b { answers = answers }))
    go [] = Returns-none (Asked b)
    go (answer ∷ answers) = Returns-bind (Asked b) (ask_call b.manager_iot_ip answer) _ λ out e.
        Returns-some (Asked b) _ (record {
          same_sent = refl;
          same_manager = ask_call-known b.manager_iot_ip k answer out e;
          same_radio = refl;
        })

register_devices-Registered :
    (done ds : List LoRaDevice) (b : LoRaBroker)
    → is_empty b.manager_iot_ip ≡ false
    → Returns (Registered done ds b) (register_devices done ds b)
unfolding register_devices
register_devices-Registered done [] b k = Returns-some (Registered done [] b) _ (record {
  added = [];
  behind_done = sym (append-nil done);
  same_nodes = refl;
  one_each = sym (append-nil b.sent);
  same_manager = refl;
  same_radio = refl;
})
register_devices-Registered done (d ∷ ds) b k =
    Returns-bind (Registered done (d ∷ ds) b) (ask b) _ λ out e.
      let asked = ask-Asked b k out e in
      let d1 : LoRaDevice = record d { iot_ip = out.0 } in
      let b2 = send_to_manager (registration out.1.manager_iot_ip d1) out.1 in
      let known : is_empty b2.manager_iot_ip ≡ false = ap is_empty asked.same_manager ∙ k in
      λ b' returned.
        let r = register_devices-Registered (done ++ (d1 ∷ [])) ds b2 known b' returned in
        record {
          added = d1 ∷ r.added;
          behind_done = r.behind_done ∙ append_assoc done (d1 ∷ []) r.added;
          same_nodes = ap (λ ns. (d.lora_address, d.device_description) ∷ ns) r.same_nodes;
          one_each =
              r.one_each
              ∙ append_assoc out.1.sent (registration out.1.manager_iot_ip d1 ∷ [])
                  (registrations out.1.manager_iot_ip r.added)
              ∙ (λ i. asked.same_sent i ++ registrations (asked.same_manager i) (d1 ∷ r.added));
          same_manager = r.same_manager ∙ asked.same_manager;
          same_radio = r.same_radio ∙ asked.same_radio;
        }

-- A scan of the devices that the broker has and those of the file.
pub record Scanned (file : Option Bytes) (b b' : LoRaBroker) : Type 0 where
  pub devices : List LoRaDevice
  pub alive : List LoRaDevice
  pub loaded : load_lora_config_file file b.lora_devices ≡ some devices
  pub answered : alive_devices devices b.radio ≡ some (alive, b'.radio)
  pub kept : nodes b'.lora_devices ≡ nodes alive
  pub one_each : b'.sent ≡ b.sent ++ registrations b.manager_iot_ip b'.lora_devices
  pub idle : b'.now_scanning ≡ false

scan-Scanned :
    (file : Option Bytes) (b : LoRaBroker)
    → is_empty b.manager_iot_ip ≡ false
    → Returns (Scanned file b) (scan_all_device file b)
unfolding scan_all_device
scan-Scanned file b k =
    let P = Scanned file b in
    Returns-bind P (load_lora_config_file file b.lora_devices) _ λ devices e1.
      Returns-bind P (check_devices (suc (length devices)) 0 devices b.radio) _ λ found e2.
        let b1 : LoRaBroker = record b { now_scanning = true; radio = found.1 } in
        Returns-bind P (register_devices [] found.0 b1) _ λ b2 e3.
          let r = register_devices-Registered [] found.0 b1 k b2 e3 in
          Returns-some P _ (record {
            devices = devices;
            alive = found.0;
            loaded = e1;
            answered =
                sym (check_devices-alive_devices devices b.radio)
                ∙ e2
                ∙ ap (λ radio. some (found.0, radio)) (sym r.same_radio);
            kept = ap nodes r.behind_done ∙ r.same_nodes;
            one_each =
                r.one_each
                ∙ ap (λ ds. b.sent ++ registrations b.manager_iot_ip ds) (sym r.behind_done);
            idle = refl;
          })

-- Where ScanAllDevice returns, on a broker that knows its manager, it leaves those of the devices that the
-- broker had and that the file lists which are alive when each is asked once, in their order; it has
-- sent the manager one registration for each, with the address it got for it, in that order and nothing
-- else; and it is not scanning any more.
pub scan_all_device-Scanned :
    (file : Option Bytes) (b b' : LoRaBroker)
    → is_empty b.manager_iot_ip ≡ false
    → scan_all_device file b ≡ some b'
    → Scanned file b b'
scan_all_device-Scanned file b b' k h = scan-Scanned file b k b' h
