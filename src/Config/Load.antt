-- ===== src/Config/Load.antt =====
-- A configuration is read back from the text of its values (IoTRepublicPlus/main.cpp, LoadConfigFile).
use io_trepublic_plus.Base.{
  ◌≡◌, refl, ap, ◌∙◌, some, [], ◌∷◌, append-nil, Bytes, codes, All, str_eq, >>=_at,
}
use io_trepublic_plus.Base.Int.{ℤ}
use io_trepublic_plus.Base.Decimal.{int_to_string, stoi}
use io_trepublic_plus.Base.Decimal.RoundTrip.{IsInt, stoi-int_to_string}
use io_trepublic_plus.Json.{Jansson, load_json_data}
use io_trepublic_plus.Json.Laws.{
  Fields, IsDistinct, IsLawful, IsPlain, IsRecord, PlainFields, loads-IsRecord, lookup, names,
  object_text, value-IsRecord,
}
use io_trepublic_plus.Json.Text.{object_text-IsText}
use io_trepublic_plus.Config.{
  ManagerConfig, entries, int_at, load_config_file, read_text_file_to_vector, solid,
}

-- The entries of a configuration, in the order in which they are read.
abbrev pub fields_of : ManagerConfig → Fields
fields_of c =
    (codes "BrocastServer", int_to_string c.brocast_server)
    ∷ (codes "IoTManager", int_to_string c.io_t_manager)
    ∷ (codes "XBeeBroker", int_to_string c.xbee_broker)
    ∷ (codes "FakeBroker", int_to_string c.fake_broker)
    ∷ (codes "CloudBridge", int_to_string c.cloud_bridge)
    ∷ (codes "CloudUploader", int_to_string c.cloud_uploader)
    ∷ (codes "ManagerPort", int_to_string c.manager_port)
    ∷ (codes "BrocastPort", int_to_string c.brocast_port)
    ∷ (codes "MaxReceiveBuffer", int_to_string c.max_receive_buffer)
    ∷ (codes "MaxClientOfManager", int_to_string c.max_client_of_manager)
    ∷ (codes "RulerActionFrequency", int_to_string c.ruler_action_frequency)
    ∷ (codes "ManagerIp", c.manager_ip)
    ∷ (codes "CloudLoginId", c.cloud_login_id)
    ∷ (codes "CloudLoginPw", c.cloud_login_pw)
    ∷ (codes "XBeeBrokerName", c.xbee_broker_name)
    ∷ (codes "XBeeComNumber", int_to_string c.xbee_com_number)
    ∷ (codes "XBeeBaudRate", int_to_string c.xbee_baud_rate)
    ∷ (codes "CloudBridgeName", c.cloud_bridge_name)
    ∷ (codes "CloudServerIp", c.cloud_server_ip)
    ∷ (codes "CloudServerPort", int_to_string c.cloud_server_port)
    ∷ (codes "CloudUploaderName", c.cloud_uploader_name)
    ∷ (codes "WebServerUrl", c.web_server_url)
    ∷ []

-- The numbers fit an `int`.
pub record HasInts (c : ManagerConfig) : Type 0 where
  pub brocast_server : IsInt c.brocast_server
  pub io_t_manager : IsInt c.io_t_manager
  pub xbee_broker : IsInt c.xbee_broker
  pub fake_broker : IsInt c.fake_broker
  pub cloud_bridge : IsInt c.cloud_bridge
  pub cloud_uploader : IsInt c.cloud_uploader
  pub manager_port : IsInt c.manager_port
  pub brocast_port : IsInt c.brocast_port
  pub max_receive_buffer : IsInt c.max_receive_buffer
  pub max_client_of_manager : IsInt c.max_client_of_manager
  pub ruler_action_frequency : IsInt c.ruler_action_frequency
  pub xbee_com_number : IsInt c.xbee_com_number
  pub xbee_baud_rate : IsInt c.xbee_baud_rate
  pub cloud_server_port : IsInt c.cloud_server_port

module _ (J : Jansson) where
  open J use {Json}

  int_at-IsRecord :
      (root : Json) (name k : Bytes) (z : ℤ) (fs : Fields)
      → IsRecord J root name fs
      → lookup k fs ≡ some (int_to_string z)
      → IsInt z
      → int_at J (some root) k ≡ some z
  unfolding int_at
  int_at-IsRecord root name k z fs r at int =
      >>=_at stoi (value-IsRecord J root name k (int_to_string z) fs r at)
      ∙ stoi-int_to_string z int

  entries-IsRecord :
      (root : Json) (name : Bytes) (c : ManagerConfig)
      → IsRecord J root name (fields_of c)
      → HasInts c
      → entries J (some root) ≡ some c
  unfolding entries str_eq
  entries-IsRecord root name c r h =
      let int = λ (k : Bytes) (z : ℤ). int_at-IsRecord root name k z (fields_of c) r in
      let text = λ (k v : Bytes). value-IsRecord J root name k v (fields_of c) r in
      >>=_at _ (int (codes "BrocastServer") c.brocast_server refl h.brocast_server)
      ∙ >>=_at _ (int (codes "IoTManager") c.io_t_manager refl h.io_t_manager)
      ∙ >>=_at _ (int (codes "XBeeBroker") c.xbee_broker refl h.xbee_broker)
      ∙ >>=_at _ (int (codes "FakeBroker") c.fake_broker refl h.fake_broker)
      ∙ >>=_at _ (int (codes "CloudBridge") c.cloud_bridge refl h.cloud_bridge)
      ∙ >>=_at _ (int (codes "CloudUploader") c.cloud_uploader refl h.cloud_uploader)
      ∙ >>=_at _ (int (codes "ManagerPort") c.manager_port refl h.manager_port)
      ∙ >>=_at _ (int (codes "BrocastPort") c.brocast_port refl h.brocast_port)
      ∙ >>=_at _ (int (codes "MaxReceiveBuffer") c.max_receive_buffer refl h.max_receive_buffer)
      ∙ >>=_at _
          (int (codes "MaxClientOfManager") c.max_client_of_manager refl h.max_client_of_manager)
      ∙ >>=_at _ (
          int (codes "RulerActionFrequency") c.ruler_action_frequency refl h.ruler_action_frequency)
      ∙ >>=_at _ (text (codes "ManagerIp") c.manager_ip refl)
      ∙ >>=_at _ (text (codes "CloudLoginId") c.cloud_login_id refl)
      ∙ >>=_at _ (text (codes "CloudLoginPw") c.cloud_login_pw refl)
      ∙ >>=_at _ (text (codes "XBeeBrokerName") c.xbee_broker_name refl)
      ∙ >>=_at _ (int (codes "XBeeComNumber") c.xbee_com_number refl h.xbee_com_number)
      ∙ >>=_at _ (int (codes "XBeeBaudRate") c.xbee_baud_rate refl h.xbee_baud_rate)
      ∙ >>=_at _ (text (codes "CloudBridgeName") c.cloud_bridge_name refl)
      ∙ >>=_at _ (text (codes "CloudServerIp") c.cloud_server_ip refl)
      ∙ >>=_at _ (int (codes "CloudServerPort") c.cloud_server_port refl h.cloud_server_port)
      ∙ >>=_at _ (text (codes "CloudUploaderName") c.cloud_uploader_name refl)
      ∙ >>=_at _ (text (codes "WebServerUrl") c.web_server_url refl)

fields_of-IsDistinct : (c : ManagerConfig) → IsDistinct (names (fields_of c))
unfolding str_eq
fields_of-IsDistinct c = (
  refl,
  (
    refl,
    (
      refl,
      (
        refl,
        (
          refl,
          (
            refl,
            (
              refl,
              (
                refl,
                (
                  refl,
                  (
                    refl,
                    (
                      refl,
                      (
                        refl,
                        (
                          refl,
                          (
                            refl,
                            (refl, (refl, (refl, (refl, (refl, (refl, (refl, (refl, tt)))))))),
                          ),
                        ),
                      ),
                    ),
                  ),
                ),
              ),
            ),
          ),
        ),
      ),
    ),
  ),
)

module _ (J : Jansson) (L : IsLawful J) where
  -- A file that is, white space aside, the text of an object of one key with the entries of a configuration,
  -- whose numbers fit an `int` and whose texts need no escapes, is loaded as this configuration, every
  -- entry of it, whatever stood there before.
  pub load_config_file-fields_of :
      (name file : Bytes) (c old : ManagerConfig)
      → All IsPlain name
      → PlainFields (fields_of c)
      → HasInts c
      → solid file ≡ object_text name (fields_of c)
      → load_config_file J (some file) old ≡ some c
  unfolding load_config_file read_text_file_to_vector
  load_config_file-fields_of name file c old plain texts ints same =
      let (root, e, r, sound) =
        loads-IsRecord J L name (fields_of c) plain texts (fields_of-IsDistinct c)
          (object_text-IsText name (fields_of c) plain texts) in
      ap (λ read. entries J (load_json_data J read)) (append-nil (solid file) ∙ same)
      ∙ ap (entries J) e
      ∙ entries-IsRecord J root name c r ints
