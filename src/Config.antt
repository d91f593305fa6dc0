-- ===== src/Config.antt =====
-- The configuration of the program: ManagerConfig of IoTRepublicPlus/main.h, LoadConfigFile of
-- IoTRepublicPlus/main.cpp, and ReadTextFileToVector of IoTRepublicPlus/Utility/SystemUtility.cpp.
pub mod Load
use io_trepublic_plus.Base.{
  Bool, false, true, Option, none, some, [], ◌++◌, Bytes, codes, filter, not, if◌then◌else◌, ◌>>=◌,
}
use io_trepublic_plus.Base.Int.{ℤ, pos}
use io_trepublic_plus.Base.Decimal.{is_space, stoi}
use io_trepublic_plus.Json.{Jansson, get_value_in_first_object, load_json_data}

pub record ManagerConfig : Type 0 where
  pub brocast_server : ℤ
  pub io_t_manager : ℤ
  pub xbee_broker : ℤ
  pub fake_broker : ℤ
  pub cloud_bridge : ℤ
  pub cloud_uploader : ℤ
  pub manager_port : ℤ
  pub brocast_port : ℤ
  pub max_receive_buffer : ℤ
  pub max_client_of_manager : ℤ
  pub ruler_action_frequency : ℤ
  pub manager_ip : Bytes
  pub cloud_login_id : Bytes
  pub cloud_login_pw : Bytes
  pub xbee_broker_name : Bytes
  pub xbee_com_number : ℤ
  pub xbee_baud_rate : ℤ
  pub cloud_bridge_name : Bytes
  pub cloud_server_ip : Bytes
  pub cloud_server_port : ℤ
  pub cloud_uploader_name : Bytes
  pub web_server_url : Bytes

-- As it is declared.
abbrev pub default_config : ManagerConfig
default_config = record {
  brocast_server = pos 0;
  io_t_manager = pos 0;
  xbee_broker = pos 0;
  fake_broker = pos 0;
  cloud_bridge = pos 0;
  cloud_uploader = pos 0;
  manager_port = pos 0;
  brocast_port = pos 0;
  max_receive_buffer = pos 0;
  max_client_of_manager = pos 0;
  ruler_action_frequency = pos 0;
  manager_ip = [];
  cloud_login_id = [];
  cloud_login_pw = [];
  xbee_broker_name = [];
  xbee_com_number = pos 0;
  xbee_baud_rate = pos 0;
  cloud_bridge_name = [];
  cloud_server_ip = [];
  cloud_server_port = pos 0;
  cloud_uploader_name = [];
  web_server_url = [];
}

-- What `istream_iterator<char>` gives of a file: it skips the white space.
abbrev pub solid : Bytes → Bytes
solid file = filter (λ c. not (is_space c)) file

-- `ReadTextFileToVector`, with the file's bytes, or none where it cannot be opened.
unfoldable pub read_text_file_to_vector : Option Bytes → Bytes → Bool × Bytes
read_text_file_to_vector none vector = (false, vector)
read_text_file_to_vector (some file) vector = (true, solid file ++ vector)

module _ (J : Jansson) where
  open J use {Json}

  unfoldable pub int_at : Option Json → Bytes → Option ℤ
  int_at root key = get_value_in_first_object J root key >>= stoi

  -- The entries are read in the order of the code, which throws at the first that is missing or no number.
  unfoldable pub entries : Option Json → Option ManagerConfig
  unfolding int_at
  entries root = do
    brocast_server ← int_at root (codes "BrocastServer")
    io_t_manager ← int_at root (codes "IoTManager")
    xbee_broker ← int_at root (codes "XBeeBroker")
    fake_broker ← int_at root (codes "FakeBroker")
    cloud_bridge ← int_at root (codes "CloudBridge")
    cloud_uploader ← int_at root (codes "CloudUploader")
    manager_port ← int_at root (codes "ManagerPort")
    brocast_port ← int_at root (codes "BrocastPort")
    max_receive_buffer ← int_at root (codes "MaxReceiveBuffer")
    max_client_of_manager ← int_at root (codes "MaxClientOfManager")
    ruler_action_frequency ← int_at root (codes "RulerActionFrequency")
    manager_ip ← get_value_in_first_object J root (codes "ManagerIp")
    cloud_login_id ← get_value_in_first_object J root (codes "CloudLoginId")
    cloud_login_pw ← get_value_in_first_object J root (codes "CloudLoginPw")
    xbee_broker_name ← get_value_in_first_object J root (codes "XBeeBrokerName")
    xbee_com_number ← int_at root (codes "XBeeComNumber")
    xbee_baud_rate ← int_at root (codes "XBeeBaudRate")
    cloud_bridge_name ← get_value_in_first_object J root (codes "CloudBridgeName")
    cloud_server_ip ← get_value_in_first_object J root (codes "CloudServerIp")
    cloud_server_port ← int_at root (codes "CloudServerPort")
    cloud_uploader_name ← get_value_in_first_object J root (codes "CloudUploaderName")
    web_server_url ← get_value_in_first_object J root (codes "WebServerUrl")
    some (record {
      brocast_server = brocast_server;
      io_t_manager = io_t_manager;
      xbee_broker = xbee_broker;
      fake_broker = fake_broker;
      cloud_bridge = cloud_bridge;
      cloud_uploader = cloud_uploader;
      manager_port = manager_port;
      brocast_port = brocast_port;
      max_receive_buffer = max_receive_buffer;
      max_client_of_manager = max_client_of_manager;
      ruler_action_frequency = ruler_action_frequency;
      manager_ip = manager_ip;
      cloud_login_id = cloud_login_id;
      cloud_login_pw = cloud_login_pw;
      xbee_broker_name = xbee_broker_name;
      xbee_com_number = xbee_com_number;
      xbee_baud_rate = xbee_baud_rate;
      cloud_bridge_name = cloud_bridge_name;
      cloud_server_ip = cloud_server_ip;
      cloud_server_port = cloud_server_port;
      cloud_uploader_name = cloud_uploader_name;
      web_server_url = web_server_url;
    })

  -- `LoadConfigFile`, with the file's bytes as above. A file that cannot be opened leaves the configuration.
  unfoldable pub load_config_file : Option Bytes → ManagerConfig → Option ManagerConfig
  unfolding read_text_file_to_vector entries
  load_config_file file config =
      let (succeed, read_buffer) = read_text_file_to_vector file [] in
      let loaded = entries (load_json_data J read_buffer) in if succeed then loaded else some config
