-- ===== src/LoRa/Config.antt =====
-- loadLoRaConfigFile of IoTRepublicPlus/Broker/LoRaBroker.cpp, on the bytes of the file, or none where it
-- cannot be opened.
pub mod Split
use io_trepublic_plus.Base.{
  ℕ, Option, none, some, List, [], ◌∷◌, ◌++◌, Bytes, ◌==◌, if◌then◌else◌, ◌>>=◌,
}
use io_trepublic_plus.Config.{read_text_file_to_vector}
use io_trepublic_plus.LoRa.{LoRaDevice}

-- `configFileSplitSymbol`, "@"
abbrev pub config_file_split_symbol : ℕ
config_file_split_symbol = 64

-- The loop that splits the source at the symbol, with the part that is being read.
unfoldable pub split_from : Bytes → Bytes → List Bytes
split_from part [] = part ∷ []
split_from part (c ∷ cs) =
    let next = split_from [] cs in
    let longer = split_from (part ++ (c ∷ [])) cs in
    if c == config_file_split_symbol then part ∷ next else longer

-- The loop over the parts, two by two: `at(i + 1)` throws on an odd count.
unfoldable pub devices_of : List Bytes → Option (List LoRaDevice)
devices_of [] = some []
devices_of (address ∷ []) = none
devices_of (address ∷ description ∷ parts) = do
  devices ← devices_of parts
  some (record { iot_ip = []; lora_address = address; device_description = description } ∷ devices)

-- `loadLoRaConfigFile`: the devices go behind those that are there.
unfoldable pub load_lora_config_file : Option Bytes → List LoRaDevice → Option (List LoRaDevice)
unfolding split_from devices_of read_text_file_to_vector
load_lora_config_file file devices = do
  let (succeed, source) = read_text_file_to_vector file []
  found ← devices_of (split_from [] source)
  some (devices ++ found)
