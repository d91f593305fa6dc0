-- ===== src/Manager/Devices.antt =====
-- The registered devices of IoTManager.cpp.
pub mod Erase
pub mod Registry
pub mod Address
use io_trepublic_plus.Base.{
  ℕ, zero, suc, ◌+◌, Bool, true, false, Option, none, some, List, [], ◌∷◌, ◌++◌, Bytes, codes,
  length, get_elem?, str_eq, ◌==◌, if◌then◌else◌, ◌>>=◌,
}
use io_trepublic_plus.Base.Int.{negsuc}
use io_trepublic_plus.Base.Decimal.{int_to_string}
use io_trepublic_plus.Base.Int.{to_int}
use io_trepublic_plus.Json.{Jansson, export_json_content, get_value_in_first_object}
use io_trepublic_plus.Manager.State.{DeviceInfo, Manager, prefix}

-- The loops that look for the first device that passes a test; `none` is the index -1.
unfoldable pub find_index_from : (DeviceInfo → Bool) → ℕ → List DeviceInfo → Option ℕ
find_index_from test i [] = none
find_index_from test i (d ∷ ds) =
    let rest = find_index_from test (i + 1) ds in if test d then some i else rest

abbrev pub has_ip : Bytes → DeviceInfo → Bool
has_ip ip d = str_eq d.iot_ip ip

abbrev pub has_id : Bytes → DeviceInfo → Bool
has_id id d = str_eq d.device_id id

abbrev pub has_socket : ℕ → DeviceInfo → Bool
has_socket socket_index d = d.socket_index == socket_index

unfoldable pub find_device_index_by_device_id : Bytes → List DeviceInfo → Option ℕ
unfolding find_index_from
find_device_index_by_device_id id ds = find_index_from (has_id id) 0 ds

unfoldable pub find_device_index_by_iot_ip : Bytes → List DeviceInfo → Option ℕ
unfolding find_index_from
find_device_index_by_iot_ip ip ds = find_index_from (has_ip ip) 0 ds

unfoldable pub is_socket_index_exists_any_device : ℕ → List DeviceInfo → Bool
is_socket_index_exists_any_device socket_index [] = false
is_socket_index_exists_any_device socket_index (d ∷ ds) =
    if has_socket socket_index d then true else is_socket_index_exists_any_device socket_index ds

-- `erase(begin() + i)`
unfoldable pub erase_at {ℓ} : {A : Type ℓ} → ℕ → List A → List A
erase_at i [] = []
erase_at zero (x ∷ xs) = xs
erase_at (suc i) (x ∷ xs) = x ∷ erase_at i xs

-- The loops that erase the devices that pass a test. `left` is `deviceSize - i`: an erasure takes one
-- from the size and leaves the index, any other round moves the index.
unfoldable pub erase_from : (DeviceInfo → Bool) → ℕ → ℕ → List DeviceInfo → Option (List DeviceInfo)
erase_from test zero i ds = some ds
erase_from test (suc left) i ds = do
  d ← get_elem? ds i
  let erased = erase_from test left i (erase_at i ds)
  let kept = erase_from test left (i + 1) ds
  if test d then erased else kept

unfoldable pub remove_device_by_socket_index : ℕ → List DeviceInfo → Option (List DeviceInfo)
unfolding erase_from
remove_device_by_socket_index socket_index ds =
    erase_from (has_socket socket_index) (length ds) 0 ds

unfoldable pub remove_device_by_iot_ip : Bytes → List DeviceInfo → Option (List DeviceInfo)
unfolding erase_from
remove_device_by_iot_ip ip ds = erase_from (has_ip ip) (length ds) 0 ds

-- `getNewIoTIP`: the new address, and the count moves on.
unfoldable pub get_new_iot_ip : Manager → Bytes × Manager
get_new_iot_ip m =
    (prefix ++ int_to_string (to_int m.ip_count), record m { ip_count = m.ip_count + 1 })

-- `encodeAllRegistedDevices`
unfoldable pub encode_all_registed_devices : List DeviceInfo → Bytes
encode_all_registed_devices [] = []
encode_all_registed_devices (d ∷ ds) =
    d.iot_ip ++ (0 ∷ (d.device_description ++ (0 ∷ encode_all_registed_devices ds)))

-- The part of `addNewDevice` that updates the list.
unfoldable pub replace_device : DeviceInfo → List DeviceInfo → List DeviceInfo
replace_device d ds = elim (find_device_index_by_device_id d.device_id ds) [
  | none ↦ ds ++ (d ∷ [])
  | some i ↦ erase_at i ds ++ (d ∷ [])
]

module _ (J : Jansson) where
  open J use {Json}

  -- The device that a register package describes.
  unfoldable pub device_of : Bytes → Json → ℕ → Option DeviceInfo
  device_of iot_ip root socket_index = do
    device_id ← get_value_in_first_object J (some root) (codes "DeviceID")
    function_group ← get_value_in_first_object J (some root) (codes "FunctionGroup")
    description ← export_json_content J root
    some (record {
      iot_ip = iot_ip;
      function_group = function_group;
      device_id = device_id;
      device_description = description;
      socket_index = socket_index;
      proxied = negsuc 0;
    })
