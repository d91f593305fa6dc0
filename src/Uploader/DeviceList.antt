-- ===== src/Uploader/DeviceList.antt =====
-- The list of devices that the manager sends, read by the uploader: encodeAllRegistedDevices of
-- IoTRepublicPlus/IoT/IoTManager.cpp and saveAllDeviceDescription of
-- IoTRepublicPlus/Broker/CloudUploader.cpp.
use io_trepublic_plus.Base.{
  ℕ, ◌+◌, ◌%◌, ◌≡◌, refl, sym, ap, ◌∙◌, Option, none, some, List, [], ◌∷◌, ◌++◌, Bytes, All,
  append_assoc, append-nil, ==_iff, ==_false, ◌>>=◌, >>=_assoc, arith, fun_ext,
}
use io_trepublic_plus.Package.{IoTPackage}
use io_trepublic_plus.Framing.Columns.{IsText}
use io_trepublic_plus.Json.{Jansson}
use io_trepublic_plus.Device.{IoTDevice, new_device, set_js_description}
use io_trepublic_plus.Manager.State.{DeviceInfo}
use io_trepublic_plus.Manager.Devices.{encode_all_registed_devices}
use io_trepublic_plus.Uploader.{Uploader, save_from, save_all_device_description}

-- No '\0' in the address and the description.
abbrev pub IsListed : DeviceInfo → Type 0
IsListed d = All IsText d.iot_ip × All IsText d.device_description

regroup :
    (o : Option IoTDevice) (p : Option (List IoTDevice)) (devices : List IoTDevice)
    → (o >>= λ x. p >>= λ rest. some (devices ++ (x ∷ []) ++ rest))
      ≡ (o >>= (λ x. p >>= λ rest. some (x ∷ rest)) >>= λ rest. some (devices ++ rest))
regroup none p devices = refl
regroup (some x) none devices = refl
regroup (some x) (some rest) devices = ap some (append_assoc devices (x ∷ []) rest)

module _ (J : Jansson) where
  -- Each device with its address, described by its own text.
  unfoldable pub described_devices : List DeviceInfo → Option (List IoTDevice)
  described_devices [] = some []
  described_devices (d ∷ ds) = do
    described ← set_js_description J d.device_description (record new_device { iot_ip = d.iot_ip })
    rest ← described_devices ds
    some (described ∷ rest)

  save_from-text :
      (xs cs text : Bytes) (n : ℕ) (d : IoTDevice) (devices : List IoTDevice)
      → All IsText xs
      → save_from J (xs ++ (0 ∷ cs)) text n d devices
        ≡ save_from J (0 ∷ cs) (text ++ xs) n d devices
  unfolding save_from
  save_from-text [] cs text n d devices h =
      ap (λ t. save_from J (0 ∷ cs) t n d devices) (sym (append-nil text))
  save_from-text (x ∷ xs) cs text n d devices (h, hs) =
      rw (==_false x 0 (λ q. omega arith), save_from)
        (save_from-text xs cs (text ++ (x ∷ [])) n d devices hs
          ∙ ap (λ t. save_from J (0 ∷ cs) t n d devices) (append_assoc text (x ∷ []) xs))

  save_from-address :
      (cs text : Bytes) (n : ℕ) (d : IoTDevice) (devices : List IoTDevice)
      → n % 2 ≡ 0
      → save_from J (0 ∷ cs) text n d devices
        ≡ save_from J cs [] (n + 1) (record d { iot_ip = text }) devices
  unfolding save_from
  save_from-address cs text n d devices h = rw ((==_iff (n % 2) 0).1 h, save_from) refl

  save_from-description :
      (cs text : Bytes) (n : ℕ) (d : IoTDevice) (devices : List IoTDevice)
      → n % 2 ≡ 1
      → save_from J (0 ∷ cs) text n d devices ≡ (
          set_js_description J text d >>= λ x.
          save_from J cs [] (n + 1) new_device (devices ++ (x ∷ [])))
  unfolding save_from
  save_from-description cs text n d devices h =
      rw (==_false (n % 2) 0 (λ q. omega arith), save_from) refl

  save_from-encoded :
      (ds : List DeviceInfo) (n : ℕ) (devices : List IoTDevice)
      → n % 2 ≡ 0
      → All IsListed ds
      → save_from J (encode_all_registed_devices ds) [] n new_device devices
        ≡ (described_devices ds >>= λ rest. some (devices ++ rest))
  unfolding encode_all_registed_devices described_devices
  save_from-encoded [] n devices even h = unfold save_from in ap some (sym (append-nil devices))
  save_from-encoded (d ∷ ds) n devices even ((ip, text), hs) =
      let rest = encode_all_registed_devices ds in
      let named : IoTDevice = record new_device { iot_ip = d.iot_ip } in
      save_from-text d.iot_ip (d.device_description ++ (0 ∷ rest)) [] n new_device devices ip
      ∙ save_from-address (d.device_description ++ (0 ∷ rest)) d.iot_ip n new_device devices even
      ∙ save_from-text d.device_description rest [] (n + 1) named devices text
      ∙ save_from-description rest d.device_description (n + 1) named devices (omega (arith, even))
      ∙ ap (λ next. set_js_description J d.device_description named >>= next)
          (fun_ext
            λ x. save_from-encoded ds (n + 1 + 1) (devices ++ (x ∷ [])) (omega (arith, even)) hs)
      ∙ regroup (set_js_description J d.device_description named) (described_devices ds) devices

  -- If no address and no description has a '\0' in it, the uploader reads the manager's list of all
  -- devices back: the same devices in the same order, each with its address and described by
  -- its own text; and it fails exactly where one of the texts cannot be read.
  pub save_all_device_description-encode_all_registed_devices :
      (ds : List DeviceInfo) (pkg : IoTPackage) (u : Uploader)
      → All IsListed ds
      → pkg.data_vector ≡ encode_all_registed_devices ds
      → save_all_device_description J pkg u
        ≡ (described_devices ds >>= λ devices. some (record u { all_devices = devices }))
  unfolding save_all_device_description
  save_all_device_description-encode_all_registed_devices ds pkg u h e =
      rw (e, save_from-encoded ds 0 [] (omega arith) h) (>>=_assoc (described_devices ds) some _)
