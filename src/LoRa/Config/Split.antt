-- ===== src/LoRa/Config/Split.antt =====
-- The LoRa configuration file, IoTRepublicPlus/Broker/LoRaBroker.cpp: the text of some devices is read
-- back, and a text with an even count of separators is not read.
use io_trepublic_plus.Base.{
  ℕ, suc, ◌%◌, ◌≡◌, refl, sym, ap, ◌∙◌, false, none, some, List, [], ◌∷◌, ◌++◌, Bytes, All, Option,
  >>=_at, ◌>>=◌, append-nil, append_assoc, ◌==◌, >>=_none_iff, if◌then◌else◌, ◌↔◌, length, arith,
}
use io_trepublic_plus.Config.{read_text_file_to_vector, solid}
use io_trepublic_plus.LoRa.{LoRaDevice}
use io_trepublic_plus.LoRa.Config.{
  config_file_split_symbol, devices_of, load_lora_config_file, split_from,
}

-- A text without the separator.
abbrev pub IsPart : Bytes → Type 0
IsPart part = All (λ c. (c == config_file_split_symbol) ≡ false) part

split_from-IsPart :
    (before part rest : Bytes)
    → IsPart part
    → split_from before (part ++ (config_file_split_symbol ∷ rest))
      ≡ (before ++ part) ∷ split_from [] rest
unfolding split_from
split_from-IsPart before [] rest h = ap (λ p. p ∷ split_from [] rest) (sym (append-nil before))
split_from-IsPart before (c ∷ cs) rest (h, hs) = rw h (
    split_from-IsPart (before ++ (c ∷ [])) cs rest hs
    ∙ ap (λ p. p ∷ split_from [] rest) (append_assoc before (c ∷ []) cs))

split_from-last :
    (before part : Bytes) → IsPart part → split_from before part ≡ (before ++ part) ∷ []
unfolding split_from
split_from-last before [] h = ap (λ p. p ∷ []) (sym (append-nil before))
split_from-last before (c ∷ cs) (h, hs) = rw h (
    split_from-last (before ++ (c ∷ [])) cs hs ∙ ap (λ p. p ∷ []) (append_assoc before (c ∷ []) cs))

-- The text of one device and of more behind it.
abbrev pub config_text : LoRaDevice → List LoRaDevice → Bytes
config_text d [] = d.lora_address ++ (config_file_split_symbol ∷ d.device_description)
config_text d (e ∷ ds) =
    d.lora_address
    ++ (config_file_split_symbol
        ∷ (d.device_description ++ (config_file_split_symbol ∷ config_text e ds)))

-- A device as the file has it: no address yet, and no separator in its texts.
pub record IsConfigured (d : LoRaDevice) : Type 0 where
  pub no_address : d.iot_ip ≡ []
  pub address_part : IsPart d.lora_address
  pub description_part : IsPart d.device_description

split-config_text :
    (d : LoRaDevice) (ds : List LoRaDevice)
    → All IsConfigured (d ∷ ds)
    → devices_of (split_from [] (config_text d ds)) ≡ some (d ∷ ds)
unfolding devices_of
split-config_text d [] (h, _) =
    rw
      (
        split_from-IsPart [] d.lora_address d.device_description h.address_part,
        split_from-last [] d.device_description h.description_part,
      )
      (ap (λ ip. some (record d { iot_ip = ip } ∷ [])) (sym h.no_address))
split-config_text d (e ∷ ds) (h, hs) =
    let tail = d.device_description ++ (config_file_split_symbol ∷ config_text e ds) in
    rw
      (
        split_from-IsPart [] d.lora_address tail h.address_part,
        split_from-IsPart [] d.device_description (config_text e ds) h.description_part,
        split-config_text e ds hs,
      )
      (ap (λ ip. some (record d { iot_ip = ip } ∷ e ∷ ds)) (sym h.no_address))

-- A configuration file that is, white space aside, the text of some devices is read back: loadLoRaConfigFile
-- puts these devices, in their order, behind those that the broker has, also when they are the same ones.
pub load_lora_config_file-config_text :
    (file : Bytes) (d : LoRaDevice) (ds devices : List LoRaDevice)
    → All IsConfigured (d ∷ ds)
    → solid file ≡ config_text d ds
    → load_lora_config_file (some file) devices ≡ some (devices ++ (d ∷ ds))
unfolding load_lora_config_file read_text_file_to_vector
load_lora_config_file-config_text file d ds devices h same =
    ap (λ source. devices_of (split_from [] source) >>= λ found. some (devices ++ found))
      (append-nil (solid file) ∙ same)
    ∙ >>=_at (λ found. some (devices ++ found)) (split-config_text d ds h)

-- How many separators a text has.
abbrev pub separators : Bytes → ℕ
separators [] = 0
separators (c ∷ cs) =
    let more = separators cs in if c == config_file_split_symbol then suc more else more

length-split_from :
    (part source : Bytes) → length (split_from part source) ≡ suc (separators source)
unfolding split_from
length-split_from part [] = refl
length-split_from part (c ∷ cs) =
    ground (arith, length-split_from [] cs, length-split_from (part ++ (c ∷ [])) cs)

devices_of-none : (parts : List Bytes) → (devices_of parts ≡ none) ↔ (length parts % 2 ≡ 1)
unfolding devices_of
devices_of-none [] = ground arith
devices_of-none (a ∷ []) = ground arith
devices_of-none (a ∷ b ∷ parts) =
    let (to, from) =
      >>=_none_iff (devices_of parts)
        λ devices. record { iot_ip = []; lora_address = a; device_description = b } ∷ devices in
    let (to', from') = devices_of-none parts in
    (λ h. omega (arith, to' (to h)), λ h. from (from' (omega (arith, h))))

separators-solid : (file : Bytes) → separators (solid file) ≡ separators file
separators-solid [] = refl
separators-solid (c ∷ cs) = ground (arith, separators-solid cs)

-- What there is of a file.
abbrev pub file_bytes : Option Bytes → Bytes
file_bytes none = []
file_bytes (some file) = file

read-separators :
    (file : Option Bytes)
    → separators (read_text_file_to_vector file []).1 ≡ separators (file_bytes file)
unfolding read_text_file_to_vector
read-separators none = refl
read-separators (some file) = ap separators (append-nil (solid file)) ∙ separators-solid file

-- loadLoRaConfigFile throws exactly on the files with an even count of separators, so on an empty or
-- missing one too.
pub load_lora_config_file-none_iff :
    (file : Option Bytes) (devices : List LoRaDevice)
    → (load_lora_config_file file devices ≡ none) ↔ (separators (file_bytes file) % 2 ≡ 0)
unfolding load_lora_config_file
load_lora_config_file-none_iff file devices =
    let source = (read_text_file_to_vector file []).1 in
    let parts = split_from [] source in
    let (to, from) = >>=_none_iff (devices_of parts) λ found. devices ++ found in
    let (to', from') = devices_of-none parts in
    let count = length-split_from [] source in
    let same = read-separators file in
    (λ h. omega (arith, to' (to h), count, same), λ h. from (from' (omega (arith, h, count, same))))
