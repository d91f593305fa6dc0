-- ===== src/XBee/Scan/Unique.antt =====
-- The list of XBee devices, IoTRepublicPlus/Broker/XBeeBroker_ApiMode.cpp: one entry for each module.
use io_trepublic_plus.Base.{
  ℕ, suc, ◌≡◌, refl, sym, ap, subst, ◌∙◌, Bool, false, true, Option, none, some, List, [], ◌∷◌,
  Bytes, All, Bool-cases, inl, inr, ◌>>=◌, Returns, Returns-some, Returns-none, Returns-bind,
  Returns-if, if◌then◌else◌, ◌||◌, codes, str_eq, arith,
}
use io_trepublic_plus.Manager.State.{is_empty}
use io_trepublic_plus.Broker.{ask_call}
use io_trepublic_plus.XBee.{
  RecvResult, XBeeAddress64, XBeeBroker, XBeeDevice, failed, is_equal, succeed, timeout,
}
use io_trepublic_plus.XBee.Module.{get_response, send_at_command, send_data}
use io_trepublic_plus.XBee.Description.{ask_device_description}
use io_trepublic_plus.XBee.Scan.{
  acknowledge, add_new_device, ask, discover, find_device_index, placed, register_device,
  scan_all_device,
}

-- No device has the address.
abbrev pub Absent : XBeeAddress64 → List XBeeDevice → Type 0
Absent a ds = All (λ d. is_equal d.address a ≡ false) ds

-- No two devices have one address.
abbrev pub UniqueModules : List XBeeDevice → Type 0
UniqueModules [] = Unit
UniqueModules (d ∷ ds) = Absent d.address ds × UniqueModules ds

is_equal-sym : (a b : XBeeAddress64) → is_equal a b ≡ false → is_equal b a ≡ false
is_equal-sym a b h = ground arith

is_equal-same : (a b : XBeeAddress64) → is_equal a b ≡ true → a ≡ b
is_equal-same a b h =
    let high : a.msb ≡ b.msb = ground arith in
    let low : a.lsb ≡ b.lsb = ground arith in λ i. record { msb = high i; lsb = low i }

-- The list with the device in the place of the first with its address, or at the end.
put : XBeeDevice → List XBeeDevice → List XBeeDevice
put d [] = d ∷ []
put d (e ∷ es) = let rest = put d es in if is_equal e.address d.address then d ∷ es else e ∷ rest

abbrev with_ip : XBeeAddress64 → Bytes → XBeeDevice
with_ip address iot_ip = record { iot_ip = iot_ip; address = address }

placed-later :
    (device d : XBeeDevice) (ds : List XBeeDevice) (o : Option ℕ)
    → placed device (d ∷ ds) (o >>= λ i. some (suc i)) ≡ d ∷ placed device ds o
placed-later device d ds none = refl
placed-later device d ds (some i) = refl

add_new_device-put :
    (address : XBeeAddress64) (iot_ip : Bytes) (ds : List XBeeDevice)
    → add_new_device address iot_ip ds ≡ put (with_ip address iot_ip) ds
unfolding add_new_device find_device_index put
add_new_device-put address iot_ip [] = refl
add_new_device-put address iot_ip (d ∷ ds) = elim (Bool-cases (is_equal d.address address)) [
  | inl h ↦ rw (add_new_device, find_device_index, h) refl
  | inr h ↦
      rw (add_new_device, find_device_index, h)
        (placed-later (with_ip address iot_ip) d ds (find_device_index address ds)
          ∙ ap (◌∷◌ d) (add_new_device-put address iot_ip ds))
]

Absent-put :
    (a : XBeeAddress64) (d : XBeeDevice) (ds : List XBeeDevice)
    → is_equal d.address a ≡ false
    → Absent a ds
    → Absent a (put d ds)
unfolding put
Absent-put a d [] h k = (h, tt)
Absent-put a d (e ∷ es) h (k, ks) =
    let rest = Absent-put a d es h ks in
    elim (Bool-cases (is_equal e.address d.address)) [
      | inl s ↦ rw s (h, ks)
      | inr s ↦ rw s (k, rest)
    ]

UniqueModules-put :
    (d : XBeeDevice) (ds : List XBeeDevice) → UniqueModules ds → UniqueModules (put d ds)
unfolding put
UniqueModules-put d [] h = (tt, tt)
UniqueModules-put d (e ∷ es) (h, hs) = elim (Bool-cases (is_equal e.address d.address)) [
  | inl s ↦ rw s (subst (λ a. Absent a es) (is_equal-same e.address d.address s) h, hs)
  | inr s ↦
      rw s (
        Absent-put e.address d es (is_equal-sym e.address d.address s) h,
        UniqueModules-put d es hs,
      )
]

abbrev Kept : XBeeBroker → Type 0
Kept b = UniqueModules b.xbee_devices

ask-devices : (b : XBeeBroker) → Returns (λ out. out.1.xbee_devices ≡ b.xbee_devices) (ask b)
unfolding ask
ask-devices b = go b.answers
  where
    go :
        (answers : List (Option (List Bytes)))
        → Returns
            (λ out. out.1.xbee_devices ≡ b.xbee_devices)
            (ask (record b { answers = answers }))
    go [] = Returns-none _
    go (answer ∷ answers) =
        Returns-bind (λ out. out.1.xbee_devices ≡ b.xbee_devices) (ask_call b.manager_iot_ip answer)
          _ λ out e. Returns-some (λ o. o.1.xbee_devices ≡ b.xbee_devices) _ refl

chosen :
    (P : XBeeBroker → Type 0) (t : Bool) (a b : XBeeBroker) → P a → P b → P (if t then a else b)
chosen P true a b h k = h
chosen P false a b h k = k

register_device-Kept :
    (address : XBeeAddress64) (b : XBeeBroker) → Kept b → Returns Kept (register_device address b)
unfolding register_device
register_device-Kept address b h =
    Returns-bind Kept (ask_device_description address b.xbee_obj) _ λ out e.
      Returns-bind Kept (ask (record b { xbee_obj = out.1 })) _ λ asked e'.
        let same = ask-devices (record b { xbee_obj = out.1 }) asked e' in
        let kept : Kept asked.1 = subst UniqueModules (sym same) h in
        let added : UniqueModules (add_new_device address asked.0 asked.1.xbee_devices) =
          subst UniqueModules (sym (add_new_device-put address asked.0 asked.1.xbee_devices))
            (UniqueModules-put (with_ip address asked.0) asked.1.xbee_devices kept) in
        Returns-some Kept _ (chosen Kept (is_empty out.0 || is_empty asked.0) _ _ kept added)

Returns-result :
    (result : RecvResult) (o p : Option (Bytes × XBeeBroker))
    → Returns (λ out. Kept out.1) o
    → Returns (λ out. Kept out.1) p
    → Returns (λ out. Kept out.1) (elim result [ succeed ↦ o | _ ↦ p ])
Returns-result succeed o p h k = h
Returns-result timeout o p h k = k
Returns-result failed o p h k = k

acknowledge-Kept :
    (addresses : List XBeeAddress64) (buffer : Bytes) (b : XBeeBroker)
    → Kept b
    → Returns (λ out. Kept out.1) (acknowledge addresses buffer b)
unfolding acknowledge
acknowledge-Kept [] buffer b h = Returns-some (λ out. Kept out.1) (buffer, b) h
acknowledge-Kept (a ∷ addresses) buffer b h =
    let (result, received, x) = get_response buffer 500 (send_data a (codes "SYN") b.xbee_obj) in
    let asked : XBeeBroker = record b { xbee_obj = x } in
    Returns-result result _ _
      (Returns-if (λ out. Kept out.1) (str_eq received (codes "ACK")) _ _
        (Returns-bind (λ out. Kept out.1) (register_device a asked) (acknowledge addresses [])
          λ b1 e. acknowledge-Kept addresses [] b1 (register_device-Kept a asked h b1 e))
        (acknowledge-Kept addresses received asked h))
      (acknowledge-Kept addresses [] asked h)

scan-Kept : (b : XBeeBroker) → Kept b → Returns Kept (scan_all_device b)
unfolding scan_all_device
scan-Kept b h =
    Returns-bind Kept (discover 6 [] (send_at_command (codes "ND") b.xbee_obj).packets) _ λ found e.
      Returns-bind Kept (acknowledge found.0 [] _) _
        λ out e'. Returns-some Kept _ (acknowledge-Kept found.0 [] _ h out e')

-- A scan keeps the list of devices to one entry for each XBee module, however often a module is found.
pub scan_all_device-UniqueModules :
    (b b' : XBeeBroker)
    → UniqueModules b.xbee_devices
    → scan_all_device b ≡ some b'
    → UniqueModules b'.xbee_devices
scan_all_device-UniqueModules b b' h e = scan-Kept b h b' e
