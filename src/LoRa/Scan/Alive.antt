-- ===== src/LoRa/Scan/Alive.antt =====
-- The loop of ScanAllDevice that erases while it goes on, IoTRepublicPlus/Broker/LoRaBroker.cpp.
use io_trepublic_plus.Base.{
  ℕ, zero, suc, ◌+◌, ◌<◌, ◌≡◌, refl, sym, ap, ◌∙◌, Bool, false, true, Option, none, some, List, [],
  ◌∷◌, ◌++◌, append_assoc, fun_ext, length, length-snoc, get_elem?, get_elem?-middle, ◌>>=◌,
  >>=_assoc, >>=_some, arith,
}
use io_trepublic_plus.Manager.Devices.{erase_at}
use io_trepublic_plus.LoRa.{LoRaDevice, Radio}
use io_trepublic_plus.LoRa.Scan.{check_devices, probe}

-- The devices that are alive, asked one after the other.
unfoldable pub alive_devices : List LoRaDevice → Radio → Option (List LoRaDevice × Radio)
alive_devices [] r = some ([], r)
alive_devices (d ∷ ds) r = do
  (alive, r1) ← probe d.lora_address r
  (kept, r2) ← alive_devices ds r1
  some (elim alive [ true ↦ d ∷ kept | false ↦ kept ], r2)

erase_at-middle :
    {A : Type 0} (xs : List A) (y : A) (ys : List A)
    → erase_at (length xs) (xs ++ (y ∷ ys)) ≡ xs ++ ys
unfolding erase_at
erase_at-middle [] y ys = refl
erase_at-middle (x ∷ xs) y ys = ap (◌∷◌ x) (erase_at-middle xs y ys)

get_elem?-end : {A : Type 0} (xs : List A) → get_elem? (xs ++ []) (length xs) ≡ none
get_elem?-end [] = refl
get_elem?-end (x ∷ xs) = get_elem?-end xs

abbrev behind : List LoRaDevice → List LoRaDevice × Radio → Option (List LoRaDevice × Radio)
behind done (kept, r) = some (done ++ kept, r)

-- What follows the answer of one device, in the loop and in the description.
abbrev next_index :
    ℕ
    → List LoRaDevice
    → LoRaDevice
    → List LoRaDevice
    → Bool × Radio
    → Option (List LoRaDevice × Radio)
next_index f done d ds (alive, r) = elim alive [
  | true ↦ check_devices f (length done + 1) (done ++ (d ∷ ds)) r
  | false ↦ check_devices f (length done) (erase_at (length done) (done ++ (d ∷ ds))) r
]

abbrev kept_with : LoRaDevice → List LoRaDevice → Bool × Radio → Option (List LoRaDevice × Radio)
kept_with d ds (alive, r) = do
  (kept, r1) ← alive_devices ds r
  some (elim alive [ true ↦ d ∷ kept | false ↦ kept ], r1)

-- What the loop does with the devices that are left, behind those that are done.
abbrev Checks : ℕ → List LoRaDevice → Type 0
Checks f devices =
    (done : List LoRaDevice) (r : Radio)
    → check_devices f (length done) (done ++ devices) r ≡ (alive_devices devices r >>= behind done)

next_index-kept_with :
    (f : ℕ) (done : List LoRaDevice) (d : LoRaDevice) (ds : List LoRaDevice) (found : Bool × Radio)
    → Checks f ds
    → next_index f done d ds found ≡ (kept_with d ds found >>= behind done)
next_index-kept_with f done d ds (true, r) later =
    rw (sym (length-snoc done d), sym (append_assoc done (d ∷ []) ds))
      (later (done ++ (d ∷ [])) r
        ∙ ap (λ next. alive_devices ds r >>= next)
            (fun_ext λ kept. ap (λ ks. some (ks, kept.1)) (append_assoc done (d ∷ []) kept.0))
        ∙ sym (>>=_assoc (alive_devices ds r) (λ kept. some (d ∷ kept.0, kept.1)) (behind done)))
next_index-kept_with f done d ds (false, r) later =
    rw (erase_at-middle done d ds)
      (later done r ∙ sym (>>=_assoc (alive_devices ds r) (λ kept. some kept) (behind done)))

check_devices-from : (f : ℕ) (devices : List LoRaDevice) → length devices < f → Checks f devices
unfolding check_devices alive_devices
check_devices-from zero devices h done r = elim h [ ]
check_devices-from (suc f) [] h done r = rw (check_devices, get_elem?-end done) refl
check_devices-from (suc f) (d ∷ ds) h done r =
    let later : Checks f ds = check_devices-from f ds (omega (arith, h)) in
    rw (check_devices, get_elem?-middle done d ds)
      (ap (λ next. probe d.lora_address r >>= next)
          (fun_ext λ found. next_index-kept_with f done d ds found later)
        ∙ sym (>>=_assoc (probe d.lora_address r) (kept_with d ds) (behind done)))

-- The loop that erases the devices that do not answer, at its index, and goes on leaves exactly those that
-- are alive when each is asked once, in their order, and asks none twice and none else.
pub check_devices-alive_devices :
    (devices : List LoRaDevice) (r : Radio)
    → check_devices (suc (length devices)) 0 devices r ≡ alive_devices devices r
check_devices-alive_devices devices r =
    check_devices-from (suc (length devices)) devices (omega arith) [] r
    ∙ >>=_some (alive_devices devices r)
