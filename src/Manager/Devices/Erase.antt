-- ===== src/Manager/Devices/Erase.antt =====
-- The loops of IoTManager.cpp that erase devices while they walk the list.
use io_trepublic_plus.Base.{
  ℕ, ◌≡◌, refl, sym, ap, ◌∙◌, Bool, not, some, List, [], ◌∷◌, ◌++◌, inl, inr, Bool-cases, Bytes,
  length, length-snoc, get_elem?-middle, filter, append_assoc,
}
use io_trepublic_plus.Manager.State.{DeviceInfo}
use io_trepublic_plus.Manager.Devices.{
  erase_at, erase_from, has_ip, has_socket, remove_device_by_iot_ip, remove_device_by_socket_index,
}

pub erase_at-middle {ℓ} :
    {A : Type ℓ} (xs : List A) (y : A) (ys : List A)
    → erase_at (length xs) (xs ++ (y ∷ ys)) ≡ xs ++ ys
unfolding erase_at
erase_at-middle [] y ys = refl
erase_at-middle (x ∷ xs) y ys = ap (◌∷◌ x) (erase_at-middle xs y ys)

erase_from-filter :
    (test : DeviceInfo → Bool) (kept ds : List DeviceInfo)
    → erase_from test (length ds) (length kept) (kept ++ ds)
      ≡ some (kept ++ filter (λ d. not (test d)) ds)
unfolding erase_from
erase_from-filter test kept [] = refl
erase_from-filter test kept (d ∷ ds) = elim (Bool-cases (test d)) [
  | inl h ↦
      rw (get_elem?-middle kept d ds, h, erase_at-middle kept d ds) (erase_from-filter test kept ds)
  | inr h ↦
      rw (get_elem?-middle kept d ds, h, sym (append_assoc kept (d ∷ []) ds))
        (ap (λ i. erase_from test (length ds) i (kept ++ (d ∷ []) ++ ds)) (sym (length-snoc kept d))
          ∙ erase_from-filter test (kept ++ (d ∷ [])) ds
          ∙ ap some (append_assoc kept (d ∷ []) (filter (λ x. not (test x)) ds)))
]

-- Both removals return on every list of devices, and leave exactly the devices with another socket
-- index, or another address, in their order.
pub remove_device-filter :
    (socket_index : ℕ) (ip : Bytes) (ds : List DeviceInfo)
    → (remove_device_by_socket_index socket_index ds
        ≡ some (filter (λ d. not (has_socket socket_index d)) ds))
      × (remove_device_by_iot_ip ip ds ≡ some (filter (λ d. not (has_ip ip d)) ds))
unfolding remove_device_by_socket_index remove_device_by_iot_ip
remove_device-filter socket_index ip ds =
    (erase_from-filter (has_socket socket_index) [] ds, erase_from-filter (has_ip ip) [] ds)
