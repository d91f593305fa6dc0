-- ===== src/Manager/Devices/Address.antt =====
-- The addresses that the manager gives out: getNewIoTIP and the answer to a request of
-- IoTRepublicPlus/IoT/IoTManager.cpp.
use io_trepublic_plus.Base.{
  ◌+◌, ◌^◌, ◌<◌, ◌≡◌, refl, sym, ap, ◌∙◌, some, ◌++◌, Bytes, drop, ◌↔◌, some_inj,
}
use io_trepublic_plus.Base.Int.{pos, pos_part, to_int, to_int_small}
use io_trepublic_plus.Base.Decimal.{
  to_string, int_to_string, int_to_string-pos, stoi, stoi-to_string,
}
use io_trepublic_plus.Manager.State.{Manager, prefix}
use io_trepublic_plus.Manager.Devices.{get_new_iot_ip}

new_address :
    (m : Manager) → m.ip_count < 2 ^ 31 → (get_new_iot_ip m).0 ≡ prefix ++ to_string m.ip_count
unfolding get_new_iot_ip
new_address m h =
    ap (λ z. prefix ++ int_to_string z) (to_int_small m.ip_count h)
    ∙ ap (λ s. prefix ++ s) (int_to_string-pos m.ip_count)

prefix_inj : (a b : Bytes) → prefix ++ a ≡ prefix ++ b → a ≡ b
prefix_inj a b h = ap (drop 4) h

-- As long as the count fits an `int`, a request moves the count on by one, and two managers give out the
-- same address only if their counts are the same: no address is given out twice.
pub get_new_iot_ip-injective :
    (m n : Manager)
    → m.ip_count < 2 ^ 31
    → n.ip_count < 2 ^ 31
    → ((get_new_iot_ip m).1.ip_count ≡ m.ip_count + 1)
      × (((get_new_iot_ip m).0 ≡ (get_new_iot_ip n).0) ↔ (m.ip_count ≡ n.ip_count))
unfolding get_new_iot_ip
get_new_iot_ip-injective m n h k = (
  refl,
  (
    (λ e.
        let same : to_string m.ip_count ≡ to_string n.ip_count =
          prefix_inj _ _ (sym (new_address m h) ∙ e ∙ new_address n k) in
        let read : some (pos m.ip_count) ≡ some (pos n.ip_count) =
          sym (stoi-to_string m.ip_count h) ∙ ap stoi same ∙ stoi-to_string n.ip_count k in
        ap pos_part (some_inj read)),
    (λ e. ap (λ i. prefix ++ int_to_string (to_int i)) e),
  ),
)
