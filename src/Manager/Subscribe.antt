-- ===== src/Manager/Subscribe.antt =====
-- A rule that a client packs and sends: Packet() of IoTRepublicPlus/IoT/IoTRule.h and the handlers of
-- IoTRepublicPlus/IoT/IoTManager.cpp and Ruler.cpp.
use io_trepublic_plus.Base.{ℕ, ◌≡◌, refl, ◌∙◌, some, Bool-cases, inl, inr, Bytes, codes, str_eq}
use io_trepublic_plus.Package.{IoTPackage}
use io_trepublic_plus.Json.{Jansson, get_first_key_name, load_json_data}
use io_trepublic_plus.Json.Laws.{IsLawful}
use io_trepublic_plus.Rule.{IoTRule, packet, rule_of_content}
use io_trepublic_plus.Rule.RoundTrip.{IsLegalRule, packet-Packed}
use io_trepublic_plus.Manager.State.{Manager, server_iot_ip}
use io_trepublic_plus.Manager.Rules.{add_rule}
use io_trepublic_plus.Manager.Handle.{dispatch, handle_manager_package, handle_rule_package}

module _ (J : Jansson) where
  handle_manager_package-rule :
      (i : ℕ) (pkg : IoTPackage) (m : Manager) (root : J.Json) (rule : IoTRule)
      → load_json_data J pkg.data_vector ≡ some root
      → get_first_key_name J (some root) ≡ some (codes "IOTRUL")
      → rule_of_content J pkg.data_vector ≡ some rule
      → handle_manager_package J i pkg m ≡ some (add_rule rule m)
  unfolding handle_manager_package handle_rule_package str_eq
  handle_manager_package-rule i pkg m root rule load key read =
      rw (load, handle_manager_package, key, handle_rule_package, load, key, read) refl

  dispatch-manager :
      (i : ℕ) (pkg : IoTPackage) (m : Manager)
      → pkg.des_ip ≡ server_iot_ip
      → dispatch J i pkg m ≡ handle_manager_package J i pkg m
  unfolding dispatch str_eq
  dispatch-manager i pkg m to = elim (Bool-cases (str_eq pkg.sor_ip (codes "0"))) [
    | inl e ↦ rw (to, e) refl
    | inr e ↦ rw (to, e) refl
  ]

  -- A rule with texts that JSON can hold and a period that fits an `int` is packed without an exception. A
  -- package to the manager with the packed text, from any sender, makes the manager run that very rule,
  -- every field of it, under the next number and due at once, and changes nothing else.
  pub dispatch-packet :
      (L : IsLawful J) (i : ℕ) (pkg : IoTPackage) (m : Manager) (r : IoTRule)
      → IsLegalRule J L r
      → pkg.des_ip ≡ server_iot_ip
      → (content : Bytes) × (packet J r ≡ some (record r { json_data = content }))
        × (dispatch J i (record pkg { data_vector = content }) m
            ≡ some (add_rule (record r { json_data = content }) m))
  dispatch-packet L i pkg m r legal to =
      let (content, root, packed, load, key, read) = packet-Packed J L r legal in
      (
        content,
        packed,
        dispatch-manager i (record pkg { data_vector = content }) m to
            ∙ handle_manager_package-rule i (record pkg { data_vector = content }) m root
                (record r { json_data = content }) load key read,
      )
