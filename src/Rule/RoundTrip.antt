-- ===== src/Rule/RoundTrip.antt =====
-- A rule through its text: Packet() and the constructor of IoTRepublicPlus/IoT/IoTRule.h.
use io_trepublic_plus.Base.{
  suc, ◌≡◌, refl, ap, ◌∙◌, Option, some, [], ◌∷◌, Bytes, codes, All, All-weaken, ◌>>=◌, >>=_at,
  str_eq, arith,
}
use io_trepublic_plus.Base.Int.{ℤ, pos, negsuc}
use io_trepublic_plus.Base.Decimal.{IsDigit, atoi, int_to_string, to_string-IsDigit}
use io_trepublic_plus.Base.Decimal.RoundTrip.{IsInt, atoi-int_to_string}
use io_trepublic_plus.Json.{Jansson, export_json_content, get_first_key_name, load_json_data}
use io_trepublic_plus.Json.Laws.{
  Fields, IsLawful, IsPlain, IsRecord, dumps-IsRecord, first_key-IsRecord, loads-IsRecord,
  object_text, set_then, set_then-IsRecord, value-IsRecord,
}
use io_trepublic_plus.Rule.{IoTRule, packet, rule_of_content, rule_template}

abbrev rule_fields : IoTRule → Bytes → Fields
rule_fields r frequency =
    (codes "Type", r.type)
    ∷ (codes "Name", r.name)
    ∷ (codes "ReadFrom", r.read_from)
    ∷ (codes "ReadID", r.read_id)
    ∷ (codes "ReadValue", r.read_value)
    ∷ (codes "WriteTo", r.write_to)
    ∷ (codes "WriteID", r.write_id)
    ∷ (codes "WriteValue", r.write_value)
    ∷ (codes "WriteRul", r.write_rul)
    ∷ (codes "ActionFrequency", frequency)
    ∷ []

abbrev empty_fields : Fields
empty_fields =
    (codes "Type", [])
    ∷ (codes "Name", [])
    ∷ (codes "ReadFrom", [])
    ∷ (codes "ReadID", [])
    ∷ (codes "ReadValue", [])
    ∷ (codes "WriteTo", [])
    ∷ (codes "WriteID", [])
    ∷ (codes "WriteValue", [])
    ∷ (codes "WriteRul", [])
    ∷ (codes "ActionFrequency", [])
    ∷ []

template_text : rule_template ≡ object_text (codes "IOTRUL") empty_fields
template_text = refl

int_to_string-IsPlain : (z : ℤ) → All IsPlain (int_to_string z)
unfolding int_to_string
int_to_string-IsPlain (pos n) =
    All-weaken IsDigit IsPlain _ (λ c h. ground arith) (to_string-IsDigit n)
int_to_string-IsPlain (negsuc n) =
    (ground arith, All-weaken IsDigit IsPlain _ (λ c h. ground arith) (to_string-IsDigit (suc n)))

module _ (J : Jansson) (L : IsLawful J) where
  open L use {IsLegal}

  -- The texts of a rule can stand in JSON.
  pub record IsLegalRule (r : IoTRule) : Type 0 where
    pub type : IsLegal r.type
    pub name : IsLegal r.name
    pub read_from : IsLegal r.read_from
    pub read_id : IsLegal r.read_id
    pub read_value : IsLegal r.read_value
    pub write_to : IsLegal r.write_to
    pub write_id : IsLegal r.write_id
    pub write_value : IsLegal r.write_value
    pub write_rul : IsLegal r.write_rul
    pub frequency : IsInt r.action_frequency

  rule_of_record :
      (root : J.Json) (text frequency : Bytes) (r : IoTRule)
      → load_json_data J text ≡ some root
      → IsRecord J root (codes "IOTRUL") (rule_fields r frequency)
      → rule_of_content J text
        ≡ some (record r { action_frequency = atoi frequency; json_data = text })
  unfolding rule_of_content str_eq
  rule_of_record root text frequency r back i =
      let value : (k v : Bytes) → _ = λ k v. value-IsRecord J root (codes "IOTRUL") k v _ i in
      rw back (
        >>=_at _ (value (codes "Type") r.type refl)
        ∙ >>=_at _ (value (codes "Name") r.name refl)
        ∙ >>=_at _ (value (codes "ReadFrom") r.read_from refl)
        ∙ >>=_at _ (value (codes "ReadID") r.read_id refl)
        ∙ >>=_at _ (value (codes "ReadValue") r.read_value refl)
        ∙ >>=_at _ (value (codes "WriteTo") r.write_to refl)
        ∙ >>=_at _ (value (codes "WriteID") r.write_id refl)
        ∙ >>=_at _ (value (codes "WriteValue") r.write_value refl)
        ∙ >>=_at _ (value (codes "WriteRul") r.write_rul refl)
        ∙ >>=_at _ (value (codes "ActionFrequency") frequency refl))

  -- The packed rule: its text, and the value that this is read as.
  abbrev pub Packed : IoTRule → Type 0
  Packed r =
      (content : Bytes) × (root : J.Json) × (packet J r ≡ some (record r { json_data = content }))
      × (load_json_data J content ≡ some root)
      × (get_first_key_name J (some root) ≡ some (codes "IOTRUL"))
      × (rule_of_content J content ≡ some (record r { json_data = content }))

  finish : IoTRule → J.Json → Option IoTRule
  finish r root = export_json_content J root >>= λ content. some (record r { json_data = content })

  packet-chain :
      (r : IoTRule) (blank root : J.Json) (text : Bytes)
      → load_json_data J rule_template ≡ some blank
      → set_then J (rule_fields r (int_to_string r.action_frequency)) (finish r) blank
        ≡ finish r root
      → export_json_content J root ≡ some text
      → packet J r ≡ some (record r { json_data = text })
  unfolding packet finish
  packet-chain r blank root text load set dump = >>=_at _ load ∙ set ∙ >>=_at _ dump

  read-packed :
      (r : IoTRule) (root : J.Json) (text : Bytes)
      → IsInt r.action_frequency
      → load_json_data J text ≡ some root
      → IsRecord J root (codes "IOTRUL") (rule_fields r (int_to_string r.action_frequency))
      → rule_of_content J text ≡ some (record r { json_data = text })
  read-packed r root text h back i =
      rule_of_record root text (int_to_string r.action_frequency) r back i
      ∙ ap (λ z. some (record r { action_frequency = z; json_data = text }))
          (atoi-int_to_string r.action_frequency h)

  pub packet-Packed : (r : IoTRule) → IsLegalRule r → Packed r
  unfolding str_eq
  packet-Packed r h =
      let name = codes "IOTRUL" in
      let frequency = int_to_string r.action_frequency in
      let (blank, load, i0, s0) =
        loads-IsRecord J L name empty_fields (ground arith) (ground arith) (ground arith)
          (ground arith) in
      let (root, set, i, s) =
        set_then-IsRecord J L (rule_fields r frequency) (finish r) blank name _ i0 s0 (
          (refl, h.type),
          (
            (refl, h.name),
            (
              (refl, h.read_from),
              (
                (refl, h.read_id),
                (
                  (refl, h.read_value),
                  (
                    (refl, h.write_to),
                    (
                      (refl, h.write_id),
                      (
                        (refl, h.write_value),
                        (
                          (refl, h.write_rul),
                          (
                            (
                              refl,
                              L.legal_plain frequency (int_to_string-IsPlain r.action_frequency),
                            ),
                            tt,
                          ),
                        ),
                      ),
                    ),
                  ),
                ),
              ),
            ),
          ),
        ) in
      let (text, read, dump, back, again) = dumps-IsRecord J L root name _ i s in
      (
        text,
        read,
        packet-chain r blank root text load set dump,
        back,
        first_key-IsRecord J read name _ again,
        read-packed r read text h.frequency back again,
      )
