-- ===== src/Command/RoundTrip.antt =====
-- A command through its text: the constructors of IoTRepublicPlus/IoT/IoTCommand.h.
use io_trepublic_plus.Base.{
  ◌≡◌, ◌≢◌, refl, ap, ◌∙◌, some, [], ◌∷◌, Bytes, codes, str_eq, ◌>>=◌, arith,
}
use io_trepublic_plus.Json.{Jansson, load_json_data, export_json_content}
use io_trepublic_plus.Json.Laws.{
  Fields, IsLawful, IsRecord, dumps-IsRecord, first_key-IsRecord, loads-IsRecord, set_then-IsRecord,
  object_text, value-IsRecord,
}
use io_trepublic_plus.Command.{
  fill, CommandType, no_type, read_request, read_response, write, management, IoTCommand,
  command_of, command_of_content, command_template, type_of_str, type_str,
}

abbrev command_fields : Bytes → Bytes → Bytes → Fields
command_fields type id value = (codes "Type", type) ∷ (codes "ID", id) ∷ (codes "Value", value) ∷ []

template_text :
    command_template
    ≡ object_text (codes "IOTCMD") (command_fields (codes "None") (codes "0") (codes "0"))
template_text = refl

type_of_str-type_str : (t : CommandType) → t ≢ no_type → type_of_str (type_str t) ≡ some t
unfolding type_of_str type_str str_eq
type_of_str-type_str no_type h = absurd (h refl)
type_of_str-type_str read_request h = refl
type_of_str-type_str read_response h = refl
type_of_str-type_str write h = refl
type_of_str-type_str management h = refl

module _ (J : Jansson) (L : IsLawful J) where
  open L use {IsLegal}

  type-IsLegal : (t : CommandType) → IsLegal (type_str t)
  unfolding type_str
  type-IsLegal no_type = L.legal_plain _ (ground arith)
  type-IsLegal read_request = L.legal_plain _ (ground arith)
  type-IsLegal read_response = L.legal_plain _ (ground arith)
  type-IsLegal write = L.legal_plain _ (ground arith)
  type-IsLegal management = L.legal_plain _ (ground arith)

  command_of_record :
      (root : J.Json) (text : Bytes) (t : CommandType) (id value : Bytes)
      → load_json_data J text ≡ some root
      → IsRecord J root (codes "IOTCMD") (command_fields (type_str t) id value)
      → t ≢ no_type
      → command_of_content J text
        ≡ some (record { cmd_type = some t; id = id; value = value; sended_data = text })
  unfolding command_of_content str_eq
  command_of_record root text t id value back i known =
      let name = codes "IOTCMD" in
      rw
        (
          back,
          first_key-IsRecord J root name _ i,
          value-IsRecord J root name (codes "ID") id _ i refl,
          value-IsRecord J root name (codes "Value") value _ i refl,
          value-IsRecord J root name (codes "Type") (type_str t) _ i refl,
          type_of_str-type_str t known,
        )
        refl

  -- A command of a type, with any id and value that JSON can hold, is made without an exception, and the
  -- receiver's constructor makes the same command, every field of it, of its text.
  pub command_of_content-command_of :
      (cmd_type : CommandType) (id value : Bytes)
      → cmd_type ≢ no_type
      → IsLegal id
      → IsLegal value
      → (cmd : IoTCommand) × (command_of J cmd_type id value ≡ some cmd)
        × (command_of_content J cmd.sended_data ≡ some cmd)
  unfolding command_of command_of_content str_eq
  command_of_content-command_of t id value known legal_id legal_value =
      let name = codes "IOTCMD" in
      let (r0, load, i0, s0) =
        loads-IsRecord J L name (command_fields (codes "None") (codes "0") (codes "0"))
          (ground arith) (ground arith) (ground arith) (ground arith) in
      let (last, set, i, s) =
        set_then-IsRecord J L (command_fields (type_str t) id value) (export_json_content J) r0 name
          _ i0 s0 ((refl, type-IsLegal t), ((refl, legal_id), ((refl, legal_value), tt))) in
      let (text, read, dump, back, again) = dumps-IsRecord J L last name _ i s in
      let sent : IoTCommand = record {
        cmd_type = some t;
        id = id;
        value = value;
        sended_data = text;
      } in
      (
        sent,
        ap (λ o. fill J o t id value >>= λ sended. some (record sent { sended_data = sended })) load
            ∙ ap (λ o. o >>= λ sended. some (record sent { sended_data = sended })) (set ∙ dump),
        command_of_record read text t id value back again known,
      )
