-- ===== src/Broker/Known.antt =====
-- A broker that knows the address of its manager keeps it when it asks for more of its own
-- (askIoTIp of IoTRepublicPlus/Broker/IBroker.cpp).
use io_trepublic_plus.Base.{
  ◌≡◌, refl, ap, ◌∙◌, false, Option, none, some, List, [], ◌∷◌, ◌++◌, Bytes, Returns, Returns-some,
  Returns-none, Returns-bind, Returns-if, ◌||◌,
}
use io_trepublic_plus.Package.{IoTPackage}
use io_trepublic_plus.Framing.{get_completed_package, Taken}
use io_trepublic_plus.Manager.State.{is_empty}
use io_trepublic_plus.Broker.{
  ask_call, ask_from, ask_iot_ip, broker_utility, parse_received_buffer, parsed,
}

module _ (known : Bytes) (k : is_empty known ≡ false) where
  -- The manager's address in an answer, where there is one, is the one that was known.
  abbrev Answered : Option (Bytes × Bytes) → Type 0
  Answered none = Unit
  Answered (some answer) = answer.1 ≡ known

  parsed-known :
      (self : Bytes) (t : Taken) (pkg : Option IoTPackage)
      → (parsed self known (record t { result = pkg })).1 ≡ known
  parsed-known self t none = refl
  parsed-known self t (some pkg) = rw k refl

  parse-known :
      (self manager buffer : Bytes)
      → manager ≡ known
      → Returns (λ out. out.1 ≡ known) (parse_received_buffer self manager buffer)
  unfolding parse_received_buffer
  parse-known self manager buffer e =
      let P : Bytes × Bytes × Bytes → Type 0 = λ out. out.1 ≡ known in
      Returns-bind P (get_completed_package broker_utility buffer) _ λ t e'.
        Returns-some P (parsed self manager t)
          (ap (λ m. (parsed self m t).1) e ∙ parsed-known self t t.result)

  ask_from-known :
      (self manager buffer : Bytes) (parts : List Bytes)
      → manager ≡ known
      → Returns Answered (ask_from self manager buffer parts)
  unfolding ask_from
  ask_from-known self manager buffer [] e = Returns-some Answered none tt
  ask_from-known self manager buffer (c ∷ cs) e =
      Returns-if Answered (is_empty (buffer ++ c)) _ _
        (ask_from-known self manager (buffer ++ c) cs e)
        (Returns-bind Answered (parse_received_buffer self manager (buffer ++ c)) _ λ out e'.
          let same = parse-known self manager (buffer ++ c) e out e' in
          Returns-if Answered (is_empty out.0 || is_empty out.1) _ _
            (ask_from-known out.0 out.1 out.2 cs same)
            (Returns-some Answered (some (out.0, out.1)) same))

  answered : (o : Option (Bytes × Bytes)) → Answered o → Returns (λ out. out.1 ≡ known) o
  answered none h = Returns-none _
  answered (some answer) h = Returns-some (λ out. out.1 ≡ known) answer h

  pub ask_call-known :
      (outcome : Option (List Bytes)) → Returns (λ out. out.1 ≡ known) (ask_call known outcome)
  unfolding ask_call ask_iot_ip
  ask_call-known none = Returns-some (λ out. out.1 ≡ known) ([], known) refl
  ask_call-known (some parts) =
      Returns-bind (λ out. out.1 ≡ known) (ask_from [] known [] parts) _
        λ o e. answered o (ask_from-known [] known [] parts refl o e)
