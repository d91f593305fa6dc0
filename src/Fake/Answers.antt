-- ===== src/Fake/Answers.antt =====
-- The answers of IoTRepublicPlus/Broker/FakeBroker.cpp.
use io_trepublic_plus.Base.{
  ℕ, suc, ◌+◌, ◌^◌, ◌<◌, ◌≡◌, refl, sym, ap, ◌∙◌, some, List, [], ◌∷◌, ◌++◌, Bytes, All, length,
  length-snoc, lt→ltb, if◌then◌else◌, >>=-eq-some, some_inj, Returns, Returns-some, Returns-bind,
  arith,
}
use io_trepublic_plus.Package.{IoTPackage}
use io_trepublic_plus.Json.{Jansson}
use io_trepublic_plus.Command.{
  CommandType, command_of, command_of_content, management, no_type, read_request, read_response,
  write,
}
use io_trepublic_plus.Manager.Stream.{Message, IsSendable, Pending, sent_package, wires}
use io_trepublic_plus.Broker.{drain}
use io_trepublic_plus.Broker.Drain.{drain-wires, handle_all}
use io_trepublic_plus.Fake.{FakeBroker, answer_package, answer_value, fake_round, rand}

one_longer : (s s' : List Bytes) (y : Bytes) → s' ≡ s → length (s' ++ (y ∷ [])) ≡ suc (length s)
one_longer s s' y e = omega (arith, ap length e, length-snoc s' y)

module _ (J : Jansson) where
  rand-sent :
      (rands : List ℕ) (b : FakeBroker) → (rand (record b { rands = rands })).1.sent ≡ b.sent
  unfolding rand
  rand-sent [] b = refl
  rand-sent (r ∷ rs) b = refl

  answer_value-sent : (t : CommandType) (b : FakeBroker) → (answer_value J t b).1.sent ≡ b.sent
  unfolding answer_value
  answer_value-sent read_request b = rand-sent b.rands b
  answer_value-sent no_type b = refl
  answer_value-sent read_response b = refl
  answer_value-sent write b = refl
  answer_value-sent management b = refl

  abbrev OneMore : FakeBroker → FakeBroker → Type 0
  OneMore b b' = length b'.sent ≡ suc (length b.sent)

  answer_package-OneMore :
      (pkg : IoTPackage) (b : FakeBroker) → Returns (OneMore b) (answer_package J pkg b)
  unfolding answer_package
  answer_package-OneMore pkg b =
      let P = OneMore b in
      Returns-bind P (command_of_content J pkg.data_vector) _ λ cmd e.
        Returns-bind P cmd.cmd_type _ λ cmd_type e1.
          Returns-bind P (command_of J read_response cmd.id (answer_value J cmd_type b).0) _
            λ r e2. Returns-some P _ (one_longer _ _ _ (answer_value-sent cmd_type b))

  handle_all-length :
      (xs : List Message) (b : FakeBroker)
      → Returns
          (λ b'. length b'.sent ≡ length b.sent + length xs)
          (handle_all (answer_package J) xs b)
  unfolding handle_all
  handle_all-length [] b = Returns-some (λ b'. length b'.sent ≡ length b.sent + 0) b (omega arith)
  handle_all-length (x ∷ xs) b =
      let P : FakeBroker → Type 0 = λ b'. length b'.sent ≡ length b.sent + suc (length xs) in
      Returns-bind P (answer_package J (sent_package x) b) _ λ b1 e b' e'.
        omega (arith, answer_package-OneMore (sent_package x) b b1 e, handle_all-length xs b1 b' e')

  -- When the buffer with what has come in holds whole messages and then a proper front part of one, not
  -- both empty, and the round returns, the broker has kept the front part and sent the manager exactly one
  -- answer for each message.
  pub fake_round-length :
      (buffer came pre buffer' : Bytes) (xs : List Message) (b b' : FakeBroker)
      → All IsSendable xs
      → Pending pre
      → buffer ++ came ≡ wires xs ++ pre
      → 0 < length (buffer ++ came)
      → length (buffer ++ came) < 2 ^ 31
      → fake_round J came (buffer, b) ≡ some (buffer', b')
      → (buffer' ≡ pre) × (length b'.sent ≡ length b.sent + length xs)
  unfolding fake_round
  fake_round-length buffer came pre buffer' xs b b' sendable pending split some_bytes short e =
      let handled =
        (λ i.
          if lt→ltb 0 (length (buffer ++ came)) some_bytes i
          then drain (answer_package J) (suc (length (split i))) (split i) b
          else some (buffer ++ came, b))
        ∙ drain-wires (answer_package J) (suc (length (wires xs ++ pre))) xs pre b sendable pending
            (omega (arith, short, ap length split)) (omega arith) in
      let (b1, e1, e2) =
        >>=-eq-some {B = Bytes × FakeBroker} (handle_all (answer_package J) xs b)
          (λ b1. some (pre, b1)) (sym handled ∙ e) in
      let same = some_inj e2 in
      (
        ap (λ out. out.0) (sym same),
        omega (arith, handle_all-length xs b b1 e1, ap (λ out. length out.1.sent) same),
      )
