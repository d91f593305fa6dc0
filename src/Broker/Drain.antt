-- ===== src/Broker/Drain.antt =====
-- The loop over a broker's receive buffer (`drain`): it ends, it hands on the messages in the buffer,
-- and it stops for good at a wrong start.
use io_trepublic_plus.Base.{
  ℕ, zero, suc, ◌^◌, ◌<◌, ◌≡◌, ◌≢◌, refl, inl, inr, sym, subst, ap, ◌∙◌, Option, none, some, List,
  [], ◌∷◌, ◌++◌, arith, Bytes, length, ◌>>=◌, >>=_assoc, All, fun_ext, append_assoc, Option-cases,
}
use io_trepublic_plus.Package.{IoTPackage, protocol_version, segment_symbol}
use io_trepublic_plus.Framing.{GetPackageError, no_error, get_completed_package, Taken}
use io_trepublic_plus.Framing.Consumes.{get_completed_package-Cut}
use io_trepublic_plus.Framing.Incomplete.{IsIncomplete}
use io_trepublic_plus.Framing.RoundTrip.{get_completed_package-package_of_string}
use io_trepublic_plus.Manager.Stream.{
  Message, IsSendable, sent_package, wire_of, wires, Pending, Pending-Waits, wire-two,
}
use io_trepublic_plus.Broker.{broker_utility, drain, handle_result}

module _ {ℓ} {S : Type ℓ} (handle : IoTPackage → S → Option S) where
  -- What follows a package, by the error that came with it.
  abbrev after : (Bytes → S → Option (Bytes × S)) → Taken → S → Option (Bytes × S)
  after again t s = elim t.error [ no_error ↦ again t.buffer s | _ ↦ some (t.buffer, s) ]

  after-refused :
      (e : GetPackageError) (again again' : Bytes → S → Option (Bytes × S)) (t : Taken) (s : S)
      → t.error ≡ e
      → e ≢ no_error
      → after again t s ≡ after again' t s
  after-refused e again again' t s h k = ground arith

  -- On fuel that is more than the buffer's length, more fuel gives the same.
  pub drain-fuel :
      (f g : ℕ) (buffer : Bytes) (s : S)
      → length buffer < 2 ^ 31
      → length buffer < f
      → length buffer < g
      → drain handle f buffer s ≡ drain handle g buffer s
  unfolding drain
  drain-fuel zero g buffer s short hf hg = elim hf [ ]
  drain-fuel (suc f) zero buffer s short hf hg = elim hg [ ]
  drain-fuel (suc f) (suc g) buffer s short hf hg =
      elim (Option-cases (get_completed_package broker_utility buffer)) [
        | inl e ↦ rw (e, drain) refl
        | inr (t, e) ↦ elim (get_completed_package-Cut broker_utility buffer short e) [
          | inl cut ↦
              rw (e, drain, cut.is_no_error)
                (ap (λ next. handle_result handle t.result s >>= next)
                  (fun_ext λ s1.
                    drain-fuel f g t.buffer s1 (omega (arith, cut.takes_two))
                      (omega (arith, cut.takes_two)) (omega (arith, cut.takes_two))))
          | inr refusal ↦
              rw (e, drain)
                (ap (λ next. handle_result handle t.result s >>= next)
                  (fun_ext λ s1.
                    after-refused t.error (drain handle f) (drain handle g) t s1 refl
                      refusal.is_error.0))
        ]
      ]

  -- The packages of some messages, handled one after the other.
  unfoldable pub handle_all : List Message → S → Option S
  handle_all [] s = some s
  handle_all (x ∷ xs) s = handle (sent_package x) s >>= handle_all xs

  drain-taken :
      (f : ℕ) (buffer rest : Bytes) (p : IoTPackage) (s : S)
      → get_completed_package broker_utility buffer
        ≡ some (record { result = some p; error = no_error; buffer = rest })
      → drain handle (suc f) buffer s ≡ (handle p s >>= λ s1. drain handle f rest s1)
  unfolding drain
  drain-taken f buffer rest p s e = rw (e, drain)

  after-incomplete :
      (e : GetPackageError) (again : Bytes → S → Option (Bytes × S)) (buffer : Bytes) (s : S)
      → IsIncomplete e
      → after again (record { result = none; error = e; buffer = buffer }) s ≡ some (buffer, s)
  after-incomplete e again buffer s h = ground arith

  drain-Pending :
      (f : ℕ) (pre : Bytes) (s : S) → Pending pre → drain handle (suc f) pre s ≡ some (pre, s)
  unfolding drain
  drain-Pending f pre s p =
      let (e, i, h) = Pending-Waits pre p in
      rw (h, drain) (after-incomplete e (drain handle f) pre s i)

  -- A buffer that holds whole messages and then a proper front part of one: each message is handled
  -- once, in order, and the front part is left.
  pub drain-wires :
      (f : ℕ) (xs : List Message) (pre : Bytes) (s : S)
      → All IsSendable xs
      → Pending pre
      → length (wires xs ++ pre) < 2 ^ 31
      → length (wires xs ++ pre) < f
      → drain handle f (wires xs ++ pre) s ≡ (handle_all xs s >>= λ s1. some (pre, s1))
  unfolding handle_all
  drain-wires zero xs pre s k p short h = elim h [ ]
  drain-wires (suc f) [] pre s k p short h = drain-Pending f pre s p
  drain-wires (suc f) (x ∷ xs) pre s (k, ks) p short h =
      let rest = wires xs ++ pre in
      let joined = append_assoc (wire_of x) (wires xs) pre in
      let small : length (wire_of x ++ rest) < 2 ^ 31 =
        subst (λ b. length b < 2 ^ 31) joined short in
      let got =
        get_completed_package-package_of_string protocol_version x.so_ip x.des_ip x.content rest
          segment_symbol k.message k.ascii small in
      let shorter = wire-two x rest k in
      let same = ap length joined in
      ap (λ b. drain handle (suc f) b s) joined
      ∙ drain-taken f (wire_of x ++ rest) rest (sent_package x) s got
      ∙ ap (λ next. handle (sent_package x) s >>= next)
          (fun_ext λ s1.
            drain-wires f xs pre s1 ks p (omega (arith, shorter)) (omega (arith, shorter, same)))
      ∙ sym (>>=_assoc (handle (sent_package x) s) (handle_all xs) λ s1. some (pre, s1))
