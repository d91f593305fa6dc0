-- ===== src/Manager/Stream.antt =====
-- What the manager makes of the bytes that come in on a socket.
use io_trepublic_plus.Base.{
  ℕ, zero, suc, ◌+◌, ◌/◌, ◌%◌, ◌^◌, ◌<◌, ◌≤◌, ◌≡◌, ◌≢◌, inl, inr, sym, subst, ap, ◌∙◌, false,
  Option, some, List, [], ◌∷◌, ◌++◌, arith, Bytes, length, ◌>>=◌, >>=_assoc, All, fun_ext,
  length-append, append_assoc, append-nil, Option-cases,
}
use io_trepublic_plus.Package.{IoTPackage, package_of_string, protocol_version, segment_symbol}
use io_trepublic_plus.Package.Checksum.SignedBytes.{IsAscii}
use io_trepublic_plus.Framing.{get_completed_package, no_error, GetPackageError}
use io_trepublic_plus.Framing.Frame.{body}
use io_trepublic_plus.Framing.Consumes.{get_completed_package-Cut}
use io_trepublic_plus.Framing.Sent.{
  IsMessage, message_bytes, wire, wire-frame, frame_of, frame_of-IsFrame, folded,
}
use io_trepublic_plus.Framing.RoundTrip.{get_completed_package-package_of_string}
use io_trepublic_plus.Framing.Incomplete.{IsIncomplete, Waits, get_completed_package-IsIncomplete}
use io_trepublic_plus.Json.{Jansson}
use io_trepublic_plus.Manager.State.{Manager}
use io_trepublic_plus.Manager.Handle.{manager_utility, is_data_error, dispatch, handle_loop}

module _ (J : Jansson) (socket_index : ℕ) where
  -- One round of the loop for a package that is returned.
  handle_loop-taken :
      (f : ℕ) (buffer rest : Bytes) (p : IoTPackage) (m : Manager)
      → get_completed_package manager_utility buffer
        ≡ some (record { result = some p; error = no_error; buffer = rest })
      → handle_loop J (suc f) socket_index buffer m
        ≡ (dispatch J socket_index p m >>= λ m1. handle_loop J f socket_index rest m1)
  unfolding handle_loop
  handle_loop-taken f buffer rest p m e = rw (e, handle_loop)

  -- With fuel that is more than the buffer's length the loop ends by its test: more fuel gives the
  -- same.
  pub handle_loop-fuel :
      (f g : ℕ) (buffer : Bytes) (m : Manager)
      → length buffer < 2 ^ 31
      → length buffer < f
      → length buffer < g
      → handle_loop J f socket_index buffer m ≡ handle_loop J g socket_index buffer m
  unfolding handle_loop
  handle_loop-fuel zero g buffer m short hf hg = elim hf [ ]
  handle_loop-fuel (suc f) zero buffer m short hf hg = elim hg [ ]
  handle_loop-fuel (suc f) (suc g) buffer m short hf hg =
      elim (Option-cases (get_completed_package manager_utility buffer)) [
        | inl thrown ↦ rw (thrown, handle_loop)
        | inr (t, e) ↦ elim (get_completed_package-Cut manager_utility buffer short e) [
          | inl cut ↦
              rw (e, handle_loop, cut.is_result)
                (ap (λ next. dispatch J socket_index cut.pkg m >>= next)
                  (fun_ext λ m1.
                    handle_loop-fuel f g t.buffer m1 (omega (arith, cut.takes_two))
                      (omega (arith, cut.takes_two)) (omega (arith, cut.takes_two))))
          | inr refusal ↦ rw (e, handle_loop, refusal.no_result)
        ]
      ]

-- A message to or from the manager: the addresses and the content.
pub record Message : Type 0 where
  pub so_ip : Bytes
  pub des_ip : Bytes
  pub content : Bytes

-- What both ends agree on: no '\0' in the addresses, bytes below 128, a header length guessed right,
-- lengths that fit an `int`.
pub record IsSendable (x : Message) : Type 0 where
  pub message : IsMessage protocol_version x.so_ip x.des_ip x.content
  pub ascii : All IsAscii (message_bytes protocol_version x.so_ip x.des_ip x.content)

abbrev pub sent_package : Message → IoTPackage
sent_package x = package_of_string protocol_version x.so_ip x.des_ip x.content

abbrev pub wire_of : Message → Bytes
wire_of x = wire protocol_version x.so_ip x.des_ip x.content

abbrev pub wires : List Message → Bytes
wires [] = []
wires (x ∷ xs) = wire_of x ++ wires xs

-- A proper front part of a message, such as none of it.
pub record Pending (pre : Bytes) : Type 0 where
  pub message : Message
  pub sendable : IsSendable message
  pub missing : Bytes
  pub not_whole : missing ≢ []
  pub splits : pre ++ missing ≡ wire_of message

pub Pending-Waits : (pre : Bytes) → Pending pre → Waits segment_symbol protocol_version pre
Pending-Waits pre p =
    let x = p.message in
    let k = p.sendable.message in
    get_completed_package-IsIncomplete (frame_of protocol_version x.so_ip x.des_ip x.content)
      (frame_of-IsFrame protocol_version x.so_ip x.des_ip x.content k) _ _ pre p.missing
      segment_symbol
      (p.splits
        ∙ sym (append-nil (wire_of x))
        ∙ wire-frame protocol_version x.so_ip x.des_ip x.content k [])
      p.not_whole

pub wire-two :
    (x : Message) (rest : Bytes) → IsSendable x → length rest + 2 ≤ length (wire_of x ++ rest)
wire-two x rest s =
    let e = wire-frame protocol_version x.so_ip x.des_ip x.content s.message rest in
    omega (
      arith,
      ap length e,
      length-append (body (frame_of protocol_version x.so_ip x.des_ip x.content)) (
          folded protocol_version x.so_ip x.des_ip x.content s.message / 256 % 256
          ∷ folded protocol_version x.so_ip x.des_ip x.content s.message % 256
          ∷ rest),
    )

incomplete-not-data_error : (e : GetPackageError) → IsIncomplete e → is_data_error e ≡ false
incomplete-not-data_error e h = ground arith

module _ (J : Jansson) (socket_index : ℕ) where
  -- The packages of some messages, dispatched one after the other.
  unfoldable pub dispatch_all : List Message → Manager → Option Manager
  dispatch_all [] m = some m
  dispatch_all (x ∷ xs) m = dispatch J socket_index (sent_package x) m >>= dispatch_all xs

  handle_loop-Pending :
      (f : ℕ) (pre : Bytes) (m : Manager)
      → Pending pre
      → handle_loop J (suc f) socket_index pre m ≡ some (pre, m)
  unfolding handle_loop
  handle_loop-Pending f pre m p =
      let (e, i, h) = Pending-Waits pre p in rw (h, handle_loop, incomplete-not-data_error e i)

  -- A buffer shorter than 2 ^ 31 bytes that holds whole messages and then a proper front part of one:
  -- on fuel that is more than its length, the loop dispatches the very packages that were sent, each
  -- once and in their order, and leaves the front part.
  pub handle_loop-wires :
      (f : ℕ) (xs : List Message) (pre : Bytes) (m : Manager)
      → All IsSendable xs
      → Pending pre
      → length (wires xs ++ pre) < 2 ^ 31
      → length (wires xs ++ pre) < f
      → handle_loop J f socket_index (wires xs ++ pre) m
        ≡ (dispatch_all xs m >>= λ m1. some (pre, m1))
  unfolding dispatch_all
  handle_loop-wires zero xs pre m s p short h = elim h [ ]
  handle_loop-wires (suc f) [] pre m s p short h = handle_loop-Pending f pre m p
  handle_loop-wires (suc f) (x ∷ xs) pre m (s, ss) p short h =
      let rest = wires xs ++ pre in
      let joined = append_assoc (wire_of x) (wires xs) pre in
      let small : length (wire_of x ++ rest) < 2 ^ 31 =
        subst (λ b. length b < 2 ^ 31) joined short in
      let got =
        get_completed_package-package_of_string protocol_version x.so_ip x.des_ip x.content rest
          segment_symbol s.message s.ascii small in
      let shorter = wire-two x rest s in
      let same = ap length joined in
      ap (λ b. handle_loop J (suc f) socket_index b m) joined
      ∙ handle_loop-taken J socket_index f (wire_of x ++ rest) rest (sent_package x) m got
      ∙ ap (λ next. dispatch J socket_index (sent_package x) m >>= next)
          (fun_ext λ m1.
            handle_loop-wires f xs pre m1 ss p (omega (arith, shorter))
              (omega (arith, shorter, same)))
      ∙ sym (
          >>=_assoc (dispatch J socket_index (sent_package x) m) (dispatch_all xs)
            λ m1. some (pre, m1))
