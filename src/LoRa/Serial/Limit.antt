-- ===== src/LoRa/Serial/Limit.antt =====
-- How much getResponse of IoTRepublicPlus/Broker/LoRaBroker.cpp can read.
use io_trepublic_plus.Base.{
  ℕ, zero, suc, ◌+◌, ◌*◌, ◌/◌, ◌≤◌, ◌<◌, ◌≡◌, ap, Option-cases, inl, inr, some, some_inj, List, [],
  ◌∷◌, Bytes, length, length-take-le, leb, require, >>=-eq-some, Returns, Returns-none,
  Returns-some, Returns-bind, Returns-if, arith,
}
use io_trepublic_plus.Base64.{base64_decode, sextets}
use io_trepublic_plus.LoRa.{
  start_code, end_code, RecvResult, Radio, enq_code, end_device_buffer_size, failed, succeed,
  timeout,
}
use io_trepublic_plus.LoRa.Serial.{
  checked, clear_comport_buffer, next_window, node_data, rs232_send_buf, decoded, erase_codes,
  erase_index, find_code_index, get_response, recv_data, recv_from, strip_codes,
}
use io_trepublic_plus.LoRa.Serial.Frame.{recv_from-length}

-- The text has a character that is no symbol behind those that count.
sextets-length : (text : Bytes) → Returns (λ vs. length vs < length text) (sextets text)
unfolding sextets
sextets-length [] = Returns-none _
sextets-length (c ∷ cs) =
    let P : List ℕ → Type 0 = λ vs. length vs < suc (length cs) in
    Returns-if P _ _ _
      (Returns-bind P (sextets cs) _
        λ vs e. Returns-some P _ (omega (arith, sextets-length cs vs e)))
      (Returns-some P _ (omega arith))

-- Into an empty buffer, at most three bytes are decoded for each four characters.
decoded-length :
    (text : Bytes) → Returns (λ got. length got ≤ (length text + 2) / 4 * 3) (decoded text [])
unfolding decoded base64_decode
decoded-length text =
    let P : Bytes → Type 0 = λ got. length got ≤ (length text + 2) / 4 * 3 in
    Returns-bind P (base64_decode text) _ λ out e.
      let (vs, read, e1) = >>=-eq-some {B = Bytes × ℕ} (sextets text) _ e in
      Returns-bind P (require (leb (length out.0) 2000)) _ λ u e2. Returns-some P _ (
        omega (
          arith,
          length-take-le out.1 out.0,
          ap (λ o. o.1) (some_inj e1),
          sextets-length text vs read,
        ))

erase_index-length : (i : ℕ) (xs : Bytes) → Returns (λ ys. length ys < length xs) (erase_index i xs)
unfolding erase_index
erase_index-length i [] = Returns-none _
erase_index-length zero (x ∷ xs) = Returns-some (λ ys. length ys < suc (length xs)) xs (omega arith)
erase_index-length (suc i) (x ∷ xs) =
    let P : Bytes → Type 0 = λ ys. length ys < suc (length xs) in
    Returns-bind P (erase_index i xs) _
      λ ys e. Returns-some P _ (omega (arith, erase_index-length i xs ys e))

erase_codes-length :
    (i j : ℕ) (xs : Bytes) → Returns (λ ys. length ys + 2 ≤ length xs) (erase_codes i j xs)
unfolding erase_codes
erase_codes-length i zero xs = Returns-none _
erase_codes-length i (suc j) xs =
    Returns-bind (λ ys. length ys + 2 ≤ length xs) (erase_index i xs) _
      λ ys e zs e1. omega (arith, erase_index-length i xs ys e, erase_index-length j ys zs e1)

-- What getResponse gives back, if it succeeds, is two bytes shorter than the received data.
abbrev Stripped : ℕ → RecvResult × Bytes → Type 0
Stripped n (succeed, inner) = length inner + 2 ≤ n
Stripped n (timeout, inner) = Unit
Stripped n (failed, inner) = Unit

strip_codes-Stripped : (buffer : Bytes) → Returns (Stripped (length buffer)) (strip_codes buffer)
unfolding strip_codes
strip_codes-Stripped buffer = elim (Option-cases (find_code_index start_code buffer)) [
  | inl h ↦ rw (strip_codes, h) (Returns-some (Stripped (length buffer)) _ tt)
  | inr (i, h) ↦ elim (Option-cases (find_code_index end_code buffer)) [
    | inl k ↦ rw (strip_codes, h, k) (Returns-some (Stripped (length buffer)) _ tt)
    | inr (j, k) ↦
        rw (strip_codes, h, k)
          (Returns-bind (Stripped (length buffer)) (erase_codes i j buffer) _ λ inner e.
            Returns-some (Stripped (length buffer)) _ (erase_codes-length i j buffer inner e))
  ]
]

-- What the receive call gives, if it succeeds.
abbrev Received : RecvResult × Bytes × Radio → Type 0
Received (succeed, buffer, r) = length buffer ≤ 30
Received (timeout, buffer, r) = Unit
Received (failed, buffer, r) = Unit

recv_data-Received :
    (address : Bytes) (r : Radio) → Returns Received (recv_data end_device_buffer_size address [] r)
unfolding recv_data clear_comport_buffer
recv_data-Received address r =
    let r1 = (next_window (rs232_send_buf (node_data address (enq_code ∷ [])) r)).1 in
    let w = (next_window r1).0 in
    elim (Option-cases (recv_from 20 w.start [] w.polls)) [
      | inl e ↦ rw (recv_data, e) (Returns-some Received _ tt)
      | inr (text, e) ↦
          rw (recv_data, e)
            (Returns-bind Received (decoded text []) _ λ got e1. Returns-some Received _ (
              omega
                (arith, decoded-length text got e1, recv_from-length 20 w.start [] w.polls text e)))
    ]

Stripped-le : (n : ℕ) (got : RecvResult × Bytes) → Stripped n got → n ≤ 30 → Stripped 30 got
Stripped-le n (succeed, inner) h le = omega (arith, h)
Stripped-le n (timeout, inner) h le = tt
Stripped-le n (failed, inner) h le = tt

checked-Stripped :
    (received : RecvResult × Bytes × Radio)
    → Received received
    → Returns (λ got. Stripped 30 (got.0, got.1)) (checked received)
checked-Stripped (succeed, buffer, r) h =
    let P : RecvResult × Bytes × Radio → Type 0 = λ got. Stripped 30 (got.0, got.1) in
    Returns-bind P (strip_codes buffer) _ λ got e.
      Returns-some P _ (Stripped-le (length buffer) got (strip_codes-Stripped buffer got e) h)
checked-Stripped (timeout, buffer, r) h =
    Returns-some (λ got. Stripped 30 (got.0, got.1)) (timeout, buffer, r) tt
checked-Stripped (failed, buffer, r) h =
    Returns-some (λ got. Stripped 30 (got.0, got.1)) (failed, buffer, r) tt

-- With the buffer that handleForwardingPackage reserves, a value of more than 28 bytes is never read from an
-- end device: whatever comes in on the port, where getResponse succeeds it gives at most 28 bytes.
pub get_response-length :
    (address value : Bytes) (r r' : Radio)
    → get_response end_device_buffer_size address [] r ≡ some (succeed, value, r')
    → length value ≤ 28
unfolding get_response
get_response-length address value r r' e =
    let (got, received, e1) = >>=-eq-some (recv_data end_device_buffer_size address [] r) _ e in
    let short =
      checked-Stripped got (recv_data-Received address r got received) (succeed, value, r') e1 in
    omega (arith, short)
