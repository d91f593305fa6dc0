-- ===== src/LoRa/Serial/Retry.antt =====
-- The tries of addNode and checkAlive, IoTRepublicPlus/Broker/LoRaBroker.cpp.
use io_trepublic_plus.Base.{
  ℕ, zero, suc, ◌≡◌, refl, sym, subst, inl, inr, Option-cases, length, leb, take, require, Bool,
  false, some, [], ◌∷◌, ◌++◌, Bytes, append-nil, codes, Returns, Returns-some, Returns-bind, arith,
}
use io_trepublic_plus.Base64.{base64_decode}
use io_trepublic_plus.LoRa.{Radio, enq_code, RecvResult, failed, succeed, timeout}
use io_trepublic_plus.LoRa.Serial.{
  acknowledged, capacity, clear_comport_buffer, node_data, rs232_send_buf, check_alive_from,
  clear_end_node_buffer, decoded, next_window, recv_data, recv_from, send_data, starts_with,
}

-- The buffer after the call is the one before with something behind it.
abbrev Extends : Bytes → Bytes → Type 0
Extends before got = (more : Bytes) × (got ≡ before ++ more)

decoded-Extends : (text before : Bytes) → Returns (Extends before) (decoded text before)
unfolding decoded
decoded-Extends text before = Returns-bind (Extends before) (base64_decode text) _ λ out e.
    Returns-bind (Extends before) (require (leb (length out.0) 2000)) _
      λ u e'. Returns-some (Extends before) (before ++ take out.1 out.0) (take out.1 out.0, refl)

recv_data-Extends :
    (reserved : ℕ) (address before : Bytes) (r : Radio)
    → Returns (λ got. Extends before got.1) (recv_data reserved address before r)
unfolding recv_data clear_comport_buffer
recv_data-Extends reserved address before r =
    let r1 = (next_window (rs232_send_buf (node_data address (enq_code ∷ [])) r)).1 in
    let w = (next_window r1).0 in
    elim (Option-cases (recv_from (capacity reserved before) w.start [] w.polls)) [
      | inl e ↦
          rw (recv_data, e)
            (Returns-some (λ got. Extends before got.1) _ ([], sym (append-nil before)))
      | inr (text, e) ↦
          rw (recv_data, e)
            (Returns-bind (λ got. Extends before got.1) (decoded text before) _
              λ got e'.
                Returns-some (λ got. Extends before got.1) _ (decoded-Extends text before got e'))
    ]

-- The buffer holds another answer than "ACK".
abbrev pub IsStale : Bytes → Type 0
IsStale buffer = starts_with (codes "ACK") buffer ≡ some false

starts_with-append :
    (es buffer more : Bytes)
    → starts_with es buffer ≡ some false
    → starts_with es (buffer ++ more) ≡ some false
unfolding starts_with
starts_with-append [] buffer more h = cc
starts_with-append (e ∷ es) [] more h = cc
starts_with-append (e ∷ es) (c ∷ cs) more h = ground (arith, starts_with-append es cs more)

acknowledged-IsStale :
    (result : RecvResult) (buffer : Bytes)
    → IsStale buffer
    → acknowledged result buffer ≡ some false
acknowledged-IsStale succeed buffer h = h
acknowledged-IsStale timeout buffer h = refl
acknowledged-IsStale failed buffer h = refl

check-IsStale :
    (address : Bytes) (n : ℕ) (buffer : Bytes) (r : Radio)
    → IsStale buffer
    → Returns (λ found. found.0 ≡ false) (check_alive_from address n buffer r)
unfolding check_alive_from
check-IsStale address zero buffer r h = Returns-some (λ found. found.0 ≡ false) _ refl
check-IsStale address (suc n) buffer r h =
    let P : Bool × Radio → Type 0 = λ found. found.0 ≡ false in
    Returns-bind P (send_data address (codes "SYN") (clear_end_node_buffer address r)) _ λ r1 e1.
      Returns-bind P (recv_data 2000 address buffer r1) _ λ got e2.
        let (more, e) = recv_data-Extends 2000 address buffer r1 got e2 in
        let stale : IsStale got.1 =
          subst IsStale (sym e) (starts_with-append (codes "ACK") buffer more h) in
        rw (acknowledged-IsStale got.0 got.1 stale) (check-IsStale address n got.1 got.2 stale)

-- Once a node has answered with something else than "ACK", the further tries of checkAlive do not find
-- it alive, whatever it answers to them: the old answer stays in front of the new ones.
pub check_alive_from-IsStale :
    (address : Bytes) (n : ℕ) (buffer : Bytes) (r r' : Radio) (alive : Bool)
    → IsStale buffer
    → check_alive_from address n buffer r ≡ some (alive, r')
    → alive ≡ false
check_alive_from-IsStale address n buffer r r' alive h e =
    check-IsStale address n buffer r h (alive, r') e
