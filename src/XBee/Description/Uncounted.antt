-- ===== src/XBee/Description/Uncounted.antt =====
-- The tries of askDeviceDescription, IoTRepublicPlus/Broker/XBeeBroker_ApiMode.cpp, in which no whole
-- message comes.
use io_trepublic_plus.Base.{
  ℕ, suc, ◌+◌, ◌≤◌, ◌<◌, ◌≡◌, refl, inl, inr, Option-cases, ap, ◌∙◌, false, true, some, List, [],
  ◌∷◌, Bytes, codes, length, lt→ltb, le→not-ltb, elapsed, All, arith,
}
use io_trepublic_plus.XBee.{XBee, XBeeAddress64, rx_response, timeout, tx_status_response}
use io_trepublic_plus.XBee.Module.{
  erase_ends, has_codes, read_packet, recv_data, recv_from, recv_response, response_of, send_data,
  waited,
}
use io_trepublic_plus.XBee.Module.Receive.{erase_ends-none_iff}
use io_trepublic_plus.XBee.Description.{describe}

-- A try: what comes of a message before the time is up, and the three readings of the clock, at the start of
-- the wait, when that comes and when the time is up.
pub record Try : Type 0 where
  pub content : Bytes
  pub start_time : ℕ
  pub early : ℕ
  pub late : ℕ

-- Two bytes or more come, which are no whole message, and then nothing for a second.
pub record IsUnanswered (t : Try) : Type 0 where
  pub not_whole : has_codes t.content ≡ false
  pub some_bytes : 2 ≤ length t.content
  pub in_time : elapsed t.early t.start_time ≤ 1000
  pub over : 1000 < elapsed t.late t.start_time

-- The module with the tries in front of it, each of which acknowledges the request that was sent.
abbrev pub before : List Try → XBee → XBee
before [] x = x
before (t ∷ ts) x =
    let later = before ts x in
    record later {
      clock = t.start_time ∷ t.early ∷ t.late ∷ later.clock;
      packets = some (tx_status_response true) ∷ some (rx_response true t.content) ∷ later.packets;
    }

-- The requests of the tries.
abbrev pub asked : XBeeAddress64 → List Try → XBee → XBee
asked address [] x = x
asked address (t ∷ ts) x = asked address ts (send_data address (codes "DES") x)

erase_ends-two :
    (content : Bytes) → 2 ≤ length content → (inner : Bytes) × (erase_ends content ≡ some inner)
erase_ends-two content h = elim (Option-cases (erase_ends content)) [
  | inl nothing ↦
      let short : length content < 2 = (erase_ends-none_iff content).0 nothing in ground arith
  | inr left ↦ left
]

recv_data-unanswered :
    (t : Try) (x : XBee)
    → IsUnanswered t
    → (inner : Bytes) × (recv_data [] 1000 (record x {
      clock = t.start_time ∷ t.early ∷ t.late ∷ x.clock;
      packets = some (rx_response true t.content) ∷ x.packets;
    })
        ≡ some (timeout, inner, x))
unfolding recv_data waited recv_from recv_response read_packet response_of
recv_data-unanswered t x u =
    let (inner, e) = erase_ends-two t.content u.some_bytes in
    (
      inner,
      rw
          (
            le→not-ltb 1000 (elapsed t.early t.start_time) u.in_time,
            lt→ltb 1000 (elapsed t.late t.start_time) u.over,
            u.not_whole,
            e,
          )
          refl,
    )

before-send_data :
    (ts : List Try) (address : XBeeAddress64) (content : Bytes) (x : XBee)
    → send_data address content (before ts x) ≡ before ts (send_data address content x)
unfolding send_data
before-send_data [] address content x = refl
before-send_data (t ∷ ts) address content x =
    ap (before (t ∷ [])) (before-send_data ts address content x)

one_try :
    (address : XBeeAddress64) (t : Try) (f try_times sum : ℕ) (x : XBee) (inner : Bytes)
    → recv_data [] 1000 (record (send_data address (codes "DES") x) {
      clock = t.start_time ∷ t.early ∷ t.late ∷ x.clock;
      packets = some (rx_response true t.content) ∷ x.packets;
    })
      ≡ some (timeout, inner, send_data address (codes "DES") x)
    → describe address (suc f) try_times sum (before (t ∷ []) x)
      ≡ describe address f try_times sum (send_data address (codes "DES") x)
unfolding describe send_data recv_response read_packet response_of
one_try address t f try_times sum x inner e = rw (describe, e) refl

-- A try that receives two bytes or more in its second, but no whole message, is not counted: after any
-- number of such tries, each with its request acknowledged, askDeviceDescription has sent the request once
-- more for each of them and goes on as if they had not been, with the same count and the same sum. So no
-- number of tries bounds the loop, which goes on as long as such answers come.
pub describe-uncounted :
    (address : XBeeAddress64) (ts : List Try) (f try_times sum : ℕ) (x : XBee)
    → All IsUnanswered ts
    → describe address (length ts + f) try_times sum (before ts x)
      ≡ describe address f try_times sum (asked address ts x)
unfolding send_data
describe-uncounted address [] f try_times sum x h =
    ap (λ n. describe address n try_times sum x) (omega arith)
describe-uncounted address (t ∷ ts) f try_times sum x (u, h) =
    let (inner, e) = recv_data-unanswered t (send_data address (codes "DES") (before ts x)) u in
    let one_more : length (t ∷ ts) + f ≡ suc (length ts + f) = omega arith in
    ap (λ n. describe address n try_times sum (before (t ∷ ts) x)) one_more
    ∙ one_try address t (length ts + f) try_times sum (before ts x) inner e
    ∙ ap (describe address (length ts + f) try_times sum)
        (before-send_data ts address (codes "DES") x)
    ∙ describe-uncounted address ts f try_times sum (send_data address (codes "DES") x) h
