-- ===== src/XBee/Description/Fuel.antt =====
-- The fuel of `describe` for askDeviceDescription, IoTRepublicPlus/Broker/XBeeBroker_ApiMode.cpp. The list of
-- packets is what comes in a finite time; the loop of the code has no bound, since it does not count the tries
-- in which no message comes.
use io_trepublic_plus.Base.{
  ℕ, zero, suc, ◌+◌, ◌≤◌, ◌<◌, ◌≡◌, refl, Option, some, List, [], ◌∷◌, Bytes, codes, length, ltb,
  ◌==◌, >>=-eq-some, >>=_congr, some_inj, subst, if◌then◌else◌, arith,
}
use io_trepublic_plus.XBee.{
  Packet, Request, RecvResult, XBee, XBeeAddress64, XBeeResponseType, failed, rx_status, succeed,
  timeout, tx_status,
}
use io_trepublic_plus.XBee.Module.{
  erase_ends, read_packet, recv_data, recv_from, recv_response, response_of, send_data, waited,
}
use io_trepublic_plus.XBee.Description.{describe, get_check_sum, split_sum}

abbrev left_packets : XBee → ℕ
left_packets x = length x.packets

module _ (expect : XBeeResponseType) (buffer : Bytes) (clock : List ℕ)
    (requests : List Request) where
  recv-le :
      (ps : List (Option Packet))
      → left_packets
          (recv_response expect buffer
            (record { clock = clock; packets = ps; requests = requests })).2
        ≤ length ps
  unfolding recv_response read_packet
  recv-le [] = omega arith
  recv-le (p ∷ ps) = omega arith

  recv-lt :
      (ps : List (Option Packet))
      → (recv_response expect buffer
          (record { clock = clock; packets = ps; requests = requests })).0
        ≡ succeed
      → left_packets
          (recv_response expect buffer
            (record { clock = clock; packets = ps; requests = requests })).2
        < length ps
  unfolding recv_response read_packet response_of
  recv-lt [] h = cc
  recv-lt (p ∷ ps) h = omega arith

recv_from-packets :
    (start_time ms_timeout : ℕ) (buffer : Bytes) (clock : List ℕ) (x : XBee)
    → left_packets (recv_from start_time ms_timeout buffer clock x).2 ≤ left_packets x
unfolding recv_from
recv_from-packets start_time ms_timeout buffer [] x = omega arith
recv_from-packets start_time ms_timeout buffer (now ∷ clock) x =
    let (result, received, x1) = recv_response rx_status buffer x in
    let one = recv-le rx_status buffer x.clock x.requests x.packets in
    let more = recv_from-packets start_time ms_timeout received clock x1 in
    ground (arith, one, more)

waited-packets :
    (buffer : Bytes) (ms_timeout : ℕ) (clock : List ℕ) (ps : List (Option Packet))
    (requests : List Request)
    → left_packets
        (waited buffer ms_timeout (record { clock = clock; packets = ps; requests = requests })).2
      ≤ length ps
unfolding waited
waited-packets buffer ms_timeout [] ps requests = omega arith
waited-packets buffer ms_timeout (start_time ∷ clock) ps requests =
    recv_from-packets start_time ms_timeout buffer clock _

recv_data-packets :
    (buffer : Bytes) (ms_timeout : ℕ) (x : XBee) (got : RecvResult × Bytes × XBee)
    → recv_data buffer ms_timeout x ≡ some got
    → left_packets got.2 ≤ left_packets x
unfolding recv_data
recv_data-packets buffer ms_timeout x got e =
    let (result, received, x1) = waited buffer ms_timeout x in
    let (inner, e1, e2) =
      >>=-eq-some {B = RecvResult × Bytes × XBee} (erase_ends received)
        (λ inner. some (result, inner, x1)) e in
    let waits = waited-packets buffer ms_timeout x.clock x.packets x.requests in
    subst (λ g. left_packets g.2 ≤ left_packets x) (some_inj e2) waits

result-congr :
    {A : Type 0} (result : RecvResult) (o o' p p' : A)
    → (result ≡ succeed → o ≡ o')
    → p ≡ p'
    → elim result as (λ r. A) [ succeed ↦ o | timeout ↦ p | failed ↦ p ]
      ≡ elim result as (λ r. A) [ succeed ↦ o' | timeout ↦ p' | failed ↦ p' ]
result-congr succeed o o' p p' h k = h refl
result-congr timeout o o' p p' h k = k
result-congr failed o o' p p' h k = k

-- On a finite list of packets, after which no request is acknowledged, fuel that is more than the count of
-- the packets is enough: more fuel gives the same.
describe-fuel :
    (address : XBeeAddress64) (f g try_times sum : ℕ) (x : XBee)
    → length x.packets < f
    → length x.packets < g
    → describe address f try_times sum x ≡ describe address g try_times sum x
unfolding describe
describe-fuel address zero g t sum x hf hg = elim hf [ ]
describe-fuel address (suc f) zero t sum x hf hg = elim hg [ ]
describe-fuel address (suc f) (suc g) t sum x hf hg =
    let asked = send_data address (codes "DES") x in
    let (tx, ignored, x1) = recv_response tx_status [] asked in
    let later : (t1 sum1 : ℕ) (got : RecvResult × Bytes × XBee)
        → tx ≡ succeed
        → recv_data [] 1000 x1 ≡ some got
        → describe address f t1 sum1 got.2 ≡ describe address g t1 sum1 got.2 =
      λ t1 sum1 got h e.
        let fewer = recv-lt tx_status [] asked.clock asked.requests asked.packets h in
        let no_more = recv_data-packets [] 1000 x1 got e in
        describe-fuel address f g t1 sum1 got.2 (omega (arith, fewer, no_more))
          (omega (arith, fewer, no_more)) in
    result-congr tx _ _ (some ([], x1)) (some ([], x1))
      (λ h. >>=_congr (recv_data [] 1000 x1) _ _ λ got e.
        result-congr got.0 _ _ _ _
          (λ h'. >>=_congr (split_sum sum got.1) _ _ λ out e'.
            let again = later (t + 1) out.0 got h e in
            λ i.
              if out.0 == get_check_sum out.1
              then some (out.1, got.2)
              else if ltb (t + 1) 3
              then again i
              else some ([], got.2))
          (later t sum got h e))
      refl
