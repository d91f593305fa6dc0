-- ===== src/XBee/Module/Receive.antt =====
-- What recvData of IoTRepublicPlus/Broker/XBeeBroker_ApiMode.cpp makes of silence and of framed data.
use io_trepublic_plus.Base.{
  ℕ, zero, suc, ◌-◌, ◌≤◌, ◌<◌, ◌≡◌, ◌↔◌, refl, none, [], ◌∷◌, Bytes, length, >>=_none_iff, arith,
}
use io_trepublic_plus.LoRa.Serial.{erase_index}
use io_trepublic_plus.XBee.{RecvResult, XBee}
use io_trepublic_plus.XBee.Module.{erase_ends, recv_data, waited}

erase_index-none_iff :
    (i : ℕ) (buffer : Bytes) → (erase_index i buffer ≡ none) ↔ (length buffer ≤ i)
unfolding erase_index
erase_index-none_iff i [] = (λ h. omega arith, λ h. refl)
erase_index-none_iff zero (c ∷ cs) = (λ h. cc, λ h. elim h [ ])
erase_index-none_iff (suc i) (c ∷ cs) =
    let (to, from) = erase_index-none_iff i cs in
    let (out, back) = >>=_none_iff (erase_index i cs) (λ rest. c ∷ rest) in
    (λ h. omega (arith, to (out h)), λ h. back (from (omega (arith, h))))

pub erase_ends-none_iff : (buffer : Bytes) → (erase_ends buffer ≡ none) ↔ (length buffer < 2)
unfolding erase_ends erase_index
erase_ends-none_iff [] = (λ h. omega arith, λ h. refl)
erase_ends-none_iff (c ∷ cs) =
    let (to, from) = erase_index-none_iff (length cs - 1) cs in
    (λ h. omega (arith, to h), λ h. from (omega (arith, h)))

-- recvData accesses its buffer out of bounds exactly when fewer than two bytes are in the buffer at the
-- end of its wait, so whenever nothing at all comes in.
pub recv_data-none_iff :
    (buffer : Bytes) (ms_timeout : ℕ) (x : XBee)
    → (recv_data buffer ms_timeout x ≡ none) ↔ (length (waited buffer ms_timeout x).1 < 2)
unfolding recv_data
recv_data-none_iff buffer ms_timeout x =
    let (result, received, x1) = waited buffer ms_timeout x in
    let (to, from) = erase_ends-none_iff received in
    let (out, back) =
      >>=_none_iff {B = RecvResult × Bytes × XBee} (erase_ends received)
        (λ inner. (result, inner, x1)) in
    (λ h. to (out h), λ h. back (from h))
