-- ===== src/XBee/Description.antt =====
-- askDeviceDescription of IoTRepublicPlus/Broker/XBeeBroker_ApiMode.cpp.
pub mod Accepted
pub mod Retry
pub mod Answer
pub mod Fuel
pub mod Uncounted
use Prim.Native.Nat.{bit_or}
use io_trepublic_plus.Base.{
  ℕ, zero, suc, ◌+◌, ◌-◌, ◌*◌, ◌/◌, ◌%◌, ◌^◌, Bool, false, true, Option, none, some, List, [], ◌∷◌,
  ◌++◌, Bytes, codes, length, get_elem?, take, leb, ltb, ◌==◌, if◌then◌else◌, ◌>>=◌, ◌>>◌, require,
}
use io_trepublic_plus.Package.Checksum.{sum_unsigned}
use io_trepublic_plus.XBee.{RecvResult, XBee, XBeeAddress64, failed, succeed, timeout, tx_status}
use io_trepublic_plus.XBee.Module.{recv_data, recv_response, send_data}

-- `getCheckSum`
unfoldable pub get_check_sum : Bytes → ℕ
unfolding sum_unsigned
get_check_sum buffer = sum_unsigned 0 buffer

-- `sum |= (unsigned char)c`, which leaves the digits above the byte
unfoldable pub or_byte : ℕ → ℕ → ℕ
or_byte sum c = sum / 256 * 256 + bit_or (sum % 256) (c % 256)

-- `sum` after the two bytes of the checksum, on an `unsigned int`
unfoldable pub received_sum : ℕ → ℕ → ℕ → ℕ
unfolding or_byte
received_sum sum high low = or_byte (or_byte sum high * 256 % 2 ^ 32) low

-- The sum that comes with a description, which is not set back for a new try, and the description
-- without it. `at` throws on fewer than two bytes.
unfoldable pub split_sum : ℕ → Bytes → Option (ℕ × Bytes)
unfolding received_sum
split_sum sum buffer = do
  require (leb 2 (length buffer))
  high ← get_elem? buffer (length buffer - 2)
  low ← get_elem? buffer (length buffer - 1)
  some (received_sum sum high low, take (length buffer - 2) buffer)

-- The loop of `askDeviceDescription`, on fuel for its tries, `none` when it is used up: a try that receives no
-- message is not counted, so that the loop of the code has no bound of its own.
unfoldable pub describe : XBeeAddress64 → ℕ → ℕ → ℕ → XBee → Option (Bytes × XBee)
unfolding send_data recv_response recv_data split_sum get_check_sum
describe address zero try_times sum x = none
describe address (suc f) try_times sum x =
    let (tx, ignored, x1) = recv_response tx_status [] (send_data address (codes "DES") x) in
    let received = (do
      (rx, buffer, x2) ← recv_data [] 1000 x1
      elim rx [
        | succeed ↦ (do
          (sum1, description) ← split_sum sum buffer
          let again = describe address f (try_times + 1) sum1 x2
          if sum1 == get_check_sum description
              then some (description, x2)
              else if ltb (try_times + 1) 3
              then again
              else some ([], x2))
        | _ ↦ describe address f try_times sum x2
      ]) in
    elim tx [ succeed ↦ received | _ ↦ some ([], x1) ]

-- `askDeviceDescription`, on the packets of the time that is looked at, after which the module is silent. Each
-- try takes a packet or is the last one, since a request that is not acknowledged ends the loop: so the fuel
-- is enough for these packets, and only for a finite list of them.
unfoldable pub ask_device_description : XBeeAddress64 → XBee → Option (Bytes × XBee)
unfolding describe
ask_device_description address x = describe address (suc (length x.packets)) 0 0 x
