-- ===== src/XBee/Description/Retry.antt =====
-- What the further tries of askDeviceDescription, IoTRepublicPlus/Broker/XBeeBroker_ApiMode.cpp, can
-- still accept.
use io_trepublic_plus.Base.{
  ℕ, zero, suc, ◌+◌, ◌-◌, ◌*◌, ◌^◌, ◌≤◌, ◌<◌, ◌≡◌, refl, Bool, false, true, Option, some, [], Bytes,
  length, take, get_elem?, ltb, leb, ◌==◌, require, Returns, Returns-some, Returns-none,
  Returns-bind, inl, inr, ◌⊎◌, codes, if◌then◌else◌, arith,
}
use io_trepublic_plus.XBee.{RecvResult, XBee, XBeeAddress64, failed, succeed, timeout, tx_status}
use io_trepublic_plus.XBee.Module.{recv_data, recv_response, send_data}
use io_trepublic_plus.XBee.Description.{describe, get_check_sum, received_sum, split_sum}
use io_trepublic_plus.XBee.Description.Accepted.{received_sum-left}

abbrev Heavy : ℕ → ℕ × Bytes → Type 0
Heavy bound out = (2 ^ 16 ≤ out.0) × (out.0 < bound * 256 * 256)

split_sum-Heavy :
    (bound sum : ℕ) (buffer : Bytes)
    → 256 ≤ sum
    → sum < bound * 256
    → bound ≤ 2 ^ 16
    → Returns (Heavy bound) (split_sum sum buffer)
unfolding split_sum
split_sum-Heavy bound sum buffer left small fits =
    let P = Heavy bound in
    Returns-bind P (require (leb 2 (length buffer))) _ λ u e.
      Returns-bind P (get_elem? buffer (length buffer - 2)) _ λ high e1.
        Returns-bind P (get_elem? buffer (length buffer - 1)) _ λ low e2.
          Returns-some P (received_sum sum high low, take (length buffer - 2) buffer)
            (received_sum-left bound sum high low left small fits)

module _ (P : Bytes × XBee → Type 0) where
  Returns-result :
      (result : RecvResult) (o p : Option (Bytes × XBee))
      → Returns P o
      → Returns P p
      → Returns P (elim result [ succeed ↦ o | _ ↦ p ])
  Returns-result succeed o p h k = h
  Returns-result timeout o p h k = k
  Returns-result failed o p h k = k

  Returns-test :
      (b : Bool) (o p : Option (Bytes × XBee))
      → (b ≡ true → Returns P o)
      → Returns P p
      → Returns P (if b then o else p)
  Returns-test true o p h k = h refl
  Returns-test false o p h k = k

-- No description, or one whose bytes sum up to 2 ^ 16 or more.
abbrev Given : Bytes × XBee → Type 0
Given out = (out.0 ≡ []) ⊎ (2 ^ 16 ≤ get_check_sum out.0)

-- The second try and the third, with what may be left of the sum.
abbrev IsRetry : ℕ → ℕ → Type 0
IsRetry try_times bound = ((try_times ≡ 1) × (bound ≡ 2 ^ 8)) ⊎ ((try_times ≡ 2) × (bound ≡ 2 ^ 16))

IsRetry-small : (t bound : ℕ) → IsRetry t bound → bound ≤ 2 ^ 16
IsRetry-small t bound r = omega (arith, r)

last-IsRetry :
    (t bound : ℕ) → IsRetry t bound → ltb (t + 1) 3 ≡ true → (t + 1 ≡ 2) × (bound ≡ 2 ^ 8)
last-IsRetry t bound (inl (first, wide)) h = (omega (arith, first), wide)
last-IsRetry t bound (inr (second, wide)) h = ground arith

heavy-accepted : (sum check : ℕ) → 2 ^ 16 ≤ sum → (sum == check) ≡ true → 2 ^ 16 ≤ check
heavy-accepted sum check h e = ground arith

describe-Given :
    (address : XBeeAddress64) (f try_times bound sum : ℕ) (x : XBee)
    → IsRetry try_times bound
    → 256 ≤ sum
    → sum < bound * 256
    → Returns Given (describe address f try_times sum x)
unfolding describe
describe-Given address zero t bound sum x r left small = Returns-none Given
describe-Given address (suc f) t bound sum x r left small =
    let (tx, ignored, x1) = recv_response tx_status [] (send_data address (codes "DES") x) in
    Returns-result Given tx _ (some ([], x1))
      (Returns-bind Given (recv_data [] 1000 x1) _ λ got e.
        Returns-result Given got.0 _ _
          (Returns-bind Given (split_sum sum got.1) _ λ out e2.
            let heavy =
              split_sum-Heavy bound sum got.1 left small (IsRetry-small t bound r) out e2 in
            Returns-test Given (out.0 == get_check_sum out.1) (some (out.1, got.2)) _
              (λ same.
                Returns-some Given (out.1, got.2)
                  (inr (heavy-accepted out.0 (get_check_sum out.1) heavy.0 same)))
              (Returns-test Given (ltb (t + 1) 3) _ (some ([], got.2))
                (λ third.
                  let (last, wide) = last-IsRetry t bound r third in
                  describe-Given address f (t + 1) (2 ^ 16) out.0 got.2 (inr (last, refl))
                    (omega (arith, heavy.0)) (omega (arith, heavy.1, wide)))
                (Returns-some Given ([], got.2) (inl refl))))
          (describe-Given address f t bound sum got.2 r left small))
      (Returns-some Given ([], x1) (inl refl))

-- The sum of a failed try is left in `sum` for the next ones. If it was 256 or more, and it is less than
-- 2 ^ 16 as the sums of first tries are, then whatever comes in afterwards, a description that the
-- further tries return is empty (none was accepted) or its bytes sum up to 2 ^ 16 or more: no shorter
-- description is accepted any more.
pub describe-retry :
    (address : XBeeAddress64) (f sum : ℕ) (x x' : XBee) (description : Bytes)
    → 256 ≤ sum
    → sum < 2 ^ 16
    → describe address f 1 sum x ≡ some (description, x')
    → (description ≡ []) ⊎ (2 ^ 16 ≤ get_check_sum description)
describe-retry address f sum x x' description left small e =
    describe-Given address f 1 (2 ^ 8) sum x (inl (refl, refl)) left small (description, x') e
