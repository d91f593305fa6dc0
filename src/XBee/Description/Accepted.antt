-- ===== src/XBee/Description/Accepted.antt =====
-- Which descriptions askDeviceDescription of IoTRepublicPlus/Broker/XBeeBroker_ApiMode.cpp accepts.
use Prim.Native.Nat.{bit_or}
use io_trepublic_plus.Base.{
  ℕ, suc, ◌+◌, ◌-◌, ◌*◌, ◌/◌, ◌%◌, ◌^◌, ◌≤◌, ◌<◌, ◌≡◌, refl, ◌∙◌, Bool, true, some, [], ◌∷◌, ◌++◌,
  Bytes, length, length-append, take-append, get_elem?-middle, get_elem?-append, ltb, le→leb, arith,
  ltb, ltb→lt, if◌then◌else◌,
}
use io_trepublic_plus.Base64.RoundTrip.{fixes, fixes-lt}
use io_trepublic_plus.Package.Checksum.SignedBytes.{IsByte}
use io_trepublic_plus.XBee.Description.{or_byte, received_sum, split_sum}

-- A number stays as it is exactly if it passes a test.
abbrev stays : (ℕ → Bool) → ℕ → ℕ
stays test i = if test i then i else suc i

stays-passes : (test : ℕ → Bool) (i : ℕ) → stays test i ≡ i → test i ≡ true
stays-passes test i h = ground arith

or_table : fixes (λ c. bit_or 0 c) 256 ≡ true
unfolding fixes
or_table = refl

-- The row of a byte in the table of `bit_or`.
row_fits : ℕ → Bool
row_fits a = fixes (stays (λ c. ltb (bit_or a c) 256)) 256

rows_fit : fixes (stays row_fits) 256 ≡ true
unfolding fixes row_fits
rows_fit = refl

or-zero : (c : ℕ) → IsByte c → bit_or 0 c ≡ c
or-zero c h = fixes-lt (λ n. bit_or 0 n) 256 c or_table h

row : (a : ℕ) → a < 256 → row_fits a ≡ true
row a h = stays-passes row_fits a (fixes-lt (stays row_fits) 256 a rows_fit h)

or-byte : (a c : ℕ) → a < 256 → IsByte c → bit_or a c < 256
unfolding row_fits
or-byte a c h k =
    let fits : ltb (bit_or a c) 256 ≡ true =
      stays-passes (λ n. ltb (bit_or a n) 256) c
        (fixes-lt (stays (λ n. ltb (bit_or a n) 256)) 256 c (row a h) k) in
    ltb→lt (bit_or a c) 256 fits

-- The sum of a first try is the number that the two bytes spell.
received_sum-first :
    (high low : ℕ) → IsByte high → IsByte low → received_sum 0 high low ≡ high * 256 + low
unfolding received_sum or_byte
received_sum-first high low h k =
    let same_high : bit_or (0 % 256) (high % 256) ≡ high =
      (λ i. bit_or (zero_left i) (kept high h i)) ∙ or-zero high h in
    let above = 0 / 256 * 256 + bit_or (0 % 256) (high % 256) in
    let empty : above * 256 % 2 ^ 32 % 256 ≡ 0 = omega arith in
    let same_low : bit_or (above * 256 % 2 ^ 32 % 256) (low % 256) ≡ low =
      (λ i. bit_or (empty i) (kept low k i)) ∙ or-zero low k in
    omega (arith, same_high, same_low, h)
  where
    zero_left : 0 % 256 ≡ 0
    zero_left = omega arith

    kept : (c : ℕ) → IsByte c → c % 256 ≡ c
    kept c l = omega (arith, l)

-- A sum of 256 or more that is left from the try before makes the sum of the next one 2 ^ 16 or more.
pub received_sum-left :
    (bound sum high low : ℕ)
    → 256 ≤ sum
    → sum < bound * 256
    → bound ≤ 2 ^ 16
    → (2 ^ 16 ≤ received_sum sum high low) × (received_sum sum high low < bound * 256 * 256)
unfolding received_sum or_byte
received_sum-left bound sum high low some_left small fits =
    let above = sum / 256 * 256 + bit_or (sum % 256) (high % 256) in
    let first : bit_or (sum % 256) (high % 256) < 256 =
      or-byte (sum % 256) (high % 256) (omega arith) (omega arith) in
    let small_above : above < bound * 256 = omega (arith, first, small) in
    let shifted : above * 256 % 2 ^ 32 ≡ above * 256 = omega (arith, small_above, fits) in
    let second : bit_or (above * 256 % 2 ^ 32 % 256) (low % 256) < 256 =
      or-byte (above * 256 % 2 ^ 32 % 256) (low % 256) (omega arith) (omega arith) in
    let big_above : 256 ≤ above = omega (arith, some_left) in
    (omega (arith, shifted, big_above), omega (arith, shifted, second, small_above))

-- The data of an answer: the description and its sum.
abbrev pub summed : Bytes → ℕ → ℕ → Bytes
summed description high low = description ++ (high ∷ low ∷ [])

pub split_sum-summed :
    (description : Bytes) (high low : ℕ)
    → IsByte high
    → IsByte low
    → split_sum 0 (summed description high low) ≡ some (high * 256 + low, description)
unfolding split_sum
split_sum-summed description high low h k =
    let size : length (summed description high low) ≡ length description + 2 =
      length-append description (high ∷ low ∷ []) in
    let before_high : length (summed description high low) - 2 ≡ length description =
      omega (arith, size) in
    let before_low : length (summed description high low) - 1 ≡ length description + 1 =
      omega (arith, size) in
    rw
      (
        le→leb 2 (length (summed description high low)) (omega (arith, size)),
        before_high,
        before_low,
        get_elem?-middle description high (low ∷ []),
        get_elem?-append description (high ∷ low ∷ []) 1,
        received_sum-first high low h k,
        take-append description (high ∷ low ∷ []),
      )
      refl
