-- ===== src/Package/Checksum.antt =====
-- The 16-bit checksum: the sums of IoTPackage.h (unsigned bytes) and of IoTUtility.cpp (`char`, which
-- is signed on the platforms of the program), and the folding loop that both share.
pub mod Folding
pub mod SignedBytes
use io_trepublic_plus.Base.{
  ℕ, zero, suc, ◌+◌, ◌-◌, ◌/◌, ◌%◌, ◌^◌, [], ◌∷◌, Option, none, some, Bytes, ltb, if◌then◌else◌,
}

-- `sum += (unsigned char)v.at(i)` over a vector
unfoldable pub sum_unsigned : ℕ → Bytes → ℕ
sum_unsigned acc [] = acc
sum_unsigned acc (c ∷ cs) = sum_unsigned ((acc + c) % 2 ^ 32) cs

-- A `char` widened to `unsigned int`.
abbrev pub sign_extend : ℕ → ℕ
sign_extend c = if ltb c 128 then c else c + (2 ^ 32 - 256)

-- `for (i = 0; i < n; i++) sum += buffer->at(i)`; `at` throws past the end.
unfoldable pub sum_signed : ℕ → ℕ → Bytes → Option ℕ
sum_signed acc zero cs = some acc
sum_signed acc (suc n) [] = none
sum_signed acc (suc n) (c ∷ cs) = sum_signed ((acc + sign_extend c) % 2 ^ 32) n cs

-- `while ((sum >> 16) > 0) sum = (sum & 0xFFFF) + (sum >> 16)`, on fuel.
unfoldable pub fold_loop : ℕ → ℕ → ℕ
fold_loop zero sum = sum
fold_loop (suc f) sum =
    let rest = fold_loop f (sum % 2 ^ 16 + sum / 2 ^ 16) in
    if ltb 0 (sum / 2 ^ 16) then rest else sum

-- Two rounds bring any 32-bit sum below 2 ^ 16; `fold_sum-ends` shows it.
unfoldable pub fold_sum : ℕ → ℕ
unfolding fold_loop
fold_sum sum = fold_loop 3 sum
