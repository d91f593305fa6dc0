-- ===== src/Package/Checksum/SignedBytes.antt =====
-- The receiver's sum of signed bytes against the sender's sum of unsigned bytes.
use io_trepublic_plus.Base.{
  ℕ, ◌+◌, ◌*◌, ◌%◌, ◌^◌, ◌<◌, ◌≡◌, ◌≢◌, refl, [], ◌∷◌, ◌++◌, some, arith, Bytes, length, All, ltb,
  if◌then◌else◌,
}
use io_trepublic_plus.Package.Checksum.{sum_unsigned, sum_signed, sign_extend, fold_sum}
use io_trepublic_plus.Package.Checksum.Folding.{residue, fold_sum-residue}

abbrev pub IsByte : ℕ → Type 0
IsByte c = c < 256

abbrev pub IsAscii : ℕ → Type 0
IsAscii c = c < 128

-- How many bytes are negative as a `char`.
abbrev pub high_bytes : Bytes → ℕ
high_bytes [] = 0
high_bytes (c ∷ cs) = (if ltb c 128 then 0 else 1) + high_bytes cs

pub sum_signed-IsAscii :
    (acc : ℕ) (xs ys : Bytes)
    → All IsAscii xs
    → sum_signed acc (length xs) (xs ++ ys) ≡ some (sum_unsigned acc xs)
unfolding sum_signed sum_unsigned
sum_signed-IsAscii acc [] ys h = refl
sum_signed-IsAscii acc (x ∷ xs) ys h =
    ground (arith, sum_signed-IsAscii ((acc + x) % 2 ^ 32) xs ys h.1)

pub sum_unsigned-lt : (acc : ℕ) (xs : Bytes) → acc < 2 ^ 32 → sum_unsigned acc xs < 2 ^ 32
unfolding sum_unsigned
sum_unsigned-lt acc [] h = h
sum_unsigned-lt acc (x ∷ xs) h = sum_unsigned-lt ((acc + x) % 2 ^ 32) xs (omega arith)

-- Each negative byte puts the receiver's sum 256 below the sender's.
pub sum_signed-high :
    (a u j : ℕ) (xs ys : Bytes)
    → a < 2 ^ 32
    → u ≡ (a + 256 * j) % 2 ^ 32
    → All IsByte xs
    → (s : ℕ) × (sum_signed a (length xs) (xs ++ ys) ≡ some s)
      × (s < 2 ^ 32)
      × (sum_unsigned u xs ≡ (s + 256 * (j + high_bytes xs)) % 2 ^ 32)
unfolding sum_signed sum_unsigned
sum_signed-high a u j [] ys h e b = (a, refl, h, omega arith)
sum_signed-high a u j (x ∷ xs) ys h e b =
    let (s, e1, h1, e2) =
      sum_signed-high ((a + sign_extend x) % 2 ^ 32) ((u + x) % 2 ^ 32)
        (j + (if ltb x 128 then 0 else 1)) xs ys (omega arith) (ground arith) b.1 in
    (s, e1, h1, ground arith)

residue-apart :
    (s k : ℕ) → s < 2 ^ 32 → 0 < k → k < 256 → residue ((s + 256 * k) % 2 ^ 32) ≢ residue s
residue-apart s k h p q = ground arith

-- From 1 to 255 negative bytes make the two folded sums differ.
pub fold_sum-apart :
    (s k : ℕ) → s < 2 ^ 32 → 0 < k → k < 256 → fold_sum ((s + 256 * k) % 2 ^ 32) ≢ fold_sum s
fold_sum-apart s k h p q =
    ground (arith, residue-apart s k, fold_sum-residue s, fold_sum-residue ((s + 256 * k) % 2 ^ 32))

pub high_bytes-append : (xs ys : Bytes) → high_bytes (xs ++ ys) ≡ high_bytes xs + high_bytes ys
high_bytes-append [] ys = omega arith
high_bytes-append (x ∷ xs) ys = omega (arith, high_bytes-append xs ys)

pub high_bytes-IsAscii : (xs : Bytes) → All IsAscii xs → high_bytes xs ≡ 0
high_bytes-IsAscii [] h = refl
high_bytes-IsAscii (x ∷ xs) h = ground (arith, high_bytes-IsAscii xs h.1)
