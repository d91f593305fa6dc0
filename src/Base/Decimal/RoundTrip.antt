-- ===== src/Base/Decimal/RoundTrip.antt =====
-- `std::atoi` reads back what `std::to_string` prints of an `int`.
use Prim.Native.Nat.{ℕ, suc, ◌-◌, ◌^◌, ◌%◌, ◌<◌}
use mathlib.Core.Path.{◌≡◌, refl, ap, ◌∙◌}
use mathlib.Core.Option.{some}
use mathlib.Core.List.{[], ◌∷◌}
use native.Mathlib.Omega.{arith}
use io_trepublic_plus.Base.Tests.{lt→ltb}
use io_trepublic_plus.Base.Lists.{Bytes, length, All}
use io_trepublic_plus.Base.Int.{ℤ, pos, negsuc, to_int, to_int_small}
use io_trepublic_plus.Base.Decimal.{
  IsDigit, atoi, atoi_signed, int_to_string, length-to_string, neg_in_range, scan-to_string,
  scan_digits, signed, stoi, stoi-to_string, skip_spaces, to_string, to_string-IsDigit, unsigned,
  wrapped, wrapped_neg,
}

-- The integers of 32 bits.
abbrev pub IsInt : ℤ → Type 0
IsInt (pos n) = n < 2 ^ 31
IsInt (negsuc n) = n < 2 ^ 31

unsigned-IsDigit : (s : Bytes) → All IsDigit s → 0 < length s → unsigned s ≡ some (scan_digits 0 s)
unfolding unsigned
unsigned-IsDigit [] h l = elim l [ ]
unsigned-IsDigit (c ∷ cs) h l = ground arith

unsigned-to_string : (n : ℕ) → unsigned (to_string n) ≡ some n
unsigned-to_string n =
    unsigned-IsDigit (to_string n) (to_string-IsDigit n) (ground (arith, length-to_string n))
    ∙ ap some (scan-to_string n)

atoi-IsDigit : (s : Bytes) → All IsDigit s → 0 < length s → atoi s ≡ wrapped (unsigned s)
unfolding atoi skip_spaces atoi_signed
atoi-IsDigit [] h l = elim l [ ]
atoi-IsDigit (c ∷ cs) h l = ground arith

atoi-minus : (s : Bytes) → atoi (b'-' ∷ s) ≡ wrapped_neg (unsigned s)
unfolding atoi skip_spaces atoi_signed
atoi-minus s = refl

to_int_negative : (n : ℕ) → n < 2 ^ 31 → to_int (2 ^ 32 - suc n % 2 ^ 32) ≡ negsuc n
unfolding to_int
to_int_negative n h = ground arith

pub atoi-int_to_string : (z : ℤ) → IsInt z → atoi (int_to_string z) ≡ z
unfolding int_to_string wrapped wrapped_neg
atoi-int_to_string (pos n) h =
    atoi-IsDigit (to_string n) (to_string-IsDigit n) (ground (arith, length-to_string n))
    ∙ ap wrapped (unsigned-to_string n)
    ∙ to_int_small n h
atoi-int_to_string (negsuc n) h =
    atoi-minus (to_string (suc n))
    ∙ ap wrapped_neg (unsigned-to_string (suc n))
    ∙ to_int_negative n h

stoi-minus : (s : Bytes) → stoi (b'-' ∷ s) ≡ neg_in_range (unsigned s)
unfolding stoi skip_spaces signed
stoi-minus s = refl

-- `std::stoi` reads back what `std::to_string` prints of an `int`.
pub stoi-int_to_string : (z : ℤ) → IsInt z → stoi (int_to_string z) ≡ some z
unfolding int_to_string neg_in_range
stoi-int_to_string (pos n) h = stoi-to_string n h
stoi-int_to_string (negsuc n) h =
    stoi-minus (to_string (suc n))
    ∙ ap neg_in_range (unsigned-to_string (suc n))
    ∙ rw (lt→ltb n (2 ^ 31) h) refl
