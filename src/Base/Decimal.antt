-- ===== src/Base/Decimal.antt =====
-- Decimal text: `stringstream << int` and `std::stoi`.
pub mod RoundTrip
use mathlib.Core.Path.{◌≡◌, refl}
use Prim.Native.Nat.{ℕ, zero, suc, ◌+◌, ◌-◌, ◌*◌, ◌/◌, ◌%◌, ◌^◌, ◌<◌, ◌≤◌}
use mathlib.Core.Logic.{inl, inr}
use mathlib.Core.Bool.{Bool, true, false, ◌&&◌, ◌||◌}
use mathlib.Core.Option.{Option, none, some}
use mathlib.Core.List.{[], ◌∷◌, ◌++◌}
use native.Mathlib.Omega.{arith}
use io_trepublic_plus.Base.Tests.{ltb, leb, ◌==◌, if◌then◌else◌, Bool-cases}
use io_trepublic_plus.Base.Lists.{Bytes, length, All, length-append, All-append}
use io_trepublic_plus.Base.Int.{ℤ, pos, negsuc, to_int}

-- The digits of a number, on fuel that is more than the number.
digits_fuel : ℕ → ℕ → Bytes
digits_fuel zero n = []
digits_fuel (suc f) n =
    let rest = digits_fuel f (n / 10) ++ (b'0' + n % 10) ∷ [] in
    if ltb n 10 then (b'0' + n) ∷ [] else rest

unfoldable pub to_string : ℕ → Bytes
unfolding digits_fuel
to_string n = digits_fuel (suc n) n

-- `tempStream << i` of an `int`
unfoldable pub int_to_string : ℤ → Bytes
unfolding to_string
int_to_string (pos n) = to_string n
int_to_string (negsuc n) = b'-' ∷ to_string (suc n)

abbrev pub is_digit : ℕ → Bool
is_digit c = leb b'0' c && leb c b'9'

abbrev pub is_space : ℕ → Bool
is_space c = c == 32 || (leb 9 c && leb c 13)

-- Reads digits up to the first byte that is none.
scan_digits : ℕ → Bytes → ℕ
scan_digits acc [] = acc
scan_digits acc (c ∷ cs) = elim (is_digit c) [
  | true ↦ scan_digits (acc * 10 + (c - b'0')) cs
  | false ↦ acc
]

-- A number with at least one digit; `none` is `std::invalid_argument`.
unsigned : Bytes → Option ℕ
unfolding scan_digits
unsigned [] = none
unsigned (c ∷ cs) = if is_digit c then some (scan_digits 0 (c ∷ cs)) else none

-- `none` is `std::out_of_range`.
nonneg_in_range : Option ℕ → Option ℤ
nonneg_in_range none = none
nonneg_in_range (some n) = if ltb n (2 ^ 31) then some (pos n) else none

neg_in_range : Option ℕ → Option ℤ
neg_in_range none = none
neg_in_range (some zero) = some (pos 0)
neg_in_range (some (suc n)) = if ltb n (2 ^ 31) then some (negsuc n) else none

signed : Bytes → Option ℤ
unfolding unsigned nonneg_in_range neg_in_range
signed [] = none
signed (c ∷ cs) =
    if c == b'-'
    then neg_in_range (unsigned cs)
    else if c == b'+'
    then nonneg_in_range (unsigned cs)
    else nonneg_in_range (unsigned (c ∷ cs))

skip_spaces : Bytes → Bytes
skip_spaces [] = []
skip_spaces (c ∷ cs) = elim (is_space c) [ true ↦ skip_spaces cs | false ↦ c ∷ cs ]

-- `std::stoi`; `none` is the exception that it throws.
unfoldable pub stoi : Bytes → Option ℤ
unfolding signed skip_spaces
stoi s = signed (skip_spaces s)

-- `std::atoi`: 0 where there is no number. Out of the range of `int`, where C leaves the result
-- open, it wraps around.
wrapped : Option ℕ → ℤ
wrapped none = pos 0
wrapped (some n) = to_int n

wrapped_neg : Option ℕ → ℤ
wrapped_neg none = pos 0
wrapped_neg (some n) = to_int (2 ^ 32 - n % 2 ^ 32)

atoi_signed : Bytes → ℤ
unfolding unsigned wrapped wrapped_neg
atoi_signed [] = pos 0
atoi_signed (c ∷ cs) =
    if c == b'-'
    then wrapped_neg (unsigned cs)
    else if c == b'+'
    then wrapped (unsigned cs)
    else wrapped (unsigned (c ∷ cs))

unfoldable pub atoi : Bytes → ℤ
unfolding atoi_signed skip_spaces
atoi s = atoi_signed (skip_spaces s)

abbrev pub IsDigit : ℕ → Type 0
IsDigit c = (48 ≤ c) × (c < 58)

scan_digits-append :
    (acc : ℕ) (xs : Bytes) (d : ℕ)
    → All IsDigit xs
    → d < 10
    → scan_digits acc (xs ++ (b'0' + d) ∷ []) ≡ scan_digits acc xs * 10 + d
unfolding scan_digits
scan_digits-append acc [] d h k = ground arith
scan_digits-append acc (x ∷ xs) d h k =
    ground (arith, scan_digits-append (acc * 10 + (x - b'0')) xs d h.1 k)

digits_fuel-IsDigit : (f n : ℕ) → All IsDigit (digits_fuel f n)
unfolding digits_fuel
digits_fuel-IsDigit zero n = tt
digits_fuel-IsDigit (suc f) n = elim (Bool-cases (ltb n 10)) [
  | inl h ↦ rw h (ground arith)
  | inr h ↦ rw h (
      All-append IsDigit (digits_fuel f (n / 10)) _ (digits_fuel-IsDigit f (n / 10))
        (let t : All IsDigit ((b'0' + n % 10) ∷ []) = (omega arith, tt) in t))
]

scan-digits_fuel : (f n : ℕ) → n < f → scan_digits 0 (digits_fuel f n) ≡ n
unfolding digits_fuel
scan-digits_fuel zero n h = elim h [ ]
scan-digits_fuel (suc f) n h = elim (Bool-cases (ltb n 10)) [
  | inl e ↦ rw e (unfold scan_digits in ground arith)
  | inr e ↦
      rw
        (
          e,
          scan_digits-append 0 (digits_fuel f (n / 10)) (n % 10) (digits_fuel-IsDigit f (n / 10))
              (omega arith),
        )
        (ground (arith, scan-digits_fuel f (n / 10)))
]

-- The length of a number's text, up to three digits; 4 stands for more.
abbrev pub width : ℕ → ℕ
width n = if ltb n 10 then 1 else if ltb n 100 then 2 else if ltb n 1000 then 3 else 4

length-digits_fuel :
    (f n : ℕ)
    → length (digits_fuel (suc f) n) ≡ (if ltb n 10 then 1 else length (digits_fuel f (n / 10)) + 1)
unfolding digits_fuel
length-digits_fuel f n =
    ground (arith, length-append (digits_fuel f (n / 10)) ((b'0' + n % 10) ∷ []))

length-digits_fuel-width :
    (f n : ℕ)
    → n < f
    → (width n ≤ length (digits_fuel f n)) × (n < 1000 → length (digits_fuel f n) ≡ width n)
length-digits_fuel-width zero n h = elim h [ ]
length-digits_fuel-width (suc f) n h = elim (Bool-cases (ltb n 10)) [
  | inl e ↦ ground (arith, length-digits_fuel f n)
  | inr e ↦
      let ih = length-digits_fuel-width f (n / 10) (ground arith) in
      (
        ground (arith, length-digits_fuel f n, ih.0),
        λ k. ground (arith, length-digits_fuel f n, ih.1 (omega arith)),
      )
]

abbrev tens : ℕ → ℕ
tens zero = 1
tens (suc k) = tens k * 10

length-digits_fuel-le : (f n k : ℕ) → n < f → n < tens (suc k) → length (digits_fuel f n) ≤ suc k
length-digits_fuel-le zero n k h l = elim h [ ]
length-digits_fuel-le (suc f) n zero h l = ground (arith, length-digits_fuel f n)
length-digits_fuel-le (suc f) n (suc k) h l = elim (Bool-cases (ltb n 10)) [
  | inl e ↦ ground (arith, length-digits_fuel f n)
  | inr e ↦ ground (
    arith,
    length-digits_fuel f n,
    length-digits_fuel-le f (n / 10) k (ground arith) (omega arith),
  )
]

pub length-to_string-le : (n : ℕ) → n < 2 ^ 31 → length (to_string n) ≤ 10
unfolding to_string
length-to_string-le n h = length-digits_fuel-le (suc n) n 9 (omega arith) (omega arith)

pub length-to_string :
    (n : ℕ) → (width n ≤ length (to_string n)) × (n < 1000 → length (to_string n) ≡ width n)
unfolding to_string
length-to_string n = length-digits_fuel-width (suc n) n (omega arith)

-- Reading a number's text gives the number back.
scan-to_string : (n : ℕ) → scan_digits 0 (to_string n) ≡ n
unfolding to_string
scan-to_string n = scan-digits_fuel (suc n) n (omega arith)

pub to_string-IsDigit : (n : ℕ) → All IsDigit (to_string n)
unfolding to_string
to_string-IsDigit n = digits_fuel-IsDigit (suc n) n

signed-IsDigit :
    (c : ℕ) (cs : Bytes)
    → All IsDigit (c ∷ cs)
    → scan_digits 0 (c ∷ cs) < 2 ^ 31
    → stoi (c ∷ cs) ≡ some (pos (scan_digits 0 (c ∷ cs)))
unfolding stoi
signed-IsDigit c cs h k = ground arith

stoi-IsDigit :
    (s : Bytes)
    → All IsDigit s
    → 0 < length s
    → scan_digits 0 s < 2 ^ 31
    → stoi s ≡ some (pos (scan_digits 0 s))
stoi-IsDigit [] h l k = elim l [ ]
stoi-IsDigit (c ∷ cs) h l k = signed-IsDigit c cs h k

-- `std::stoi` reads back what the stream printed of a non-negative `int`.
pub stoi-to_string : (n : ℕ) → n < 2 ^ 31 → stoi (to_string n) ≡ some (pos n)
stoi-to_string n h =
    rw
      (stoi-IsDigit (to_string n) (to_string-IsDigit n) (ground (arith, length-to_string n))
        (rw (scan-to_string n) h))
      (rw (scan-to_string n))

pub int_to_string-pos : (n : ℕ) → int_to_string (pos n) ≡ to_string n
unfolding int_to_string
int_to_string-pos n = refl
