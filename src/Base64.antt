-- ===== src/Base64.antt =====
-- Base64: Base64encode and Base64decode of IoTRepublicPlus/Utility/SystemUtility.cpp.
pub mod RoundTrip
use io_trepublic_plus.Base.{
  ℕ, zero, suc, ◌+◌, ◌-◌, ◌*◌, ◌/◌, ◌%◌, Bool, true, false, Option, none, some, List, [], ◌∷◌, ◌++◌,
  Bytes, codes, length, get_elem?, leb, if◌then◌else◌, ◌>>=◌,
}

-- `basis_64`
abbrev pub basis_64 : Bytes
basis_64 = codes "ABCDEFGHIJKLMNOPQRSTUVWXYZabcdefghijklmnopqrstuvwxyz0123456789+/"

-- The first half of `decodeTable`; all entries of the other half are 64.
abbrev pub decode_table : List ℕ
decode_table =
    64 ∷ 64 ∷ 64 ∷ 64 ∷ 64 ∷ 64 ∷ 64 ∷ 64 ∷ 64 ∷ 64 ∷ 64 ∷ 64 ∷ 64 ∷ 64 ∷ 64 ∷ 64 ∷ 64 ∷ 64 ∷ 64
    ∷ 64 ∷ 64 ∷ 64 ∷ 64 ∷ 64 ∷ 64 ∷ 64 ∷ 64 ∷ 64 ∷ 64 ∷ 64 ∷ 64 ∷ 64 ∷ 64 ∷ 64 ∷ 64 ∷ 64 ∷ 64 ∷ 64
    ∷ 64 ∷ 64 ∷ 64 ∷ 64 ∷ 64 ∷ 62 ∷ 64 ∷ 64 ∷ 64 ∷ 63 ∷ 52 ∷ 53 ∷ 54 ∷ 55 ∷ 56 ∷ 57 ∷ 58 ∷ 59 ∷ 60
    ∷ 61 ∷ 64 ∷ 64 ∷ 64 ∷ 64 ∷ 64 ∷ 64 ∷ 64 ∷ 0 ∷ 1 ∷ 2 ∷ 3 ∷ 4 ∷ 5 ∷ 6 ∷ 7 ∷ 8 ∷ 9 ∷ 10 ∷ 11 ∷ 12
    ∷ 13 ∷ 14 ∷ 15 ∷ 16 ∷ 17 ∷ 18 ∷ 19 ∷ 20 ∷ 21 ∷ 22 ∷ 23 ∷ 24 ∷ 25 ∷ 64 ∷ 64 ∷ 64 ∷ 64 ∷ 64 ∷ 64
    ∷ 26 ∷ 27 ∷ 28 ∷ 29 ∷ 30 ∷ 31 ∷ 32 ∷ 33 ∷ 34 ∷ 35 ∷ 36 ∷ 37 ∷ 38 ∷ 39 ∷ 40 ∷ 41 ∷ 42 ∷ 43 ∷ 44
    ∷ 45 ∷ 46 ∷ 47 ∷ 48 ∷ 49 ∷ 50 ∷ 51 ∷ 64 ∷ 64 ∷ 64 ∷ 64 ∷ 64 ∷ []

abbrev or_else : ℕ → Option ℕ → ℕ
or_else d none = d
or_else d (some v) = v

-- `basis_64[i]`, for an index below 64
unfoldable pub symbol : ℕ → ℕ
symbol i = or_else 0 (get_elem? basis_64 i)

-- `decodeTable[c]`
unfoldable pub sextet : ℕ → ℕ
sextet c = or_else 64 (get_elem? decode_table c)

abbrev pub padding : ℕ
padding = 61

-- The encoding loop, three bytes a round, and the one or two bytes that are left.
unfoldable pub encode : Bytes → Bytes
encode [] = []
encode (a ∷ []) = symbol (a / 4 % 64) ∷ symbol (a % 4 * 16) ∷ padding ∷ padding ∷ []
encode (a ∷ b ∷ []) =
    symbol (a / 4 % 64) ∷ symbol (a % 4 * 16 + b / 16 % 16) ∷ symbol (b % 16 * 4) ∷ padding ∷ []
encode (a ∷ b ∷ c ∷ rest) =
    symbol (a / 4 % 64)
    ∷ symbol (a % 4 * 16 + b / 16 % 16)
    ∷ symbol (b % 16 * 4 + c / 64 % 4)
    ∷ symbol (c % 64)
    ∷ encode rest

-- `Base64encode`: what it writes, with the '\0' behind it, and what it returns.
unfoldable pub base64_encode : Bytes → Bytes × ℕ
base64_encode source = let text = encode source in (text ++ (0 ∷ []), length text)

-- The values of the characters up to the first that is no symbol. `none` is a read behind the end of
-- the text.
unfoldable pub sextets : Bytes → Option (List ℕ)
sextets [] = none
sextets (c ∷ cs) =
    let rest = sextets cs in
    let more = (do vs ← rest; some (sextet c ∷ vs)) in if leb (sextet c) 63 then more else some []

-- The decoding loop: it goes on while more than four characters are left.
unfoldable pub decode : List ℕ → Bytes
decode [] = []
decode (a ∷ []) = []
decode (a ∷ b ∷ []) = (a * 4 + b / 16) % 256 ∷ []
decode (a ∷ b ∷ c ∷ []) = (a * 4 + b / 16) % 256 ∷ (b * 16 + c / 4) % 256 ∷ []
decode (a ∷ b ∷ c ∷ d ∷ rest) =
    (a * 4 + b / 16) % 256 ∷ (b * 16 + c / 4) % 256 ∷ (c * 64 + d) % 256 ∷ decode rest

-- The characters that the loop leaves.
unfoldable pub left_over : List ℕ → ℕ
left_over (a ∷ b ∷ c ∷ d ∷ e ∷ rest) = left_over (e ∷ rest)
left_over vs = length vs

-- `Base64decode`: what it writes, with the '\0' behind it, and what it returns.
unfoldable pub base64_decode : Bytes → Option (Bytes × ℕ)
base64_decode text = do
  vs ← sextets text
  some (decode vs ++ (0 ∷ []), (length vs + 3) / 4 * 3 - (4 - left_over vs) % 4)
