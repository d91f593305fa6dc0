-- ===== src/Package/HeaderLength.antt =====
-- When the length that the constructors put into the header is the header's own length.
use io_trepublic_plus.Base.{
  ℕ, ◌+◌, ◌^◌, ◌<◌, ◌≤◌, ◌≡◌, ◌≢◌, ◌↔◌, sym, ap, ◌∙◌, [], ◌∷◌, ◌++◌, arith, Bytes, length,
  length-append, ltb, if◌then◌else◌,
}
use io_trepublic_plus.Base.Int.{ℤ, pos, pos_part, to_int_small, +ℤ_small}
use io_trepublic_plus.Base.Decimal.{to_string, int_to_string, int_to_string-pos, length-to_string}
use io_trepublic_plus.Package.{columns, other_columns, with_own_column, header_length_of}

pub length-columns :
    (c1 c2 c3 c4 c5 rest : Bytes)
    → length (columns c1 c2 c3 c4 c5 rest)
      ≡ length c1 + length c2 + length c3 + length c4 + length c5 + 5 + length rest
length-columns c1 c2 c3 c4 c5 rest = omega (
  arith,
  length-append c1 (0 ∷ (c2 ++ (0 ∷ (c3 ++ (0 ∷ (c4 ++ (0 ∷ (c5 ++ (0 ∷ rest))))))))),
  length-append c2 (0 ∷ (c3 ++ (0 ∷ (c4 ++ (0 ∷ (c5 ++ (0 ∷ rest))))))),
  length-append c3 (0 ∷ (c4 ++ (0 ∷ (c5 ++ (0 ∷ rest))))),
  length-append c4 (0 ∷ (c5 ++ (0 ∷ rest))),
  length-append c5 (0 ∷ rest),
)

-- The number of bytes that a package's header takes on the wire.
abbrev pub wire_header : Bytes → Bytes → Bytes → ℤ → ℕ
wire_header ver so_ip des_ip data_length = length (
    columns ver (int_to_string (header_length_of ver so_ip des_ip data_length))
      (int_to_string data_length) so_ip des_ip [])

-- What is added for the header length's own column.
abbrev own_column : ℕ → ℕ
own_column l = (if ltb 8 l then if ltb 97 l then 3 else 2 else 1) + 1

with_own_column-pos : (l : ℕ) → l + 4 < 2 ^ 31 → with_own_column (pos l) ≡ pos (l + own_column l)
with_own_column-pos l h = ground (
  arith,
  +ℤ_small l 1,
  +ℤ_small l 2,
  +ℤ_small l 3,
  +ℤ_small (l + 1) 1,
  +ℤ_small (l + 2) 1,
  +ℤ_small (l + 3) 1,
)

pub header_length_of-pos :
    (ver so_ip des_ip : Bytes) (d : ℤ)
    → other_columns ver so_ip des_ip d + 4 < 2 ^ 31
    → header_length_of ver so_ip des_ip d
      ≡ pos (other_columns ver so_ip des_ip d + own_column (other_columns ver so_ip des_ip d))
unfolding header_length_of
header_length_of-pos ver so_ip des_ip d h =
    rw (to_int_small (other_columns ver so_ip des_ip d) (omega arith))
      (with_own_column-pos (other_columns ver so_ip des_ip d) h)

-- The other columns' lengths for which the guess of the own column's width is right.
abbrev pub IsGuessed : ℕ → Type 0
IsGuessed l = (l ≢ 8) × (l ≢ 97) × (l < 996)

length-own_column :
    (l : ℕ) → (length (to_string (l + own_column l)) + 1 ≡ own_column l) ↔ IsGuessed l
length-own_column l =
    let h = length-to_string (l + own_column l) in
    (
      λ e. (ground (arith, h.0), ground (arith, h.0), ground (arith, h.0)),
      λ g. ground (arith, h.0, h.1 (ground arith)),
    )

wire_header-pos :
    (ver so_ip des_ip : Bytes) (d : ℤ)
    → other_columns ver so_ip des_ip d + 4 < 2 ^ 31
    → let l = other_columns ver so_ip des_ip d in
      wire_header ver so_ip des_ip d ≡ l + (length (to_string (l + own_column l)) + 1)
wire_header-pos ver so_ip des_ip d h =
    let l = other_columns ver so_ip des_ip d in
    rw (header_length_of-pos ver so_ip des_ip d h, int_to_string-pos (l + own_column l))
      (omega (
        arith,
        length-columns ver (to_string (l + own_column l)) (int_to_string d) so_ip des_ip [],
      ))

pos-injective : {a b : ℕ} → pos a ≡ pos b → a ≡ b
pos-injective e = ap pos_part e

-- Where the lengths fit an `int`, the header length that the constructors compute is the length of
-- the header that they send exactly when the other columns do not take 8 or 97 bytes and take less
-- than 996. For the other lengths the digits of the header length are miscounted.
pub header_length_of-correct_iff :
    (ver so_ip des_ip : Bytes) (d : ℤ)
    → other_columns ver so_ip des_ip d + 4 < 2 ^ 31
    → (header_length_of ver so_ip des_ip d ≡ pos (wire_header ver so_ip des_ip d))
      ↔ IsGuessed (other_columns ver so_ip des_ip d)
header_length_of-correct_iff ver so_ip des_ip d h =
    let l = other_columns ver so_ip des_ip d in
    let own = length-own_column l in
    let wire = wire_header-pos ver so_ip des_ip d h in
    let field = header_length_of-pos ver so_ip des_ip d h in
    (
      λ e. own.0 (omega (arith, wire, pos-injective (sym field ∙ e))),
      λ g. field ∙ ap pos (omega (arith, wire, own.1 g)),
    )

pub wire_header-le :
    (ver so_ip des_ip : Bytes) (d : ℤ)
    → other_columns ver so_ip des_ip d + 4 < 2 ^ 31
    → IsGuessed (other_columns ver so_ip des_ip d)
    → wire_header ver so_ip des_ip d ≤ other_columns ver so_ip des_ip d + 4
wire_header-le ver so_ip des_ip d h g =
    let l = other_columns ver so_ip des_ip d in
    ground (arith, wire_header-pos ver so_ip des_ip d h, (length-own_column l).1 g)
