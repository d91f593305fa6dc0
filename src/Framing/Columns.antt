-- ===== src/Framing/Columns.antt =====
-- The header parser on a buffer that begins with five closed columns.
use io_trepublic_plus.Base.{
  ℕ, zero, suc, ◌+◌, ◌<◌, ◌≡◌, refl, ap, some, [], ◌∷◌, ◌++◌, arith, Bytes, length, drop, All, ltb,
  ◌==◌, if◌then◌else◌,
}
use io_trepublic_plus.Base.Int.{ℤ}
use io_trepublic_plus.Base.Decimal.{stoi}
use io_trepublic_plus.Package.{empty_package, columns}
use io_trepublic_plus.Framing.{until_nul, pop_header, decode_only_header, count_columns}

-- A byte that may stand in a column.
abbrev pub IsText : ℕ → Type 0
IsText c = 0 < c

until_nul-text : (xs ys : Bytes) → All IsText xs → until_nul (xs ++ (0 ∷ ys)) ≡ xs
unfolding until_nul
until_nul-text [] ys h = refl
until_nul-text (x ∷ xs) ys h = ground (arith, until_nul-text xs ys h.1)

drop-past : (xs ys : Bytes) → drop (length xs + 1) (xs ++ (0 ∷ ys)) ≡ ys
drop-past [] ys = refl
drop-past (x ∷ xs) ys = rw Prim.Native.Nat.add.suc (drop-past xs ys)

drop-add : (a b : ℕ) (xs : Bytes) → drop (a + b) xs ≡ drop b (drop a xs)
drop-add zero b xs = ap (λ n. drop n xs) (omega arith)
drop-add (suc a) zero [] = rw Prim.Native.Nat.add.suc refl
drop-add (suc a) (suc b) [] = rw Prim.Native.Nat.add.suc refl
drop-add (suc a) b (x ∷ xs) = rw Prim.Native.Nat.add.suc (drop-add a b xs)

-- One column: what is read, and where the next one begins.
pop_header-text :
    (buffer : Bytes) (start : ℕ) (xs ys : Bytes)
    → drop start buffer ≡ xs ++ (0 ∷ ys)
    → All IsText xs
    → (pop_header buffer start ≡ xs) × (drop (start + (length xs + 1)) buffer ≡ ys)
unfolding pop_header
pop_header-text buffer start xs ys e h =
    (rw e (until_nul-text xs ys h), rw (drop-add start (length xs + 1) buffer, e) (drop-past xs ys))

pop_header-last :
    (buffer : Bytes) (start : ℕ) (xs ys : Bytes)
    → drop start buffer ≡ xs ++ (0 ∷ ys)
    → All IsText xs
    → pop_header buffer start ≡ xs
pop_header-last buffer start xs ys e h = (pop_header-text buffer start xs ys e h).0

-- Five texts that can be the columns of a header, the second and third being the numbers.
pub record Header (c1 c2 c3 c4 c5 : Bytes) (h d : ℤ) : Type 0 where
  pub text1 : All IsText c1
  pub text2 : All IsText c2
  pub text3 : All IsText c3
  pub text4 : All IsText c4
  pub text5 : All IsText c5
  pub header_number : stoi c2 ≡ some h
  pub data_number : stoi c3 ≡ some d

module _ (buffer c1 c2 c3 c4 c5 : Bytes) {h d : ℤ} where
  decode_only_header-parts :
      pop_header buffer 0 ≡ c1
      → pop_header buffer (0 + (length c1 + 1)) ≡ c2
      → pop_header buffer (0 + (length c1 + 1) + (length c2 + 1)) ≡ c3
      → pop_header buffer (0 + (length c1 + 1) + (length c2 + 1) + (length c3 + 1)) ≡ c4
      → pop_header buffer
          (0 + (length c1 + 1) + (length c2 + 1) + (length c3 + 1) + (length c4 + 1))
        ≡ c5
      → stoi c2 ≡ some h
      → stoi c3 ≡ some d
      → decode_only_header buffer
        ≡ some (record empty_package {
          ver = c1;
          header_length = h;
          data_length = d;
          sor_ip = c4;
          des_ip = c5;
        })
  unfolding decode_only_header
  decode_only_header-parts r1 r2 r3 r4 r5 eh ed =
      rw (decode_only_header, r1, r2, eh, r3, ed, r4, r5)

pub decode_only_header-columns :
    {c1 c2 c3 c4 c5 : Bytes} {h d : ℤ} (rest : Bytes)
    → Header c1 c2 c3 c4 c5 h d
    → decode_only_header (columns c1 c2 c3 c4 c5 rest)
      ≡ some (record empty_package {
        ver = c1;
        header_length = h;
        data_length = d;
        sor_ip = c4;
        des_ip = c5;
      })
decode_only_header-columns {c1} {c2} {c3} {c4} {c5} {h} {d} rest k =
    let buffer : Bytes = columns c1 c2 c3 c4 c5 rest in
    let (r1, d1) = pop_header-text buffer 0 c1 _ refl k.text1 in
    let (r2, d2) = pop_header-text buffer _ c2 _ d1 k.text2 in
    let (r3, d3) = pop_header-text buffer _ c3 _ d2 k.text3 in
    let (r4, d4) = pop_header-text buffer _ c4 _ d3 k.text4 in
    let r5 = pop_header-last buffer _ c5 _ d4 k.text5 in
    decode_only_header-parts buffer c1 c2 c3 c4 c5 r1 r2 r3 r4 r5 k.header_number k.data_number

-- Counting the segment symbols with no bound.
abbrev pub symbols : Bytes → ℕ
symbols [] = 0
symbols (c ∷ cs) = (if c == 0 then 1 else 0) + symbols cs

pub count_columns-symbols :
    (n t : ℕ) (cs : Bytes) → t < n → ltb (count_columns n t cs) n ≡ ltb (t + symbols cs) n
unfolding count_columns
count_columns-symbols n t [] h = ground arith
count_columns-symbols n t (c ∷ cs) h =
    ground (arith, count_columns-symbols n (t + 1) cs, count_columns-symbols n t cs)

pub symbols-append : (xs ys : Bytes) → symbols (xs ++ ys) ≡ symbols xs + symbols ys
symbols-append [] ys = omega arith
symbols-append (x ∷ xs) ys = omega (arith, symbols-append xs ys)

pub symbols-text : (xs : Bytes) → All IsText xs → symbols xs ≡ 0
symbols-text [] h = refl
symbols-text (x ∷ xs) h = ground (arith, symbols-text xs h.1)
