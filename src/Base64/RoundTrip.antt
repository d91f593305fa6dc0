-- ===== src/Base64/RoundTrip.antt =====
-- Base64decode on what Base64encode writes.
use io_trepublic_plus.Base.{
  ℕ, zero, suc, ◌+◌, ◌-◌, ◌*◌, ◌/◌, ◌%◌, ◌<◌, ◌≡◌, refl, ap, ◌∙◌, Bool, true, some, List, [], ◌∷◌,
  ◌++◌, ◌&&◌, Bytes, length, All, le→leb, append_assoc, ◌==◌, arith,
}
use io_trepublic_plus.Package.Checksum.SignedBytes.{IsByte}
use io_trepublic_plus.Base64.{
  base64_decode, base64_encode, decode, encode, left_over, padding, sextet, sextets, symbol,
}

-- A function leaves each of the first so many numbers as it is.
unfoldable pub fixes : (ℕ → ℕ) → ℕ → Bool
fixes f zero = true
fixes f (suc n) = (f n == n) && fixes f n

pub fixes-lt : (f : ℕ → ℕ) (n i : ℕ) → fixes f n ≡ true → i < n → f i ≡ i
unfolding fixes
fixes-lt f zero i h k = elim k [ ]
fixes-lt f (suc n) i h k = ground (arith, fixes-lt f n i)

-- The table of the decoder inverts that of the encoder.
tables_fix : fixes (λ i. sextet (symbol i)) 64 ≡ true
unfolding fixes sextet symbol
tables_fix = refl

sextet-symbol : (i : ℕ) → i < 64 → sextet (symbol i) ≡ i
sextet-symbol i h = fixes-lt (λ n. sextet (symbol n)) 64 i tables_fix h

sextets-symbol :
    (i : ℕ) (cs : Bytes) (vs : List ℕ)
    → i < 64
    → sextets cs ≡ some vs
    → sextets (symbol i ∷ cs) ≡ some (i ∷ vs)
unfolding sextets
sextets-symbol i cs vs h e = rw (sextet-symbol i h, le→leb i 63 (omega arith), e) refl

-- The values of the characters that the encoder writes.
values : Bytes → List ℕ
values [] = []
values (a ∷ []) = a / 4 % 64 ∷ a % 4 * 16 ∷ []
values (a ∷ b ∷ []) = a / 4 % 64 ∷ (a % 4 * 16 + b / 16 % 16) ∷ b % 16 * 4 ∷ []
values (a ∷ b ∷ c ∷ rest) =
    a / 4 % 64 ∷ (a % 4 * 16 + b / 16 % 16) ∷ (b % 16 * 4 + c / 64 % 4) ∷ c % 64 ∷ values rest

sextets-padding : (cs : Bytes) → sextets (padding ∷ cs) ≡ some []
unfolding sextets sextet
sextets-padding cs = refl

sextets-nul : (cs : Bytes) → sextets (0 ∷ cs) ≡ some []
unfolding sextets sextet
sextets-nul cs = refl

sextets-encode : (xs rest : Bytes) → sextets (encode xs ++ (0 ∷ rest)) ≡ some (values xs)
unfolding encode values
sextets-encode [] rest = sextets-nul rest
sextets-encode (a ∷ []) rest =
    sextets-symbol (a / 4 % 64) _ _ (omega arith)
      (sextets-symbol (a % 4 * 16) _ _ (omega arith) (sextets-padding (padding ∷ 0 ∷ rest)))
sextets-encode (a ∷ b ∷ []) rest = sextets-symbol (a / 4 % 64) _ _ (omega arith) (
    sextets-symbol (a % 4 * 16 + b / 16 % 16) _ _ (omega arith)
      (sextets-symbol (b % 16 * 4) _ _ (omega arith) (sextets-padding (0 ∷ rest))))
sextets-encode (a ∷ b ∷ c ∷ xs) rest = sextets-symbol (a / 4 % 64) _ _ (omega arith) (
    sextets-symbol (a % 4 * 16 + b / 16 % 16) _ _ (omega arith) (
      sextets-symbol (b % 16 * 4 + c / 64 % 4) _ _ (omega arith)
        (sextets-symbol (c % 64) _ _ (omega arith) (sextets-encode xs rest))))

module _ (a b c : ℕ) (ha : IsByte a) (hb : IsByte b) (hc : IsByte c) where
  first_byte : (a / 4 % 64 * 4 + (a % 4 * 16 + b / 16 % 16) / 16) % 256 ≡ a
  first_byte = omega (arith, ha)

  second_byte : ((a % 4 * 16 + b / 16 % 16) * 16 + (b % 16 * 4 + c / 64 % 4) / 4) % 256 ≡ b
  second_byte = omega (arith, hb)

  third_byte : ((b % 16 * 4 + c / 64 % 4) * 64 + c % 64) % 256 ≡ c
  third_byte = omega (arith, hc)

decode-values : (xs : Bytes) → All IsByte xs → decode (values xs) ≡ xs
unfolding decode values
decode-values [] h = refl
decode-values (a ∷ []) (h, _) = ap (λ x. x ∷ []) (omega (arith, h))
decode-values (a ∷ b ∷ []) (ha, (hb, _)) =
    λ i. first_byte a b 0 ha hb (omega arith) i ∷ last b hb i ∷ []
  where
    last : (b : ℕ) → IsByte b → ((a % 4 * 16 + b / 16 % 16) * 16 + b % 16 * 4 / 4) % 256 ≡ b
    last b h = omega (arith, h)
decode-values (a ∷ b ∷ c ∷ xs) (ha, (hb, (hc, hs))) = λ i.
    first_byte a b c ha hb hc i
    ∷ second_byte a b c ha hb hc i
    ∷ third_byte a b c ha hb hc i
    ∷ decode-values xs hs i

pub length-encode : (xs : Bytes) → length (encode xs) ≡ (length xs + 2) / 3 * 4
unfolding encode
length-encode [] = refl
length-encode (a ∷ []) = refl
length-encode (a ∷ b ∷ []) = refl
length-encode (a ∷ b ∷ c ∷ xs) = omega (arith, length-encode xs)

length-values : (xs : Bytes) → length (values xs) ≡ (length xs * 4 + 2) / 3
unfolding values
length-values [] = refl
length-values (a ∷ []) = refl
length-values (a ∷ b ∷ []) = refl
length-values (a ∷ b ∷ c ∷ xs) = omega (arith, length-values xs)

left_over-length : (vs : List ℕ) → (4 - left_over vs) % 4 ≡ (length vs * 3) % 4
unfolding left_over
left_over-length [] = refl
left_over-length (a ∷ []) = refl
left_over-length (a ∷ b ∷ []) = refl
left_over-length (a ∷ b ∷ c ∷ []) = refl
left_over-length (a ∷ b ∷ c ∷ d ∷ []) = refl
left_over-length (a ∷ b ∷ c ∷ d ∷ e ∷ vs) = omega (arith, left_over-length (e ∷ vs))

-- Whatever stands behind the text, the decoder gives back every sequence of bytes that the encoder
-- was given, with a '\0' behind it, and returns its length; and the encoder returns the length of its
-- text, which is four for each three bytes begun.
pub base64_decode-base64_encode :
    (xs rest : Bytes)
    → All IsByte xs
    → (base64_decode ((base64_encode xs).0 ++ rest) ≡ some (xs ++ (0 ∷ []), length xs))
      × ((base64_encode xs).1 ≡ (length xs + 2) / 3 * 4)
unfolding base64_decode base64_encode
base64_decode-base64_encode xs rest h = (
  ap base64_decode (append_assoc (encode xs) (0 ∷ []) rest)
      ∙ rw (sextets-encode xs rest, decode-values xs h)
          (ap (λ n. some (xs ++ (0 ∷ []), n))
            (omega (arith, left_over-length (values xs), length-values xs))),
  length-encode xs,
)
