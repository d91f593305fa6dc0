-- ===== src/Framing/Consumes.antt =====
-- What the receiver does to any buffer: a package is cut off its front, an error leaves it.
use io_trepublic_plus.Base.{
  ℕ, zero, suc, ◌+◌, ◌^◌, ◌<◌, ◌≤◌, ◌≡◌, ◌≢◌, ◌⊎◌, inl, inr, refl, subst, true, some, none, [], ◌∷◌,
  ◌++◌, arith, Bytes, length, take, get_elem?, >>=-eq-some, some_inj, take-append-drop, length-drop,
  Option-cases,
}
use io_trepublic_plus.Base.Int.{ℤ, pos, negsuc, pos_part, ◌+ℤ◌, +ℤ_small}
use io_trepublic_plus.Package.{IoTPackage}
use io_trepublic_plus.Framing.{
  GetPackageError, no_error, unknown_error, start_word_error, checksum_error, IoTUtility,
  decode_only_header, sended_sum, decode_package, decode_content, check_sum, check_completed,
  check_length, is_valid_package, take_valid, get_completed_package, cut_off, Taken, taken_by,
}

get_elem?-in : (xs : Bytes) (i : ℕ) → get_elem? xs i ≢ none → i < length xs
get_elem?-in [] i e = absurd (e refl)
get_elem?-in (x ∷ xs) zero e = omega arith
get_elem?-in (x ∷ xs) (suc i) e = omega (arith, get_elem?-in xs i e)

-- Where both checksum bytes are read, the total length is a position in the buffer.
sended_sum-in :
    (buffer : Bytes) (z : ℤ)
    → length buffer < 2 ^ 31
    → sended_sum buffer z ≢ none
    → (z ≡ pos (pos_part z)) × (pos_part z + 2 ≤ length buffer)
sended_sum-in buffer (negsuc n) h e = absurd (e refl)
sended_sum-in buffer (pos n) h e =
    let i : n < length buffer = get_elem?-in buffer n (λ q. e (rw q)) in
    let next = +ℤ_small n 1 (omega arith) in
    let j : n + 1 < length buffer = get_elem?-in buffer (n + 1) (λ q. e (ground (arith, next))) in
    (refl, omega arith)

decode_content-in :
    (buffer : Bytes) (q p : IoTPackage)
    → length buffer < 2 ^ 31
    → decode_content buffer q ≡ some p
    → (p.header_length +ℤ p.data_length ≡ pos (pos_part (p.header_length +ℤ p.data_length)))
      × (pos_part (p.header_length +ℤ p.data_length) + 2 ≤ length buffer)
unfolding decode_content
decode_content-in buffer q p h e =
    ground (arith, sended_sum-in buffer (q.header_length +ℤ q.data_length))

decode_package-in :
    (buffer : Bytes) (p : IoTPackage)
    → length buffer < 2 ^ 31
    → decode_package buffer ≡ some p
    → (p.header_length +ℤ p.data_length ≡ pos (pos_part (p.header_length +ℤ p.data_length)))
      × (pos_part (p.header_length +ℤ p.data_length) + 2 ≤ length buffer)
unfolding decode_package
decode_package-in buffer p h e =
    let (q, _, later) = >>=-eq-some (decode_only_header buffer) (decode_content buffer) e in
    decode_content-in buffer q p h later

-- A package with its bytes stands at the front of the buffer, and the rest is left.
pub record Cut (buffer : Bytes) (t : Taken) : Type 0 where
  pub pkg : IoTPackage
  pub is_result : t.result ≡ some pkg
  pub is_no_error : t.error ≡ no_error
  pub splits : pkg.data_vector_for_sending ++ t.buffer ≡ buffer
  pub takes_two : length t.buffer + 2 ≤ length buffer

-- No package: an error, and the buffer as it was, but for the '\0' behind a wrong start word.
pub record Refused (buffer : Bytes) (t : Taken) : Type 0 where
  pub no_result : t.result ≡ none
  pub is_error : (t.error ≢ no_error) × (t.error ≢ unknown_error)
  pub same_buffer : t.error ≢ start_word_error → t.buffer ≡ buffer
  pub marked_buffer : t.error ≡ start_word_error → t.buffer ≡ buffer ++ 0 ∷ []

cut_off-Cut :
    (buffer : Bytes) (q : IoTPackage) (n : ℕ)
    → length buffer < 2 ^ 31
    → q.header_length +ℤ q.data_length ≡ pos n
    → n + 2 ≤ length buffer
    → Cut buffer (cut_off buffer q)
unfolding cut_off
cut_off-Cut buffer q n short e h =
    let whole : q.header_length +ℤ q.data_length +ℤ pos 2 ≡ pos (n + 2) =
      rw e (+ℤ_small n 2 (omega arith)) in
    record {
      pkg = record q {
        is_completed_package = true;
        data_vector_for_sending =
            take (pos_part (q.header_length +ℤ q.data_length +ℤ pos 2)) buffer;
      };
      is_result = refl;
      is_no_error = refl;
      splits = take-append-drop (pos_part (q.header_length +ℤ q.data_length +ℤ pos 2)) buffer;
      takes_two = rw (whole, length-drop (n + 2) buffer) (omega arith);
    }

take_valid-Cut :
    (buffer : Bytes) (t : Taken)
    → length buffer < 2 ^ 31
    → take_valid buffer ≡ some t
    → Cut buffer t
unfolding take_valid
take_valid-Cut buffer t short e =
    let (q, eq, done) = >>=-eq-some (decode_package buffer) (λ p. some (cut_off buffer p)) e in
    let (total, fits) = decode_package-in buffer q short eq in
    subst (Cut buffer) (some_inj done)
      (cut_off-Cut buffer q (pos_part (q.header_length +ℤ q.data_length)) short total fits)

-- What the checks leave of the buffer, and which errors they report.
abbrev Checked : Bytes → GetPackageError × Bytes → Type 0
Checked buffer (e, b) =
    (e ≢ unknown_error)
    × (e ≢ start_word_error → b ≡ buffer)
    × (e ≡ start_word_error → b ≡ buffer ++ 0 ∷ [])

check_sum-errors :
    (buffer : Bytes) (q : IoTPackage) {e : GetPackageError}
    → check_sum buffer q ≡ some e
    → (e ≡ no_error) ⊎ (e ≡ checksum_error)
unfolding check_sum
check_sum-errors buffer q h = ground arith

check_length-Checked :
    (buffer : Bytes) (q : IoTPackage) (r : GetPackageError × Bytes)
    → check_length buffer q ≡ some r
    → Checked buffer r
unfolding check_length
check_length-Checked buffer q (e, b) h = elim (Option-cases (check_sum buffer q)) [
  | inl n ↦ ground arith
  | inr (x, ex) ↦ ground (arith, check_sum-errors buffer q ex)
]

check_completed-Checked :
    (buffer : Bytes) (r : GetPackageError × Bytes)
    → check_completed buffer ≡ some r
    → Checked buffer r
unfolding check_completed
check_completed-Checked buffer r h =
    let (q, _, later) = >>=-eq-some (decode_only_header buffer) (check_length buffer) h in
    check_length-Checked buffer q r later

is_valid_package-Checked :
    (u : IoTUtility) (buffer : Bytes) (r : GetPackageError × Bytes)
    → is_valid_package u buffer ≡ some r
    → Checked buffer r
unfolding is_valid_package
is_valid_package-Checked u buffer (e, b) h = ground (arith, check_completed-Checked buffer (e, b))

taken_by-Cut :
    (buffer b : Bytes) (e : GetPackageError) (t : Taken)
    → length buffer < 2 ^ 31
    → Checked buffer (e, b)
    → taken_by (e, b) ≡ some t
    → Cut buffer t ⊎ Refused buffer t
taken_by-Cut buffer b no_error t short c h =
    inl (subst (λ x. Cut x t) same (take_valid-Cut b t (rw same short) h))
  where
    same : b ≡ buffer
    same = c.1 (λ q. cc)
taken_by-Cut buffer b unknown_error t short c h = absurd (c.0 refl)
taken_by-Cut buffer b start_word_error t short (c0, c1, c2) h = inr (record {
  no_result = ground arith;
  is_error = (ground arith, ground arith);
  same_buffer = λ q. absurd (q (ground arith));
  marked_buffer = λ q. ground (arith, c2 refl);
})
taken_by-Cut buffer b _ t short (c0, c1, c2) h = inr (record {
  no_result = ground arith;
  is_error = (ground arith, ground arith);
  same_buffer = λ q. ground (arith, c1 (λ r. cc));
  marked_buffer = λ q. ground arith;
})

-- Whatever a buffer shorter than 2 ^ 31 holds, if the receiver returns then either it returns a
-- package and no error, the package's bytes and the rest of the buffer make up the old buffer,
-- and at least two bytes are gone; or it returns none, with an error that is not the unknown one,
-- and the buffer is the old one, behind which a wrong start word puts a '\0'.
pub get_completed_package-Cut :
    (u : IoTUtility) (buffer : Bytes) {t : Taken}
    → length buffer < 2 ^ 31
    → get_completed_package u buffer ≡ some t
    → Cut buffer t ⊎ Refused buffer t
unfolding get_completed_package
get_completed_package-Cut u buffer {t} short h =
    let ((e, b), valid, later) = >>=-eq-some (is_valid_package u buffer) taken_by h in
    taken_by-Cut buffer b e t short (is_valid_package-Checked u buffer (e, b) valid) later
