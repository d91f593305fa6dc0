-- ===== src/Framing/Decode.antt =====
-- What the receiver does with one whole frame at the front of its buffer, whatever its checksum is.
use io_trepublic_plus.Base.{
  ℕ, ◌+◌, ◌*◌, ◌^◌, ◌<◌, ◌≡◌, refl, ◌∙◌, Bool, true, false, some, [], ◌∷◌, ◌++◌, arith, Bytes, inl,
  inr, Bool-cases, length, ltb, leb, ◌==◌, if◌then◌else◌, length-append, take-append, str_eq_iff,
  le→not-ltb, le→leb,
}
use io_trepublic_plus.Base.Int.{pos}
use io_trepublic_plus.Package.{IoTPackage, columns}
use io_trepublic_plus.Package.HeaderLength.{length-columns}
use io_trepublic_plus.Package.Checksum.{sum_signed, fold_sum}
use io_trepublic_plus.Framing.{
  no_error, checksum_error, iot_utility, decode_only_header, copy_data, decode_package,
  decode_content, check_sum, check_completed, check_length, is_valid_package, take_valid, cut_off,
  is_start_word, count_columns, Taken, get_completed_package, refused,
}
use io_trepublic_plus.Framing.Columns.{
  decode_only_header-columns, count_columns-symbols, symbols-append,
}
use io_trepublic_plus.Framing.Frame.{
  Frame, IsFrame, head_bytes, body, head_length, package_of_frame, header_of_frame, columns-append,
  sended_sum-append, copy_data-append, leb-to_int, body_split, take_frame, drop_frame, body-length,
  total, needed,
}

module _ (f : Frame) (k : IsFrame f) where
  module _ (high low : ℕ) (rest : Bytes) where
    header_lem : decode_only_header (body f ++ (high ∷ low ∷ rest)) ≡ some (header_of_frame f)
    header_lem =
        rw
          (columns-append f.ver f.header_text f.data_text f.sor_ip f.des_ip f.content
            (high ∷ low ∷ rest))
          (decode_only_header-columns (f.content ++ (high ∷ low ∷ rest)) k.header)

    check_sum-Frame :
        (p : IoTPackage) (sum : ℕ)
        → p.header_length ≡ pos (head_length f)
        → p.data_length ≡ pos (length f.content)
        → sum_signed 0 (length (body f)) (body f ++ (high ∷ low ∷ rest)) ≡ some sum
        → check_sum (body f ++ (high ∷ low ∷ rest)) p
          ≡ some (if fold_sum sum == high * 256 + low then no_error else checksum_error)
    unfolding check_sum
    check_sum-Frame p sum eh ed e = rw (
      eh,
      ed,
      total,
      e,
      sended_sum-append (body f) high low rest (omega (arith, body-length, k.fits)),
    )

    module _ (short : length (body f ++ (high ∷ low ∷ rest)) < 2 ^ 31) where
      is_long : leb (length (body f) + 2) (length (body f ++ (high ∷ low ∷ rest))) ≡ true
      is_long = le→leb _ _ (omega (arith, length-append (body f) (high ∷ low ∷ rest)))

      -- The checksum is all that can be wrong with a frame.
      check_completed-Frame :
          (sum : ℕ)
          → sum_signed 0 (length (body f)) (body f ++ (high ∷ low ∷ rest)) ≡ some sum
          → check_completed (body f ++ (high ∷ low ∷ rest))
            ≡ some (
              if fold_sum sum == high * 256 + low then no_error else checksum_error,
              body f ++ (high ∷ low ∷ rest),
            )
      unfolding check_completed check_length
      check_completed-Frame sum e = rw (
        header_lem,
        needed,
        leb-to_int (length (body f) + 2) (length (body f ++ (high ∷ low ∷ rest))) short,
        is_long,
        check_sum-Frame (header_of_frame f) sum refl refl e,
      )

    copy_lem :
        copy_data (body f ++ (high ∷ low ∷ rest)) (pos (head_length f)) (pos (length (body f)))
        ≡ some f.content
    copy_lem =
        rw (body-length, body_split f (high ∷ low ∷ rest))
          (copy_data-append (head_bytes f []) f.content (high ∷ low ∷ rest))

    decode_package-Frame :
        decode_package (body f ++ (high ∷ low ∷ rest))
        ≡ some (record (header_of_frame f) { checksum = high * 256 + low; data_vector = f.content })
    unfolding decode_package decode_content
    decode_package-Frame = rw (
      header_lem,
      total,
      le→leb 0 (length f.content + 0) (omega arith),
      copy_lem,
      sended_sum-append (body f) high low rest (omega (arith, body-length, k.fits)),
    )

    take_valid-Frame :
        take_valid (body f ++ (high ∷ low ∷ rest))
        ≡ some (record {
          result = some (package_of_frame f high low);
          error = no_error;
          buffer = rest;
        })
    unfolding take_valid cut_off
    take_valid-Frame = rw (
      decode_package-Frame,
      needed,
      take_frame (body f) high low rest,
      drop_frame (body f) high low rest,
    )

is_start_word-columns :
    (c1 c2 c3 c4 c5 rest : Bytes) (symbol : ℕ)
    → is_start_word (iot_utility c1 symbol) (columns c1 c2 c3 c4 c5 rest) ≡ true
unfolding is_start_word
is_start_word-columns c1 c2 c3 c4 c5 rest symbol =
    rw (take-append c1 (0 ∷ (c2 ++ (0 ∷ (c3 ++ (0 ∷ (c4 ++ (0 ∷ (c5 ++ (0 ∷ rest))))))))))
      ((str_eq_iff c1 c1).1 refl)

columns_complete :
    (c1 c2 c3 c4 c5 rest : Bytes) → ltb (count_columns 5 0 (columns c1 c2 c3 c4 c5 rest)) 5 ≡ false
columns_complete c1 c2 c3 c4 c5 rest =
    rw (count_columns-symbols 5 0 (columns c1 c2 c3 c4 c5 rest) (omega arith)) (
      le→not-ltb _ 5 (
        omega (
          arith,
          symbols-append c1 (0 ∷ (c2 ++ (0 ∷ (c3 ++ (0 ∷ (c4 ++ (0 ∷ (c5 ++ (0 ∷ rest))))))))),
          symbols-append c2 (0 ∷ (c3 ++ (0 ∷ (c4 ++ (0 ∷ (c5 ++ (0 ∷ rest))))))),
          symbols-append c3 (0 ∷ (c4 ++ (0 ∷ (c5 ++ (0 ∷ rest))))),
          symbols-append c4 (0 ∷ (c5 ++ (0 ∷ rest))),
          symbols-append c5 (0 ∷ rest),
        )))

-- Behind a complete header, validity is what `check_completed` says.
pub is_valid_package-columns :
    (c1 c2 c3 c4 c5 rest : Bytes) (symbol : ℕ)
    → is_valid_package (iot_utility c1 symbol) (columns c1 c2 c3 c4 c5 rest)
      ≡ check_completed (columns c1 c2 c3 c4 c5 rest)
unfolding is_valid_package
is_valid_package-columns c1 c2 c3 c4 c5 rest symbol = rw (
  le→not-ltb (length (columns c1 c2 c3 c4 c5 rest)) (length c1)
      (omega (arith, length-columns c1 c2 c3 c4 c5 rest)),
  is_start_word-columns c1 c2 c3 c4 c5 rest symbol,
  columns_complete c1 c2 c3 c4 c5 rest,
)

-- The outcome for a frame, by its checksum.
abbrev pub frame_outcome : Frame → ℕ → ℕ → Bytes → Bool → Taken
frame_outcome f high low rest true = record {
  result = some (package_of_frame f high low);
  error = no_error;
  buffer = rest;
}
frame_outcome f high low rest false = refused checksum_error (body f ++ (high ∷ low ∷ rest))

pub get_completed_package-Frame :
    (f : Frame) (high low : ℕ) (rest : Bytes) (symbol sum : ℕ)
    → IsFrame f
    → length (body f ++ (high ∷ low ∷ rest)) < 2 ^ 31
    → sum_signed 0 (length (body f)) (body f ++ (high ∷ low ∷ rest)) ≡ some sum
    → get_completed_package (iot_utility f.ver symbol) (body f ++ (high ∷ low ∷ rest))
      ≡ some (frame_outcome f high low rest (fold_sum sum == high * 256 + low))
unfolding get_completed_package
get_completed_package-Frame f high low rest symbol sum k short e =
    let valid : is_valid_package (iot_utility f.ver symbol) (body f ++ (high ∷ low ∷ rest))
        ≡ some (
          if fold_sum sum == high * 256 + low then no_error else checksum_error,
          body f ++ (high ∷ low ∷ rest),
        ) =
      rw
        (columns-append f.ver f.header_text f.data_text f.sor_ip f.des_ip f.content
          (high ∷ low ∷ rest))
        (is_valid_package-columns f.ver f.header_text f.data_text f.sor_ip f.des_ip
          (f.content ++ (high ∷ low ∷ rest)) symbol)
      ∙ check_completed-Frame f k high low rest short sum e in
    rw valid (elim (Bool-cases (fold_sum sum == high * 256 + low)) [
      | inl t ↦ rw t (take_valid-Frame f k high low rest)
      | inr t ↦ rw t
    ])
