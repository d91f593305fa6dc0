-- ===== src/Framing/Sent.antt =====
-- The packages that the constructors of IoTPackage.h pack, as frames of the receiver.
use io_trepublic_plus.Base.{
  ℕ, ◌+◌, ◌*◌, ◌/◌, ◌%◌, ◌^◌, ◌<◌, ◌≡◌, sym, ap, ◌∙◌, true, some, ◌∷◌, ◌++◌, arith, Bytes, length,
  take, take-all, All, All-weaken, All-append, All-split, append_assoc,
}
use io_trepublic_plus.Base.Int.{pos, pos_part, to_int, to_int_small}
use io_trepublic_plus.Base.Decimal.{
  to_string, int_to_string, int_to_string-pos, stoi, stoi-to_string, IsDigit, to_string-IsDigit,
}
use io_trepublic_plus.Package.{
  IoTPackage, package_of_string, packet_to_sending_vector, header_length_of, other_columns,
  checksum_bytes, filled, columns,
}
use io_trepublic_plus.Package.HeaderLength.{IsGuessed, header_length_of-correct_iff, wire_header-le}
use io_trepublic_plus.Package.Checksum.{sum_unsigned, fold_sum}
use io_trepublic_plus.Package.Checksum.Folding.{fold_sum-residue}
use io_trepublic_plus.Package.Checksum.SignedBytes.{
  IsByte, IsAscii, high_bytes-append, high_bytes-IsAscii, high_bytes, sum_unsigned-lt,
}
use io_trepublic_plus.Framing.{Taken, no_error}
use io_trepublic_plus.Framing.Columns.{IsText}
use io_trepublic_plus.Framing.Frame.{Frame, IsFrame, body, head_length, package_of_frame}

-- What can be sent: the addresses hold no '\0', the header's own length is guessed right, and the
-- lengths fit an `int`.
pub record IsMessage (ver so_ip des_ip content : Bytes) : Type 0 where
  pub ver_text : All IsText ver
  pub so_text : All IsText so_ip
  pub des_text : All IsText des_ip
  pub guessed : IsGuessed (other_columns ver so_ip des_ip (to_int (length content)))
  pub fits : other_columns ver so_ip des_ip (to_int (length content)) + length content + 6 < 2 ^ 31

abbrev pub frame_of : Bytes → Bytes → Bytes → Bytes → Frame
frame_of ver so_ip des_ip content = record {
  ver = ver;
  header_text = int_to_string (header_length_of ver so_ip des_ip (to_int (length content)));
  data_text = int_to_string (to_int (length content));
  sor_ip = so_ip;
  des_ip = des_ip;
  content = content;
}

digit-IsText : (n : ℕ) → All IsText (to_string n)
digit-IsText n = All-weaken IsDigit IsText (to_string n) (λ c h. omega arith) (to_string-IsDigit n)

-- The bytes of a message that come from the caller.
abbrev pub message_bytes : Bytes → Bytes → Bytes → Bytes → Bytes
message_bytes ver so_ip des_ip content = ver ++ (so_ip ++ (des_ip ++ content))

digit-IsAscii : (n : ℕ) → All IsAscii (to_string n)
digit-IsAscii n =
    All-weaken IsDigit IsAscii (to_string n) (λ c h. omega arith) (to_string-IsDigit n)

digit-IsByte : (n : ℕ) → All IsByte (to_string n)
digit-IsByte n = All-weaken IsDigit IsByte (to_string n) (λ c h. omega arith) (to_string-IsDigit n)

columns-IsByte :
    (c1 c2 c3 c4 c5 rest : Bytes)
    → All IsByte c2
    → All IsByte c3
    → All IsByte (message_bytes c1 c4 c5 rest)
    → All IsByte (columns c1 c2 c3 c4 c5 rest)
columns-IsByte c1 c2 c3 c4 c5 rest h2 h3 h =
    let (h1, t1) = All-split IsByte c1 (c4 ++ (c5 ++ rest)) h in
    let (h4, t4) = All-split IsByte c4 (c5 ++ rest) t1 in
    let (h5, t5) = All-split IsByte c5 rest t4 in
    All-append IsByte c1 _ h1 (
      omega arith,
      All-append IsByte c2 _ h2 (
        omega arith,
        All-append IsByte c3 _ h3 (
          omega arith,
          All-append IsByte c4 _ h4 (omega arith, All-append IsByte c5 _ h5 (omega arith, t5)),
        ),
      ),
    )

columns-high :
    (c1 c2 c3 c4 c5 rest : Bytes)
    → high_bytes c2 ≡ 0
    → high_bytes c3 ≡ 0
    → high_bytes (columns c1 c2 c3 c4 c5 rest) ≡ high_bytes (message_bytes c1 c4 c5 rest)
columns-high c1 c2 c3 c4 c5 rest h2 h3 = omega (
  arith,
  high_bytes-append c1 (0 ∷ (c2 ++ (0 ∷ (c3 ++ (0 ∷ (c4 ++ (0 ∷ (c5 ++ (0 ∷ rest))))))))),
  high_bytes-append c2 (0 ∷ (c3 ++ (0 ∷ (c4 ++ (0 ∷ (c5 ++ (0 ∷ rest))))))),
  high_bytes-append c3 (0 ∷ (c4 ++ (0 ∷ (c5 ++ (0 ∷ rest))))),
  high_bytes-append c4 (0 ∷ (c5 ++ (0 ∷ rest))),
  high_bytes-append c5 (0 ∷ rest),
  high_bytes-append c1 (c4 ++ (c5 ++ rest)),
  high_bytes-append c4 (c5 ++ rest),
  high_bytes-append c5 rest,
)

module _ (ver so_ip des_ip content : Bytes) (m : IsMessage ver so_ip des_ip content) where
  data_pos : to_int (length content) ≡ pos (length content)
  data_pos = to_int_small (length content) (omega (arith, m.fits))

  header_pos :
      header_length_of ver so_ip des_ip (to_int (length content))
      ≡ pos (head_length (frame_of ver so_ip des_ip content))
  header_pos =
      (header_length_of-correct_iff ver so_ip des_ip (to_int (length content))
          (omega (arith, m.fits))).1
        m.guessed

  head_small : head_length (frame_of ver so_ip des_ip content) + length content + 2 < 2 ^ 31
  head_small = omega (
    arith,
    wire_header-le ver so_ip des_ip (to_int (length content)) (omega (arith, m.fits)) m.guessed,
    m.fits,
  )

  pub frame_of-IsFrame : IsFrame (frame_of ver so_ip des_ip content)
  frame_of-IsFrame = record {
    header = record {
      text1 = m.ver_text;
      text2 =
          rw (header_pos, int_to_string-pos (head_length (frame_of ver so_ip des_ip content)))
            (digit-IsText _);
      text3 = rw (data_pos, int_to_string-pos (length content)) (digit-IsText _);
      text4 = m.so_text;
      text5 = m.des_text;
      header_number =
          ap stoi (
            ap int_to_string header_pos
            ∙ int_to_string-pos (head_length (frame_of ver so_ip des_ip content)))
          ∙ stoi-to_string (head_length (frame_of ver so_ip des_ip content))
              (omega (arith, head_small));
      data_number =
          rw (data_pos, int_to_string-pos (length content))
            (stoi-to_string (length content) (omega (arith, m.fits)));
    };
    fits = head_small;
  }

  package_of_string-frame :
      package_of_string ver so_ip des_ip content ≡ record (filled ver so_ip des_ip content) {
        data_vector_for_sending =
            body (frame_of ver so_ip des_ip content)
            ++ checksum_bytes
                (fold_sum (sum_unsigned 0 (body (frame_of ver so_ip des_ip content))));
        checksum = fold_sum (sum_unsigned 0 (body (frame_of ver so_ip des_ip content)));
      }
  unfolding package_of_string packet_to_sending_vector
  package_of_string-frame =
      let whole : take (pos_part (to_int (length content))) content ≡ content =
        rw data_pos (take-all content) in
      rw whole

  pub body-IsByte :
      All IsByte (message_bytes ver so_ip des_ip content)
      → All IsByte (body (frame_of ver so_ip des_ip content))
  body-IsByte =
      columns-IsByte ver _ _ so_ip des_ip content
        (rw (header_pos, int_to_string-pos (head_length (frame_of ver so_ip des_ip content)))
          (digit-IsByte _))
        (rw (data_pos, int_to_string-pos (length content)) (digit-IsByte _))

  pub body-high :
      high_bytes (body (frame_of ver so_ip des_ip content))
      ≡ high_bytes (message_bytes ver so_ip des_ip content)
  body-high =
      columns-high ver _ _ so_ip des_ip content
        (rw (header_pos, int_to_string-pos (head_length (frame_of ver so_ip des_ip content)))
          (high_bytes-IsAscii _ (digit-IsAscii _)))
        (rw (data_pos, int_to_string-pos (length content)) (high_bytes-IsAscii _ (digit-IsAscii _)))

-- The package as it is sent.
abbrev pub wire : Bytes → Bytes → Bytes → Bytes → Bytes
wire ver so_ip des_ip content = (package_of_string ver so_ip des_ip content).data_vector_for_sending

-- The receiver takes the whole package off the buffer.
abbrev pub received : Bytes → Bytes → Bytes → Bytes → Bytes → Taken
received ver so_ip des_ip content rest = record {
  result = some (package_of_string ver so_ip des_ip content);
  error = no_error;
  buffer = rest;
}

pub sent_sum : (s : ℕ) → s < 2 ^ 16 → s / 256 % 256 * 256 + s % 256 ≡ s
sent_sum s h = omega arith

module _ (ver so_ip des_ip content : Bytes) (m : IsMessage ver so_ip des_ip content) where
  unfoldable pub folded : ℕ
  folded = fold_sum (sum_unsigned 0 (body (frame_of ver so_ip des_ip content)))

  pub folded-lt : folded < 2 ^ 16
  unfolding folded
  folded-lt =
      (fold_sum-residue _
        (sum_unsigned-lt 0 (body (frame_of ver so_ip des_ip content)) (omega arith))).1

  -- What the receiver makes of the frame is what was sent.
  pub package_of_string-package_of_frame :
      package_of_string ver so_ip des_ip content
      ≡ package_of_frame (frame_of ver so_ip des_ip content) (folded / 256 % 256) (folded % 256)
  unfolding folded
  package_of_string-package_of_frame = package_of_string-frame ver so_ip des_ip content m ∙ λ i.
      record {
        is_completed_package = true;
        ver = ver;
        header_length = header_pos ver so_ip des_ip content m i;
        data_length = data_pos ver so_ip des_ip content m i;
        sor_ip = so_ip;
        des_ip = des_ip;
        checksum = sym (sent_sum folded folded-lt) i;
        data_vector = content;
        data_vector_for_sending = body (frame_of ver so_ip des_ip content) ++ checksum_bytes folded;
      }

  pub wire-frame :
      (rest : Bytes)
      → wire ver so_ip des_ip content ++ rest
        ≡ body (frame_of ver so_ip des_ip content) ++ (folded / 256 % 256 ∷ folded % 256 ∷ rest)
  wire-frame rest =
      ap (λ p. IoTPackage.data_vector_for_sending p ++ rest) package_of_string-package_of_frame
      ∙ append_assoc (body (frame_of ver so_ip des_ip content)) _ rest
