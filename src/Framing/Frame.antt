-- ===== src/Framing/Frame.antt =====
-- Whole frames: the header, the content and the two bytes behind it, and what the code of
-- IoTRepublicPlus/IoT/IoTUtility.cpp reads of them.
use io_trepublic_plus.Base.{
  ℕ, ◌+◌, ◌*◌, ◌^◌, ◌<◌, ◌≡◌, refl, sym, ap, ◌∙◌, true, some, [], ◌∷◌, ◌++◌, arith, Bytes, length,
  take, drop, get_elem?, leb, append_assoc, length-append, take-append, drop-append,
  get_elem?-append,
}
use io_trepublic_plus.Base.Int.{pos, ◌+ℤ◌, +ℤ_small, to_int, to_int_small, leb_ℤ}
use native.Mathlib.Nat.{add-zero, add-sub_cancel_left}
use io_trepublic_plus.Package.{IoTPackage, empty_package, columns}
use io_trepublic_plus.Package.HeaderLength.{length-columns}
use io_trepublic_plus.Framing.{copy, copy_data, sended_sum}
use io_trepublic_plus.Framing.Columns.{Header}

pub record Frame : Type 0 where
  pub ver : Bytes
  pub header_text : Bytes
  pub data_text : Bytes
  pub sor_ip : Bytes
  pub des_ip : Bytes
  pub content : Bytes

abbrev pub head_bytes : Frame → Bytes → Bytes
head_bytes f rest = columns f.ver f.header_text f.data_text f.sor_ip f.des_ip rest

abbrev pub body : Frame → Bytes
body f = head_bytes f f.content

abbrev pub head_length : Frame → ℕ
head_length f = length (head_bytes f [])

-- The columns hold no '\0', the numbers say the real lengths, and these fit an `int`.
pub record IsFrame (f : Frame) : Type 0 where
  pub header :
      Header f.ver f.header_text f.data_text f.sor_ip f.des_ip
        (pos (head_length f))
        (pos (length f.content))
  pub fits : head_length f + length f.content + 2 < 2 ^ 31

-- The package that the receiver makes of the frame.
abbrev pub package_of_frame : Frame → ℕ → ℕ → IoTPackage
package_of_frame f high low = record {
  is_completed_package = true;
  ver = f.ver;
  header_length = pos (head_length f);
  data_length = pos (length f.content);
  sor_ip = f.sor_ip;
  des_ip = f.des_ip;
  checksum = high * 256 + low;
  data_vector = f.content;
  data_vector_for_sending = body f ++ (high ∷ low ∷ []);
}

-- What `decodeOnlyHeader` makes of it.
abbrev pub header_of_frame : Frame → IoTPackage
header_of_frame f = record empty_package {
  ver = f.ver;
  header_length = pos (head_length f);
  data_length = pos (length f.content);
  sor_ip = f.sor_ip;
  des_ip = f.des_ip;
}

pub columns-append :
    (c1 c2 c3 c4 c5 xs ys : Bytes)
    → columns c1 c2 c3 c4 c5 xs ++ ys ≡ columns c1 c2 c3 c4 c5 (xs ++ ys)
columns-append c1 c2 c3 c4 c5 xs ys = simp append_assoc

pub copy-append : (xs ys : Bytes) → copy (xs ++ ys) (length xs) ≡ some xs
unfolding copy
copy-append [] ys = refl
copy-append (x ∷ xs) ys = rw (copy-append xs ys)

pub get_elem?-at :
    (xs : Bytes) (i : ℕ) (ys : Bytes) → get_elem? (xs ++ ys) (length xs + i) ≡ get_elem? ys i
get_elem?-at xs i ys = get_elem?-append xs ys i

pub sended_sum-append :
    (xs : Bytes) (high low : ℕ) (rest : Bytes)
    → length xs + 1 < 2 ^ 31
    → sended_sum (xs ++ (high ∷ low ∷ rest)) (pos (length xs)) ≡ some (high * 256 + low)
sended_sum-append xs high low rest h =
    let tail : Bytes = high ∷ low ∷ rest in
    let at0 : get_elem? (xs ++ tail) (length xs) ≡ some high =
      rw (← add-zero (length xs)) (get_elem?-append xs tail 0) in
    rw (+ℤ_small (length xs) 1 h, at0, get_elem?-append xs tail 1)

pub copy_data-append :
    (xs ys zs : Bytes)
    → copy_data (xs ++ (ys ++ zs)) (pos (length xs)) (pos (length xs + length ys)) ≡ some ys
unfolding copy_data
copy_data-append xs ys zs =
    rw (drop-append xs (ys ++ zs), add-sub_cancel_left (length xs) (length ys)) (copy-append ys zs)

pub leb-to_int : (a n : ℕ) → n < 2 ^ 31 → leb_ℤ (pos a) (to_int n) ≡ leb a n
leb-to_int a n h = rw (to_int_small n h) (ground arith)

pub body_split :
    (f : Frame) (tail : Bytes) → body f ++ tail ≡ head_bytes f [] ++ (f.content ++ tail)
body_split f tail = simp append_assoc

module _ (xs : Bytes) (high low : ℕ) (rest : Bytes) where
  pub frame_end : xs ++ (high ∷ low ∷ rest) ≡ (xs ++ (high ∷ low ∷ [])) ++ rest
  frame_end = simp append_assoc

  pub frame_end_length : length xs + 2 ≡ length (xs ++ (high ∷ low ∷ []))
  frame_end_length = omega (arith, length-append xs (high ∷ low ∷ []))

  pub take_frame : take (length xs + 2) (xs ++ (high ∷ low ∷ rest)) ≡ xs ++ (high ∷ low ∷ [])
  take_frame = rw (frame_end_length, frame_end) (take-append (xs ++ (high ∷ low ∷ [])) rest)

  pub drop_frame : drop (length xs + 2) (xs ++ (high ∷ low ∷ rest)) ≡ rest
  drop_frame = rw (frame_end_length, frame_end) (drop-append (xs ++ (high ∷ low ∷ [])) rest)

module _ (f : Frame) (k : IsFrame f) where
  pub body-length : length (body f) ≡ head_length f + length f.content
  body-length = omega (
    arith,
    length-columns f.ver f.header_text f.data_text f.sor_ip f.des_ip f.content,
    length-columns f.ver f.header_text f.data_text f.sor_ip f.des_ip [],
  )

  pub total : pos (head_length f) +ℤ pos (length f.content) ≡ pos (length (body f))
  total =
      +ℤ_small (head_length f) (length f.content) (omega (arith, k.fits)) ∙ ap pos (sym body-length)

  pub needed : pos (head_length f) +ℤ pos (length f.content) +ℤ pos 2 ≡ pos (length (body f) + 2)
  needed = rw total (+ℤ_small (length (body f)) 2 (omega (arith, body-length, k.fits)))
