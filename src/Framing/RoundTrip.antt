-- ===== src/Framing/RoundTrip.antt =====
-- A package that a constructor of IoTPackage.h packs, in front of the receiver of IoTUtility.cpp.
use io_trepublic_plus.Base.{
  ℕ, ◌+◌, ◌*◌, ◌/◌, ◌%◌, ◌^◌, ◌<◌, ◌≡◌, refl, sym, ap, subst, ◌∙◌, Bool, true, false, some, ◌∷◌,
  ◌++◌, arith, Bytes, length, All, All-weaken, ◌==◌, ==_iff, ==_false,
}
use io_trepublic_plus.Package.Checksum.{sum_unsigned, sum_signed, fold_sum}
use io_trepublic_plus.Package.Checksum.SignedBytes.{
  IsByte, IsAscii, high_bytes-IsAscii, high_bytes, sum_signed-high, fold_sum-apart,
}
use io_trepublic_plus.Framing.{
  get_completed_package, iot_utility, Taken, no_error, checksum_error, refused,
}
use io_trepublic_plus.Framing.Frame.{body}
use io_trepublic_plus.Framing.Decode.{frame_outcome, get_completed_package-Frame}
use io_trepublic_plus.Framing.Sent.{
  IsMessage, frame_of, message_bytes, frame_of-IsFrame, body-IsByte, body-high, wire, received,
  sent_sum, folded, folded-lt, package_of_string-package_of_frame, wire-frame,
}

module _ (ver so_ip des_ip content rest : Bytes) (symbol : ℕ)
    (m : IsMessage ver so_ip des_ip content) where
  -- The outcome, by whether the folded sums agree.
  abbrev outcome : Bool → Taken
  outcome true = received ver so_ip des_ip content rest
  outcome false = refused checksum_error (wire ver so_ip des_ip content ++ rest)

  frame_outcome-outcome :
      (b : Bool)
      → frame_outcome
          (frame_of ver so_ip des_ip content)
          (folded ver so_ip des_ip content m / 256 % 256)
          (folded ver so_ip des_ip content m % 256)
          rest
          b
        ≡ outcome b
  frame_outcome-outcome true = λ i. record {
    result = some (sym (package_of_string-package_of_frame ver so_ip des_ip content m) i);
    error = no_error;
    buffer = rest;
  }
  frame_outcome-outcome false =
      ap (refused checksum_error) (sym (wire-frame ver so_ip des_ip content m rest))

  get_completed_package-wire :
      (sum : ℕ)
      → length (wire ver so_ip des_ip content ++ rest) < 2 ^ 31
      → sum_signed 0
          (length (body (frame_of ver so_ip des_ip content)))
          (wire ver so_ip des_ip content ++ rest)
        ≡ some sum
      → get_completed_package (iot_utility ver symbol) (wire ver so_ip des_ip content ++ rest)
        ≡ some (outcome (fold_sum sum == folded ver so_ip des_ip content m))
  get_completed_package-wire sum short e =
      let w = wire-frame ver so_ip des_ip content m rest in
      let s = sent_sum (folded ver so_ip des_ip content m) (folded-lt ver so_ip des_ip content m) in
      ap (get_completed_package (iot_utility ver symbol)) w
      ∙ get_completed_package-Frame (frame_of ver so_ip des_ip content) _ _ rest symbol sum
          (frame_of-IsFrame ver so_ip des_ip content m) (subst (λ b. length b < 2 ^ 31) w short)
          (subst
            (λ b. sum_signed 0 (length (body (frame_of ver so_ip des_ip content))) b ≡ some sum) w
            e)
      ∙ ap some (frame_outcome-outcome _ ∙ ap (λ n. outcome (fold_sum sum == n)) s)

  -- The receiver's sum is the sender's, less 256 for each negative byte.
  get_completed_package-high :
      All IsByte (message_bytes ver so_ip des_ip content)
      → length (wire ver so_ip des_ip content ++ rest) < 2 ^ 31
      → (s : ℕ) × (get_completed_package
            (iot_utility ver symbol)
            (wire ver so_ip des_ip content ++ rest)
          ≡ some (outcome (fold_sum s == folded ver so_ip des_ip content m)))
        × (s < 2 ^ 32)
        × (sum_unsigned 0 (body (frame_of ver so_ip des_ip content))
            ≡ (s + 256 * high_bytes (message_bytes ver so_ip des_ip content)) % 2 ^ 32)
  get_completed_package-high bytes short =
      let b = body (frame_of ver so_ip des_ip content) in
      let w = wire-frame ver so_ip des_ip content m rest in
      let (s, e, h, u) =
        sum_signed-high 0 0 0 b
          (folded ver so_ip des_ip content m / 256 % 256
            ∷ folded ver so_ip des_ip content m % 256
            ∷ rest)
          (omega arith) refl (body-IsByte ver so_ip des_ip content m bytes) in
      (
        s,
        get_completed_package-wire s short
            (subst (λ v. sum_signed 0 (length b) v ≡ some s) (sym w) e),
        h,
        u ∙ ap (λ n. (s + 256 * n) % 2 ^ 32) (omega (arith, body-high ver so_ip des_ip content m)),
      )

-- A package that a constructor packs from a version and addresses without '\0' and from any content,
-- all of it in bytes below 128, with a header length that is guessed right and lengths that fit an
-- `int`, is received from the front of the buffer, whatever follows it there: the receiver
-- returns the very package, every field of it, reports no error and leaves what follows.
pub get_completed_package-package_of_string :
    (ver so_ip des_ip content rest : Bytes) (symbol : ℕ)
    → IsMessage ver so_ip des_ip content
    → All IsAscii (message_bytes ver so_ip des_ip content)
    → length (wire ver so_ip des_ip content ++ rest) < 2 ^ 31
    → get_completed_package (iot_utility ver symbol) (wire ver so_ip des_ip content ++ rest)
      ≡ some (received ver so_ip des_ip content rest)
unfolding folded
get_completed_package-package_of_string ver so_ip des_ip content rest symbol m ascii short =
    let (s, e, h, u) =
      get_completed_package-high ver so_ip des_ip content rest symbol m
        (All-weaken IsAscii IsByte (message_bytes ver so_ip des_ip content) (λ c k. omega arith)
          ascii)
        short in
    let z = high_bytes-IsAscii (message_bytes ver so_ip des_ip content) ascii in
    let same : sum_unsigned 0 (body (frame_of ver so_ip des_ip content)) ≡ s = omega (arith, z) in
    let agree : (fold_sum s == folded ver so_ip des_ip content m) ≡ true =
      (==_iff _ _).1 (sym (ap fold_sum same)) in
    e ∙ ap (λ b. some (outcome ver so_ip des_ip content rest symbol m b)) agree

-- A package with from 1 to 255 bytes of 128 and above is refused: the sender sums unsigned bytes and
-- the receiver signed ones, so the receiver reports a checksum error and keeps its buffer.
pub get_completed_package-high_bytes :
    (ver so_ip des_ip content rest : Bytes) (symbol : ℕ)
    → IsMessage ver so_ip des_ip content
    → All IsByte (message_bytes ver so_ip des_ip content)
    → 0 < high_bytes (message_bytes ver so_ip des_ip content)
    → high_bytes (message_bytes ver so_ip des_ip content) < 256
    → length (wire ver so_ip des_ip content ++ rest) < 2 ^ 31
    → get_completed_package (iot_utility ver symbol) (wire ver so_ip des_ip content ++ rest)
      ≡ some (refused checksum_error (wire ver so_ip des_ip content ++ rest))
unfolding folded
get_completed_package-high_bytes ver so_ip des_ip content rest symbol m bytes lo hi short =
    let (s, e, h, u) =
      get_completed_package-high ver so_ip des_ip content rest symbol m bytes short in
    let k = high_bytes (message_bytes ver so_ip des_ip content) in
    let differ : (fold_sum s == folded ver so_ip des_ip content m) ≡ false =
      ==_false _ _ (λ q. fold_sum-apart s k h lo hi (sym (q ∙ ap fold_sum u))) in
    e ∙ ap (λ b. some (outcome ver so_ip des_ip content rest symbol m b)) differ
