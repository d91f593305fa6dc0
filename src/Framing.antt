-- ===== src/Framing.antt =====
-- Cutting packages out of a byte buffer: IoTRepublicPlus/IoT/IoTUtility.cpp and IoTUtility.h.
-- `none` is a C++ exception (`std::stoi`, `vector::at`, `vector::reserve`) that nothing catches.
pub mod Columns
pub mod Frame
pub mod Decode
pub mod Consumes
pub mod Incomplete
pub mod Sent
pub mod RoundTrip
use io_trepublic_plus.Base.{
  ℕ, zero, suc, ◌+◌, ◌-◌, ◌*◌, ◌/◌, ◌%◌, ◌^◌, ◌<◌, ◌≤◌, ◌≡◌, Bool, true, false, not, Option, none,
  some, List, [], ◌∷◌, ◌++◌, Bytes, length, get_elem?, take, drop, str_eq, ltb, leb, ◌==◌,
  if◌then◌else◌, ◌>>=◌, ◌>>◌, require,
}
use io_trepublic_plus.Base.Int.{ℤ, pos, negsuc, pos_part, leb_ℤ, to_int, ◌+ℤ◌}
use io_trepublic_plus.Base.Decimal.{stoi}
use io_trepublic_plus.Package.{IoTPackage, empty_package}
use io_trepublic_plus.Package.Checksum.{sum_signed, fold_sum}

pub data GetPackageError : Type 0 where
  no_error unknown_error length_is_not_long_enough start_word_error : GetPackageError
  header_not_completed package_not_completed checksum_error : GetPackageError

-- The version is not empty: with an empty one `&buffer->at(0)` would throw on an empty buffer.
pub record IoTUtility : Type 0 where
  pub current_version : Bytes
  pub header_columns : ℕ
  pub segment_symbol : ℕ

-- `IoTUtility(protocalVersion, segmentSymbol)`
abbrev pub iot_utility : Bytes → ℕ → IoTUtility
iot_utility protocal_version symbol = record {
  current_version = protocal_version;
  header_columns = 5;
  segment_symbol = symbol;
}

-- `popHeader`: the bytes from an index up to the next '\0', or the end.
unfoldable pub until_nul : Bytes → Bytes
until_nul [] = []
until_nul (c ∷ cs) = if c == 0 then [] else c ∷ until_nul cs

unfoldable pub pop_header : Bytes → ℕ → Bytes
unfolding until_nul
pop_header buffer start_index = until_nul (drop start_index buffer)

unfoldable pub decode_only_header : Bytes → Option IoTPackage
decode_only_header buffer = do
  let ver = pop_header buffer 0
  let start2 = 0 + (length ver + 1)
  let text2 = pop_header buffer start2
  header_length ← stoi text2
  let start3 = start2 + (length text2 + 1)
  let text3 = pop_header buffer start3
  data_length ← stoi text3
  let start4 = start3 + (length text3 + 1)
  let sor_ip = pop_header buffer start4
  let start5 = start4 + (length sor_ip + 1)
  some (record empty_package {
    ver = ver;
    header_length = header_length;
    data_length = data_length;
    sor_ip = sor_ip;
    des_ip = pop_header buffer start5;
  })

-- `buffer->at(i)` of an `int`: a negative index is out of range too.
abbrev pub at : Bytes → ℤ → Option ℕ
at buffer (pos i) = get_elem? buffer i
at buffer (negsuc i) = none

-- The two checksum bytes at an index.
abbrev pub sended_sum : Bytes → ℤ → Option ℕ
sended_sum buffer total_length = do
  high ← at buffer total_length
  low ← at buffer (total_length +ℤ pos 1)
  some (high * 256 + low)

-- `for (i = from; i < from + n; i++) push_back(buffer->at(i))`
unfoldable pub copy : Bytes → ℕ → Option Bytes
copy cs zero = some []
copy [] (suc n) = none
copy (c ∷ cs) (suc n) = do rest ← copy cs n; some (c ∷ rest)

-- The loop that copies the data, from `HeaderLength` to the total length.
unfoldable pub copy_data : Bytes → ℤ → ℤ → Option Bytes
unfolding copy
copy_data buffer (pos from) to = copy (drop from buffer) (pos_part to - from)
copy_data buffer (negsuc from) to = if leb_ℤ to (negsuc from) then some [] else none

-- The data and the checksum, behind the header.
unfoldable pub decode_content : Bytes → IoTPackage → Option IoTPackage
decode_content buffer pkg = do
  let total_length = pkg.header_length +ℤ pkg.data_length
  -- `reserve` throws `std::length_error`
  require (leb_ℤ (pos 0) pkg.data_length)
  content ← copy_data buffer pkg.header_length total_length
  sum ← sended_sum buffer total_length
  some (record pkg { data_vector = content; checksum = sum })

unfoldable pub decode_package : Bytes → Option IoTPackage
decode_package buffer = decode_only_header buffer >>= decode_content buffer

-- The loop that counts the segment symbols, up to the number of the columns.
unfoldable pub count_columns : ℕ → ℕ → Bytes → ℕ
count_columns columns total [] = total
count_columns columns total (c ∷ cs) =
    let total' = if c == 0 then total + 1 else total in
    let rest = count_columns columns total' cs in if leb columns total' then total' else rest

-- The last check, on a package that is long enough: the checksum.
unfoldable pub check_sum : Bytes → IoTPackage → Option GetPackageError
check_sum buffer pkg = do
  let total_length = pkg.header_length +ℤ pkg.data_length
  sum ← sum_signed 0 (pos_part total_length) buffer
  sended ← sended_sum buffer total_length
  some (if fold_sum sum == sended then no_error else checksum_error)

unfoldable pub is_start_word : IoTUtility → Bytes → Bool
is_start_word u buffer = str_eq u.current_version (take (length u.current_version) buffer)

-- Is the package completed, and is its sum right?
unfoldable pub check_length : Bytes → IoTPackage → Option (GetPackageError × Bytes)
check_length buffer pkg =
    let needed = pkg.header_length +ℤ pkg.data_length +ℤ pos 2 in
    let checked = (do error ← check_sum buffer pkg; some (error, buffer)) in
    if leb_ℤ needed (to_int (length buffer)) then checked else some (package_not_completed, buffer)

-- The checks on a buffer with a complete header.
unfoldable pub check_completed : Bytes → Option (GetPackageError × Bytes)
check_completed buffer = decode_only_header buffer >>= check_length buffer

-- `isValidPackage`: the error that it reports, `no_error` if the package is valid, and the buffer
-- with the '\0' that is appended if the start word is wrong.
unfoldable pub is_valid_package : IoTUtility → Bytes → Option (GetPackageError × Bytes)
is_valid_package u buffer =
    if ltb (length buffer) (length u.current_version)
    then some (length_is_not_long_enough, buffer)
    else if not (is_start_word u buffer)
    then some (start_word_error, buffer ++ 0 ∷ [])
    else if ltb (count_columns u.header_columns 0 buffer) u.header_columns
    then some (header_not_completed, buffer)
    else check_completed buffer

-- What `GetCompletedPackage` leaves: the package or the null pointer, the error, the buffer.
pub record Taken : Type 0 where
  pub result : Option IoTPackage
  pub error : GetPackageError
  pub buffer : Bytes

-- The valid package is cut off the buffer.
unfoldable pub cut_off : Bytes → IoTPackage → Taken
cut_off buffer pkg =
    let total_length = pkg.header_length +ℤ pkg.data_length +ℤ pos 2 in
    record {
      result = some (record pkg {
        is_completed_package = true;
        data_vector_for_sending = take (pos_part total_length) buffer;
      });
      error = no_error;
      buffer = drop (pos_part total_length) buffer;
    }

unfoldable pub take_valid : Bytes → Option Taken
unfolding cut_off
take_valid buffer = do pkg ← decode_package buffer; some (cut_off buffer pkg)

abbrev pub refused : GetPackageError → Bytes → Taken
refused e buffer = record { result = none; error = e; buffer = buffer }

abbrev pub taken_by : GetPackageError × Bytes → Option Taken
taken_by (no_error, buffer) = take_valid buffer
taken_by (e, buffer) = some (refused e buffer)

unfoldable pub get_completed_package : IoTUtility → Bytes → Option Taken
get_completed_package u buffer = is_valid_package u buffer >>= taken_by
