-- ===== src/Package.antt =====
-- The IoT package and its wire form: IoTRepublicPlus/IoT/IoTPackage.h and IoTPackage.cpp. The
-- header is five columns, each closed by the segment symbol; then come the data and two checksum
-- bytes. Strings and vectors are shorter than 2 ^ 31 bytes, so that `(int)length()` is the length.
pub mod Checksum
pub mod HeaderLength
use io_trepublic_plus.Base.{
  ℕ, ◌+◌, ◌/◌, ◌%◌, Bool, true, false, Option, none, some, List, [], ◌∷◌, ◌++◌, Bytes, codes,
  length, take, if◌then◌else◌,
}
use io_trepublic_plus.Base.Int.{ℤ, pos, pos_part, to_int, ◌+ℤ◌, leb_ℤ}
use io_trepublic_plus.Base.Decimal.{int_to_string}
use Checksum.{sum_unsigned, fold_sum}

pub record IoTPackage : Type 0 where
  pub is_completed_package : Bool
  pub ver : Bytes
  pub header_length : ℤ
  pub data_length : ℤ
  pub sor_ip : Bytes
  pub des_ip : Bytes
  pub checksum : ℕ
  pub data_vector : Bytes
  pub data_vector_for_sending : Bytes

abbrev pub segment_symbol : ℕ
segment_symbol = 0

abbrev pub protocol_version : Bytes
protocol_version = codes "IUDP1.0"

-- `IoTPackage()`
abbrev pub empty_package : IoTPackage
empty_package = record {
  is_completed_package = false;
  ver = [];
  header_length = pos 0;
  data_length = pos 0;
  sor_ip = [];
  des_ip = [];
  checksum = 0;
  data_vector = [];
  data_vector_for_sending = [];
}

-- The columns but the header length's own, each with its segment symbol.
abbrev pub other_columns : Bytes → Bytes → Bytes → ℤ → ℕ
other_columns ver so_ip des_ip data_length =
    (length ver + 1)
    + (length so_ip + 1)
    + (length des_ip + 1)
    + (length (int_to_string data_length) + 1)

-- The header length from the other columns' length: its own digits and segment symbol come on top.
abbrev pub with_own_column : ℤ → ℤ
with_own_column l =
    (if leb_ℤ l (pos 8) then l +ℤ pos 1 else if leb_ℤ l (pos 97) then l +ℤ pos 2 else l +ℤ pos 3)
    +ℤ pos 1

unfoldable pub header_length_of : Bytes → Bytes → Bytes → ℤ → ℤ
header_length_of ver so_ip des_ip data_length =
    with_own_column (to_int (other_columns ver so_ip des_ip data_length))

-- The five columns, in front of what follows them.
abbrev pub columns : Bytes → Bytes → Bytes → Bytes → Bytes → Bytes → Bytes
columns c1 c2 c3 c4 c5 rest =
    c1
    ++ (segment_symbol
        ∷ (c2
            ++ (segment_symbol
                ∷ (c3
                    ++ (segment_symbol
                        ∷ (c4 ++ (segment_symbol ∷ (c5 ++ (segment_symbol ∷ rest)))))))))

-- The header and the data. The loop over the data stops at `DataLength`, the data's size.
abbrev pub body_bytes : IoTPackage → Bytes
body_bytes p =
    columns p.ver (int_to_string p.header_length) (int_to_string p.data_length) p.sor_ip p.des_ip
      (take (pos_part p.data_length) p.data_vector)

abbrev pub checksum_bytes : ℕ → Bytes
checksum_bytes sum = (sum / 256) % 256 ∷ sum % 256 ∷ []

unfoldable pub packet_to_sending_vector : IoTPackage → IoTPackage
packet_to_sending_vector p =
    let body = p.data_vector_for_sending ++ body_bytes p in
    let sum = fold_sum (sum_unsigned 0 body) in
    record p { data_vector_for_sending = body ++ checksum_bytes sum; checksum = sum }

-- The fields that the constructors set before they pack.
abbrev pub filled : Bytes → Bytes → Bytes → Bytes → IoTPackage
filled ver so_ip des_ip content =
    let data_length = to_int (length content) in
    record empty_package {
      is_completed_package = true;
      ver = ver;
      sor_ip = so_ip;
      des_ip = des_ip;
      data_length = data_length;
      header_length = header_length_of ver so_ip des_ip data_length;
      data_vector = content;
    }

-- `IoTPackage(ver, soIp, desIp, string data)`
unfoldable pub package_of_string : Bytes → Bytes → Bytes → Bytes → IoTPackage
package_of_string ver so_ip des_ip content =
    packet_to_sending_vector (filled ver so_ip des_ip content)

-- `IoTPackage(soIp, desIp, string data)`
unfoldable pub package_of_string_default : Bytes → Bytes → Bytes → IoTPackage
unfolding package_of_string
package_of_string_default so_ip des_ip content =
    package_of_string protocol_version so_ip des_ip content

-- `IoTPackage(ver, soIp, desIp, vector *data)`: `none` is the null pointer, and the vector is
-- swapped into the package, so that the caller is left with an empty one.
unfoldable pub package_of_vector : Bytes → Bytes → Bytes → Option Bytes → IoTPackage × Option Bytes
package_of_vector ver so_ip des_ip none =
    (packet_to_sending_vector (filled ver so_ip des_ip []), none)
package_of_vector ver so_ip des_ip (some content) =
    (packet_to_sending_vector (filled ver so_ip des_ip content), some [])

-- `IoTPackage(soIp, desIp, vector *data)`
unfoldable pub package_of_vector_default : Bytes → Bytes → Option Bytes → IoTPackage × Option Bytes
unfolding package_of_vector
package_of_vector_default so_ip des_ip content =
    package_of_vector protocol_version so_ip des_ip content
