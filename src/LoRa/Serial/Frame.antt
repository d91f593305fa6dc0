-- ===== src/LoRa/Serial/Frame.antt =====
-- What getResponse of IoTRepublicPlus/Broker/LoRaBroker.cpp makes of the data that a node sends between
-- the two codes.
use io_trepublic_plus.Base.{
  ℕ, suc, ◌+◌, ◌≤◌, ◌≡◌, refl, ap, false, true, some, List, [], ◌∷◌, ◌++◌, Bytes, All, length,
  length-append, take-append, append-nil, All-append, le→leb, leb, take, drop, length-take-le,
  Returns, Returns-if, Returns-none, Returns-some, ◌*◌, ◌==◌, arith,
}
use io_trepublic_plus.Package.Checksum.SignedBytes.{IsByte}
use io_trepublic_plus.Base64.{base64_encode, encode}
use io_trepublic_plus.Base64.RoundTrip.{base64_decode-base64_encode, length-encode}
use io_trepublic_plus.LoRa.{
  Poll, end_device_buffer_size, Radio, Window, succeed, end_code, enq_code,
}
use io_trepublic_plus.LoRa.Serial.{
  clear_comport_buffer, decoded, erase_codes, erase_index, find_code_index, framed, get_response,
  next_window, node_data, poll_again, recv_data, recv_from, strip_codes,
}

-- No byte is the code.
abbrev pub Lacks : ℕ → Bytes → Type 0
Lacks code content = All (λ c. (c == code) ≡ false) content

find_code_index-Lacks :
    (code : ℕ) (content rest : Bytes)
    → Lacks code content
    → find_code_index code (content ++ (code ∷ rest)) ≡ some (length content)
unfolding find_code_index
find_code_index-Lacks code [] rest h = ground arith
find_code_index-Lacks code (c ∷ cs) rest (h, hs) =
    rw (find_code_index-Lacks code cs rest hs, h) refl

pub erase_index-middle :
    (content rest : Bytes) (c : ℕ)
    → erase_index (length content) (content ++ (c ∷ rest)) ≡ some (content ++ rest)
unfolding erase_index
erase_index-middle [] rest c = refl
erase_index-middle (x ∷ xs) rest c = rw (erase_index-middle xs rest c)

-- The codes are taken off, and with them nothing else, if the content has no end code.
pub strip_codes-framed :
    (content : Bytes)
    → Lacks end_code content
    → strip_codes (framed content) ≡ some (succeed, content)
unfolding strip_codes find_code_index erase_codes erase_index
strip_codes-framed content h =
    let ends : find_code_index end_code (framed content) ≡ some (suc (length content)) =
      rw (find_code_index-Lacks end_code content [] h) in
    rw (strip_codes, ends, erase_index-middle content [] end_code)
      (ap (λ c. some (succeed, c)) (append-nil content))

pub length-framed : (content : Bytes) → length (framed content) ≡ length content + 2
length-framed content = omega (arith, length-append content (end_code ∷ []))

framed-All : (content : Bytes) → All IsByte content → All IsByte (framed content)
framed-All content h = (omega arith, All-append IsByte content (end_code ∷ []) h (ground arith))

decoded-framed :
    (content rest before : Bytes)
    → All IsByte content
    → length content + 3 ≤ 2000
    → decoded ((base64_encode (framed content)).0 ++ rest) before ≡ some (before ++ framed content)
unfolding decoded
decoded-framed content rest before h fits =
    let bytes = framed content in
    let length_fits : leb (length (bytes ++ (0 ∷ []))) 2000 ≡ true =
      le→leb _ _ (omega (arith, length-framed content, length-append bytes (0 ∷ []))) in
    rw ((base64_decode-base64_encode bytes rest (framed-All content h)).0, length_fits)
      (ap (λ b. some (before ++ b)) (take-append bytes (0 ∷ [])))

-- The port after two more windows and the request for the data of a node.
abbrev pub asked : Bytes → List Window → List Bytes → Radio
asked address ws written = record {
  windows = ws;
  serial = written ++ (node_data address (enq_code ∷ []) ∷ []);
}

-- The data that a node sends as the Base64 text of some content between the two codes and then anything, where
-- the two polls read all of this.
get_response-read :
    (address content rest : Bytes) (w0 w : Window) (ws : List Window) (written : List Bytes)
    → All IsByte content
    → Lacks end_code content
    → length content + 3 ≤ 2000
    → recv_from end_device_buffer_size w.start [] w.polls
      ≡ some ((base64_encode (framed content)).0 ++ rest)
    → get_response end_device_buffer_size address []
        (record { windows = w0 ∷ w ∷ ws; serial = written })
      ≡ some (succeed, content, asked address ws written)
unfolding get_response recv_data clear_comport_buffer next_window
get_response-read address content rest w0 w ws written h lacks fits came =
    rw (came, decoded-framed content rest [] h fits, strip_codes-framed content lacks) refl

poll_again-length :
    (size : ℕ) (left : Bytes) (polls : List Poll) → length (poll_again size left polls) ≤ size
poll_again-length size left [] = length-take-le size left
poll_again-length size left (p ∷ ps) = length-take-le size (left ++ p.got)

-- What the two polls read is at most twice the size.
pub recv_from-length :
    (size start_time : ℕ) (waiting : Bytes) (polls : List Poll)
    → Returns (λ text. length text ≤ 2 * size) (recv_from size start_time waiting polls)
unfolding recv_from
recv_from-length size start_time waiting [] = Returns-none _
recv_from-length size start_time waiting (p ∷ ps) =
    let P : Bytes → Type 0 = λ text. length text ≤ 2 * size in
    let there = waiting ++ p.got in
    Returns-if P _ _ _ (Returns-none P) (
      Returns-if P _ _ _ (recv_from-length size start_time there ps) (
        Returns-some P _ (
          omega (
            arith,
            length-take-le size there,
            poll_again-length size (drop size there) ps,
            length-append (take size there) (poll_again size (drop size there) ps),
          ))))

-- When the two polls of recvData, each of at most 20 bytes, read from a node the Base64 text of some data
-- between the two codes and then anything, the '\0' behind the text at least, getResponse gives back that data, if
-- it has no end code in it. This is so of at most 25 bytes of data, for the text has to fit the polls.
pub get_response-framed :
    (address content rest : Bytes) (w0 w : Window) (ws : List Window) (written : List Bytes)
    → All IsByte content
    → Lacks end_code content
    → recv_from end_device_buffer_size w.start [] w.polls
      ≡ some ((base64_encode (framed content)).0 ++ rest)
    → (get_response end_device_buffer_size address []
          (record { windows = w0 ∷ w ∷ ws; serial = written })
        ≡ some (succeed, content, asked address ws written))
      × (length content ≤ 25)
unfolding base64_encode
get_response-framed address content rest w0 w ws written h lacks came =
    let text = encode (framed content) in
    let read =
      recv_from-length end_device_buffer_size w.start [] w.polls
        ((base64_encode (framed content)).0 ++ rest) came in
    let short : length content ≤ 25 = omega (
      arith,
      read,
      length-append (text ++ (0 ∷ [])) rest,
      length-append text (0 ∷ []),
      length-encode (framed content),
      length-framed content,
    ) in
    (
      get_response-read address content rest w0 w ws written h lacks (omega (arith, short)) came,
      short,
    )
