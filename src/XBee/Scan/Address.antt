-- ===== src/XBee/Scan/Address.antt =====
-- The addresses that ScanAllDevice of IoTRepublicPlus/Broker/XBeeBroker_ApiMode.cpp reads.
use io_trepublic_plus.Base.{
  ℕ, suc, ◌+◌, ◌*◌, ◌/◌, ◌%◌, ◌^◌, ◌<◌, ◌≡◌, ap, Option, some, List, [], ◌∷◌, ◌++◌, Bytes, true,
  All, append_assoc, append-nil, sym, ◌∙◌, arith,
}
use io_trepublic_plus.XBee.{Packet, XBeeAddress64, at_command_response}
use io_trepublic_plus.XBee.Module.{response_of}
use io_trepublic_plus.XBee.Scan.{address_of, discover, word_at}

-- The four bytes of a 32-bit number, the most significant first.
abbrev pub word_bytes : ℕ → Bytes → Bytes
word_bytes n rest = n / 2 ^ 24 ∷ n / 2 ^ 16 % 256 ∷ n / 2 ^ 8 % 256 ∷ n % 256 ∷ rest

word-whole :
    (n : ℕ)
    → n < 2 ^ 32
    → ((n / 2 ^ 24 * 256 + n / 2 ^ 16 % 256) * 256 + n / 2 ^ 8 % 256) * 256 + n % 256 ≡ n
word-whole n h = omega (arith, h)

-- What a module answers to the "ND" command: two bytes, its address, and anything.
abbrev pub discovered : ℕ → ℕ → XBeeAddress64 → Bytes → Bytes
discovered a b address rest = a ∷ b ∷ word_bytes address.msb (word_bytes address.lsb rest)

pub record IsAddress (address : XBeeAddress64) : Type 0 where
  pub msb_fits : address.msb < 2 ^ 32
  pub lsb_fits : address.lsb < 2 ^ 32

-- The answers of some modules.
pub record Answer : Type 0 where
  pub my_high : ℕ
  pub my_low : ℕ
  pub address : XBeeAddress64
  pub rest : Bytes

abbrev pub packet_of : Answer → Option Packet
packet_of a = some (at_command_response true (discovered a.my_high a.my_low a.address a.rest))

abbrev pub packets_of : List Answer → List (Option Packet)
packets_of [] = []
packets_of (a ∷ more) = packet_of a ∷ packets_of more

abbrev pub addresses_of : List Answer → List XBeeAddress64
addresses_of [] = []
addresses_of (a ∷ more) = a.address ∷ addresses_of more

discover-from :
    (left : ℕ) (found : List XBeeAddress64) (answers : List Answer)
    → All (λ a. IsAddress a.address) answers
    → discover (suc left) found (packets_of answers) ≡ some (found ++ addresses_of answers, [])
unfolding discover response_of address_of word_at
discover-from left found [] h = ap (λ f. some (f, [])) (sym (append-nil found))
discover-from left found (a ∷ more) (h, hs) =
    rw (word-whole a.address.msb h.msb_fits, word-whole a.address.lsb h.lsb_fits)
      (discover-from left (found ++ (a.address ∷ [])) more hs
        ∙ ap (λ f. some (f, [])) (append_assoc found (a.address ∷ []) (addresses_of more)))

-- When modules answer the "ND" command, and then nothing comes in any more, the scan finds the address of
-- each of them, in the order of the answers, whatever 32-bit halves it has.
pub discover-packets_of :
    (answers : List Answer)
    → All (λ a. IsAddress a.address) answers
    → discover 6 [] (packets_of answers) ≡ some (addresses_of answers, [])
discover-packets_of answers h = discover-from 5 [] answers h
