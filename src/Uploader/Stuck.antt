-- ===== src/Uploader/Stuck.antt =====
-- What handleRecvData of IoTRepublicPlus/Broker/CloudUploader.cpp makes of a buffer that does not start
-- with the version.
use io_trepublic_plus.Base.{
  ℕ, zero, suc, ◌≤◌, ◌≡◌, refl, ap, false, Option, some, List, [], ◌∷◌, ◌++◌, Bytes, length,
  length-append, take, le→not-ltb, ◌>>=◌, arith,
}
use io_trepublic_plus.Framing.{
  get_completed_package, is_start_word, is_valid_package, refused, start_word_error,
}
use io_trepublic_plus.Json.{Jansson}
use io_trepublic_plus.Uploader.{Uploader, handle_recv_data, receive, uploader_utility}

-- The buffer is as long as the version and starts with something else.
abbrev pub IsStuck : Bytes → Type 0
IsStuck buffer = (7 ≤ length buffer) × (is_start_word uploader_utility buffer ≡ false)

take-longer : (n : ℕ) (xs ys : Bytes) → n ≤ length xs → take n (xs ++ ys) ≡ take n xs
take-longer zero xs ys h = refl
take-longer (suc n) [] ys h = elim h [ ]
take-longer (suc n) (x ∷ xs) ys h = ap (◌∷◌ x) (take-longer n xs ys (omega arith))

IsStuck-append : (buffer more : Bytes) → IsStuck buffer → IsStuck (buffer ++ more)
unfolding is_start_word
IsStuck-append buffer more (h, k) =
    (omega (arith, length-append buffer more), rw (take-longer 7 buffer more h) k)

IsStuck-refused :
    (buffer : Bytes)
    → IsStuck buffer
    → get_completed_package uploader_utility buffer
      ≡ some (refused start_word_error (buffer ++ (0 ∷ [])))
unfolding get_completed_package is_valid_package
IsStuck-refused buffer (h, k) = rw (le→not-ltb (length buffer) 7 h, k) refl

module _ (J : Jansson) where
  -- The parts that come in one after the other.
  unfoldable pub receive_all : List Bytes → Bytes × Uploader → Option (Bytes × Uploader)
  receive_all [] s = some s
  receive_all (c ∷ cs) s = receive J c s >>= receive_all cs

  abbrev pub marked : List Bytes → Bytes → Bytes
  marked [] buffer = buffer
  marked ([] ∷ cs) buffer = marked cs buffer
  marked ((x ∷ c) ∷ cs) buffer = marked cs (buffer ++ (x ∷ c) ++ (0 ∷ []))

  receive-nothing : (buffer : Bytes) (u : Uploader) → receive J [] (buffer, u) ≡ some (buffer, u)
  unfolding receive
  receive-nothing buffer u = refl

  receive-IsStuck :
      (buffer c : Bytes) (x : ℕ) (u : Uploader)
      → IsStuck buffer
      → receive J (x ∷ c) (buffer, u) ≡ some (buffer ++ (x ∷ c) ++ (0 ∷ []), u)
  unfolding receive handle_recv_data
  receive-IsStuck buffer c x u h =
      rw (IsStuck-refused (buffer ++ (x ∷ c)) (IsStuck-append buffer (x ∷ c) h), handle_recv_data)
        refl

  -- Once the buffer holds the seven bytes of the version's length and they are not the version, no
  -- package is ever taken out of it again, whatever comes in, whole packages too: the state stays the
  -- same, nothing is uploaded, and the buffer grows by all that comes in, and by a
  -- '\0' each time that anything does.
  pub receive_all-IsStuck :
      (cs : List Bytes) (buffer : Bytes) (u : Uploader)
      → IsStuck buffer
      → receive_all cs (buffer, u) ≡ some (marked cs buffer, u)
  unfolding receive_all
  receive_all-IsStuck [] buffer u h = refl
  receive_all-IsStuck ([] ∷ cs) buffer u h =
      rw (receive-nothing buffer u) (receive_all-IsStuck cs buffer u h)
  receive_all-IsStuck ((x ∷ c) ∷ cs) buffer u h = rw (receive-IsStuck buffer c x u h) (
      receive_all-IsStuck cs (buffer ++ (x ∷ c) ++ (0 ∷ [])) u
        (IsStuck-append (buffer ++ (x ∷ c)) (0 ∷ []) (IsStuck-append buffer (x ∷ c) h)))
