-- ===== src/Broker/Ask.antt =====
-- A client that asks for its address: askIoTIp of IoTRepublicPlus/Broker/IBroker.cpp on the answer of
-- the manager, IoTRepublicPlus/IoT/IoTManager.cpp.
use io_trepublic_plus.Base.{
  ℕ, ◌<◌, ◌^◌, ◌≡◌, ◌≢◌, refl, sym, ap, subst, ◌∙◌, some, List, [], ◌∷◌, ◌++◌, Bytes, length,
  append_assoc, append-nil, arith, ◌⊎◌, inl, inr, Bool-cases,
}
use io_trepublic_plus.Package.{
  protocol_version, segment_symbol, package_of_string, packet_to_sending_vector,
}
use io_trepublic_plus.Framing.{get_completed_package}
use io_trepublic_plus.Framing.RoundTrip.{get_completed_package-package_of_string}
use io_trepublic_plus.Manager.State.{server_iot_ip, is_empty}
use io_trepublic_plus.Manager.Stream.{wire_of, wire-two, Pending, Pending-Waits}
use io_trepublic_plus.Manager.Answer.{address, address_message, address-IsSendable, non_empty}
use io_trepublic_plus.Broker.{ask_from, ask_iot_ip, parse_received_buffer, broker_utility}

abbrev pub joined : List Bytes → Bytes
joined [] = []
joined (c ∷ cs) = c ++ joined cs

parse-Pending :
    (self manager pre : Bytes)
    → Pending pre
    → parse_received_buffer self manager pre ≡ some (self, manager, pre)
unfolding parse_received_buffer
parse-Pending self manager pre p = let (e, _, h) = Pending-Waits pre p in rw h refl

parse-answer :
    (n : ℕ) (manager : Bytes)
    → n < 2 ^ 31
    → length (wire_of (address_message n)) < 2 ^ 31
    → manager ≡ []
    → parse_received_buffer [] manager (wire_of (address_message n))
      ≡ some (address n, server_iot_ip, [])
unfolding parse_received_buffer package_of_string packet_to_sending_vector
parse-answer n manager h short e =
    let s = address-IsSendable n h in
    let got =
      get_completed_package-package_of_string protocol_version server_iot_ip (address n) [] []
        segment_symbol s.message s.ascii
        (subst (λ w. length w < 2 ^ 31) (sym (append-nil (wire_of (address_message n)))) short) in
    let whole =
      ap (get_completed_package broker_utility) (sym (append-nil (wire_of (address_message n))))
      ∙ got in
    rw (whole, e) refl

pub nil_cases : (xs : Bytes) → (xs ≡ []) ⊎ (xs ≢ [])
nil_cases [] = inl refl
nil_cases (x ∷ xs) = inr (λ q. cc)

answer-long : (n : ℕ) → n < 2 ^ 31 → 0 < length (wire_of (address_message n))
answer-long n h = omega (
  arith,
  wire-two (address_message n) [] (address-IsSendable n h),
  ap length (append-nil (wire_of (address_message n))),
)

ask_from-answer :
    (n : ℕ) (manager buffer : Bytes) (cs : List Bytes)
    → n < 2 ^ 31
    → length (wire_of (address_message n)) < 2 ^ 31
    → manager ≡ []
    → buffer ++ joined cs ≡ wire_of (address_message n)
    → joined cs ≢ []
    → ask_from [] manager buffer cs ≡ some (some (address n, server_iot_ip))
unfolding ask_from
ask_from-answer n manager buffer [] h short e split more = absurd (more refl)
ask_from-answer n manager buffer (c ∷ cs) h short e split more =
    let whole : buffer ++ c ++ joined cs ≡ wire_of (address_message n) =
      append_assoc buffer c (joined cs) ∙ split in
    elim (nil_cases (joined cs)) [
      | inl last ↦
          let all : buffer ++ c ≡ wire_of (address_message n) =
            sym (append-nil (buffer ++ c)) ∙ ap (λ r. buffer ++ c ++ r) (sym last) ∙ whole in
          rw
            (
              all,
              non_empty (wire_of (address_message n)) (answer-long n h),
              parse-answer n manager h short e,
            )
            refl
      | inr left ↦
          let later = ask_from-answer n manager (buffer ++ c) cs h short e whole left in
          let waits = parse-Pending [] manager (buffer ++ c) (record {
            message = address_message n;
            sendable = address-IsSendable n h;
            missing = joined cs;
            not_whole = left;
            splits = whole;
          }) in
          elim (Bool-cases (is_empty (buffer ++ c))) [
            | inl b ↦ rw b later
            | inr b ↦ rw (b, waits) later
          ]
    ]

-- A client that knows no manager yet and waits on its connection, and to which nothing but the manager's
-- answer comes in, cut anywhere into parts, stops waiting with the address that the manager gave
-- it, "DEV." and the count, and with the manager's own.
pub ask_iot_ip-answer :
    (n : ℕ) (manager : Bytes) (parts : List Bytes)
    → n < 2 ^ 31
    → length (wire_of (address_message n)) < 2 ^ 31
    → manager ≡ []
    → joined parts ≡ wire_of (address_message n)
    → ask_iot_ip manager parts ≡ some (some (address n, server_iot_ip))
unfolding ask_iot_ip
ask_iot_ip-answer n manager parts h short e split =
    ask_from-answer n manager [] parts h short e split
      (λ q. omega (arith, answer-long n h, ap length (sym split ∙ q)))
