-- ===== src/LoRa/Serve/Forward.antt =====
-- handleForwardingPackage of IoTRepublicPlus/Broker/LoRaBroker.cpp between the manager and a node.
use io_trepublic_plus.Base.{
  ◌≤◌, ◌<◌, ◌≡◌, refl, ap, true, none, some, List, [], ◌∷◌, ◌++◌, Bytes, All, length, length-append,
  take-append, leb, le→leb, lt→ltb, arith,
}
use io_trepublic_plus.Package.{IoTPackage}
use io_trepublic_plus.Package.Checksum.SignedBytes.{IsByte}
use io_trepublic_plus.Base64.{base64_encode, encode}
use io_trepublic_plus.Base64.RoundTrip.{length-encode}
use io_trepublic_plus.Json.{Jansson}
use io_trepublic_plus.Command.{IoTCommand, command_of, command_of_content, read_response}
use io_trepublic_plus.Broker.Serve.{swapped}
use io_trepublic_plus.LoRa.{end_device_buffer_size, LoRaBroker, LoRaDevice, Radio, Window, end_code}
use io_trepublic_plus.LoRa.Serial.{
  clear_comport_buffer, framed, next_window, node_data, recv_from, send_data,
}
use io_trepublic_plus.LoRa.Serial.Frame.{Lacks, asked, get_response-framed, length-framed}
use io_trepublic_plus.LoRa.Serve.{
  ask_end_device, handle_forwarding_package, response_package, target,
}

-- What sendData writes for a node: the command with the Base64 text of the data between the codes.
send_data-encode :
    (address content : Bytes) (w : Window) (ws : List Window) (written : List Bytes)
    → length content ≤ 1490
    → send_data address content (record { windows = w ∷ ws; serial = written })
      ≡ some (record {
        windows = ws;
        serial = written ++ (node_data address (encode (framed content)) ∷ []);
      })
unfolding send_data base64_encode clear_comport_buffer next_window
send_data-encode address content w ws written h =
    let text = encode (framed content) in
    let length_fits : leb (length (text ++ (0 ∷ []))) 2000 ≡ true = le→leb _ _ (
      omega (
        arith,
        length-append text (0 ∷ []),
        length-encode (framed content),
        length-framed content,
      )) in
    rw length_fits (
      ap (λ t. some (record { windows = ws; serial = written ++ (node_data address t ∷ []) }))
        (take-append text (0 ∷ [])))

-- The port after the exchange with a node: the windows that are left, and the two commands.
abbrev pub exchanged : Bytes → Bytes → List Window → List Bytes → Radio
exchanged address id ws written =
    asked address ws (written ++ (node_data address (encode (framed id)) ∷ []))

module _ (J : Jansson) (pkg : IoTPackage) (b : LoRaBroker) (cmd : IoTCommand)
    (read : command_of_content J pkg.data_vector ≡ some cmd) where
  -- A package for a device that the broker has, when the two polls of at most 20 bytes each read, in time, from
  -- the node of that device the Base64 text of a value between the codes, with its '\0', and then anything (the
  -- value not empty and without an end code; it has at most 25 bytes, since the text has to fit the polls):
  -- the broker writes the ID of the command, of at most 1490 bytes, to the node, and sends the manager one
  -- package, with the value as the response to that ID, from the address that was asked to the one that
  -- asked. Nothing else of the broker changes.
  pub handle_forwarding_package-exchanged :
      (d : LoRaDevice) (response : IoTCommand) (value rest : Bytes) (w0 w1 w : Window)
      (ws : List Window) (written : List Bytes)
      → target pkg.des_ip b.lora_devices ≡ some d
      → b.radio ≡ record { windows = w0 ∷ w1 ∷ w ∷ ws; serial = written }
      → length cmd.id ≤ 1490
      → All IsByte value
      → Lacks end_code value
      → 0 < length value
      → recv_from end_device_buffer_size w.start [] w.polls
        ≡ some ((base64_encode (framed value)).0 ++ rest)
      → command_of J read_response cmd.id value ≡ some response
      → handle_forwarding_package J pkg b
        ≡ some (record b {
          radio = clear_comport_buffer (exchanged d.lora_address cmd.id ws written);
          sent = b.sent ++ (swapped pkg response.sended_data ∷ []);
        })
  unfolding handle_forwarding_package ask_end_device response_package
  handle_forwarding_package-exchanged d response value rest w0 w1 w ws written found port small
        bytes lacks some_value came responds =
      let one_command = written ++ (node_data d.lora_address (encode (framed cmd.id)) ∷ []) in
      rw
        (
          read,
          found,
          ask_end_device,
          port,
          send_data-encode d.lora_address cmd.id w0 (w1 ∷ w ∷ ws) written small,
          (get_response-framed d.lora_address value rest w1 w ws one_command bytes lacks came).0,
          lt→ltb 0 (length value) some_value,
          response_package,
          responds,
        )
        refl

  -- A package for an address that no device of the broker has is dropped: nothing is written to the radio
  -- or sent to the manager, and what comes in on the port meanwhile is thrown away.
  pub handle_forwarding_package-unknown :
      target pkg.des_ip b.lora_devices ≡ none
      → handle_forwarding_package J pkg b ≡ some (record b { radio = clear_comport_buffer b.radio })
  unfolding handle_forwarding_package ask_end_device
  handle_forwarding_package-unknown unknown = rw (read, unknown) refl
