-- ===== src/Tests/Wire.antt =====
-- Frames and streams of Transport at concrete bytes.
use failsafe.Prelude.{
  ℕ, ◌≡◌, refl, true, some, List, [], ◌∷◌, ◌++◌, arith, ok, err, if◌then◌else◌, nat_beq, ap,
}
use failsafe.Core.Message.{FeatureMessage}
use failsafe.Transport.Codec.{encode}
use failsafe.Transport.Handshake.{tcp, build_shell_init, build_port_init}
use failsafe.Transport.Stream.{
  RecvStream, chunk, open_, closed, delivered, handle_incoming_bi_stream,
}
use failsafe.Transport.Stream.Reading.{bytes}
use failsafe.Transport.Stream.Dispatch.{handle-encode}
use failsafe.Transport.Stream.Attribution.{Attributed, handle-Attributed}
use failsafe.Tests.Json.{message_json}

abbrev hello : FeatureMessage
hello = record { version = 1; from = 7; to = 9; feature = "file_send"; payload = 104 ∷ 105 ∷ [] }

abbrev hello_frame : List ℕ
hello_frame = 0 ∷ 0 ∷ 0 ∷ 5 ∷ 1 ∷ 7 ∷ 9 ∷ 104 ∷ 105 ∷ []

encode-hello : encode message_json hello ≡ ok hello_frame
unfolding encode failsafe.Prelude.Bytes.u32_to_be_bytes
encode-hello = refl

-- The frame in three pieces, with a byte after it.
abbrev pieces : RecvStream
pieces = chunk (0 ∷ 0 ∷ []) ∷ chunk (0 ∷ 5 ∷ 1 ∷ 7 ∷ 9 ∷ 104 ∷ []) ∷ chunk (105 ∷ 42 ∷ []) ∷ []

-- The device 3 claims to be 7.
handle-encode_example :
    handle_incoming_bi_stream message_json pieces 3 9 true closed open_
    ≡ delivered (record hello { from = 3 })
handle-encode_example =
    handle-encode message_json 3 9 closed open_ hello hello_frame (42 ∷ []) pieces encode-hello tt
      refl

abbrev shell_pieces : RecvStream
shell_pieces = chunk (70 ∷ 83 ∷ 72 ∷ 49 ∷ 0 ∷ 24 ∷ 0 ∷ []) ∷ chunk (80 ∷ 108 ∷ []) ∷ []

shell_bytes : bytes shell_pieces ≡ build_shell_init 24 80 ++ 108 ∷ []
unfolding build_shell_init
shell_bytes = refl

abbrev port_pieces : RecvStream
port_pieces = chunk (70 ∷ 83 ∷ []) ∷ chunk (80 ∷ 49 ∷ 11 ∷ 184 ∷ 0 ∷ []) ∷ []

port_bytes : bytes port_pieces ≡ build_port_init 3000 tcp ++ []
unfolding build_port_init
port_bytes = refl

handle-Attributed_example :
    Attributed 3 9 (handle_incoming_bi_stream message_json pieces 3 9 true open_ open_)
handle-Attributed_example = handle-Attributed message_json 3 9 true pieces open_ open_
