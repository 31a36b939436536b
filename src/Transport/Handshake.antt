-- ===== src/Transport/Handshake.antt =====
-- shell.rs and port.rs: the first bytes of a shell stream and of a port forwarding stream.
use failsafe.Prelude.{
  ℕ, ◌<◌, ◌≡◌, Bool, true, false, not, ◌&&◌, ◌||◌, Option, none, some, List, [], ◌∷◌, ◌++◌, arith,
  length, take, drop, ltb, nat_beq, if◌then◌else◌,
}
use failsafe.Prelude.Bytes.{u16_to_be_bytes, from_be_bytes}

pub data PortProtocol : Type 0 where
  tcp : PortProtocol

abbrev pub shell_handshake : List ℕ
shell_handshake = b'F' ∷ b'S' ∷ b'H' ∷ b'1' ∷ []

abbrev pub port_handshake : List ℕ
port_handshake = b'F' ∷ b'S' ∷ b'P' ∷ b'1' ∷ []

abbrev pub shell_init_len : ℕ
shell_init_len = 8

abbrev pub port_init_len : ℕ
port_init_len = 7

abbrev pub port_protocol_tcp : ℕ
port_protocol_tcp = 0

-- Equality of byte slices.
unfoldable pub bytes_beq : List ℕ → List ℕ → Bool
bytes_beq [] [] = true
bytes_beq (x ∷ xs) (y ∷ ys) = nat_beq x y && bytes_beq xs ys
bytes_beq _ _ = false

unfoldable pub is_shell_handshake : List ℕ → Bool
unfolding bytes_beq
is_shell_handshake header =
    if ltb (length header) 4 then false else bytes_beq (take 4 header) shell_handshake

unfoldable pub is_port_handshake : List ℕ → Bool
unfolding bytes_beq
is_port_handshake header =
    if ltb (length header) 4 then false else bytes_beq (take 4 header) port_handshake

unfoldable pub build_shell_init : ℕ → ℕ → List ℕ
unfolding u16_to_be_bytes
build_shell_init rows cols = shell_handshake ++ (u16_to_be_bytes rows ++ u16_to_be_bytes cols)

unfoldable pub parse_shell_init : List ℕ → Option (ℕ × ℕ)
unfolding is_shell_handshake
parse_shell_init bytes =
    if ltb (length bytes) shell_init_len || not (is_shell_handshake bytes)
    then none
    else some (from_be_bytes 0 (take 2 (drop 4 bytes)), from_be_bytes 0 (take 2 (drop 6 bytes)))

abbrev protocol_byte : PortProtocol → ℕ
protocol_byte tcp = port_protocol_tcp

unfoldable pub build_port_init : ℕ → PortProtocol → List ℕ
unfolding u16_to_be_bytes
build_port_init remote_port protocol =
    port_handshake ++ (u16_to_be_bytes remote_port ++ (protocol_byte protocol ∷ []))

abbrev protocol_of : List ℕ → Option PortProtocol
protocol_of [] = none
protocol_of (b ∷ bs) = if nat_beq b port_protocol_tcp then some tcp else none

unfoldable pub parse_port_init : List ℕ → Option (ℕ × PortProtocol)
unfolding is_port_handshake
parse_port_init bytes =
    let remote_port = from_be_bytes 0 (take 2 (drop 4 bytes)) in
    if ltb (length bytes) port_init_len || not (is_port_handshake bytes)
    then none
    else elim (protocol_of (drop 6 bytes)) [
      | none ↦ none
      | some protocol ↦ some (remote_port, protocol)
    ]

-- A shell init is recognised and read back, whatever bytes follow it.
pub parse-build_shell_init :
    (rows cols : ℕ) (rest : List ℕ)
    → rows < 65536
    → cols < 65536
    → parse_shell_init (build_shell_init rows cols ++ rest) ≡ some (rows, cols)
unfolding parse_shell_init build_shell_init
parse-build_shell_init rows cols rest hr hc = ground arith

-- A port init is recognised and read back, whatever bytes follow it.
pub parse-build_port_init :
    (remote_port : ℕ) (protocol : PortProtocol) (rest : List ℕ)
    → remote_port < 65536
    → parse_port_init (build_port_init remote_port protocol ++ rest) ≡ some (remote_port, protocol)
unfolding parse_port_init build_port_init
parse-build_port_init remote_port tcp rest h = ground arith
