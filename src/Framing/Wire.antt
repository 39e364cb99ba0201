-- ===== src/Framing/Wire.antt =====
-- The packet header of Base/Header.h as bytes, and `SendPacket::data` of Base/Packet.h.
-- A byte is a number below 256. An `int` is its 32-bit pattern, a number below 2 ^ 32, so that
-- its wrap-around is written out; `slt` is `<` on the integers that two patterns stand for.
use bugat.Common.{
  ℕ, ◌+◌, ◌-◌, ◌*◌, ◌/◌, ◌%◌, ◌^◌, ◌<◌, ◌≡◌, Bool, Option, none, some, List, [], ◌∷◌, ◌++◌, arith,
  ltb,
}

abbrev pub slt : ℕ → ℕ → Bool
slt a b = ltb ((a + 2 ^ 31) % 2 ^ 32) ((b + 2 ^ 31) % 2 ^ 32)

abbrev pub add32 : ℕ → ℕ → ℕ
add32 a b = (a + b) % 2 ^ 32

abbrev pub sub32 : ℕ → ℕ → ℕ
sub32 a b = (a + 2 ^ 32 - b) % 2 ^ 32

-- `struct TCPHeader` and `struct UDPHeader`, packed.
pub record Header : Type 0 where
  pub size : ℕ
  pub kind : ℕ

-- `sizeof(Header)`
abbrev pub header_size : ℕ
header_size = 8

abbrev pub max_tcp_packet_size : ℕ
max_tcp_packet_size = 4096

abbrev pub max_udp_packet_size : ℕ
max_udp_packet_size = 1500

-- An `int` in memory, the low byte first.
unfoldable pub int_bytes : ℕ → List ℕ
int_bytes v = v % 256 ∷ v / 256 % 256 ∷ v / 65536 % 256 ∷ v / 16777216 % 256 ∷ []

-- `*reinterpret_cast<int*>(ptr)`; `none` where the four bytes run past the memory at hand.
unfoldable pub read_int : List ℕ → Option ℕ
read_int (a ∷ b ∷ c ∷ d ∷ _) = some (a + 256 * b + 65536 * c + 16777216 * d)
read_int _ = none

pub read_int-int_bytes :
    (v : ℕ) (rest : List ℕ) → v < 2 ^ 32 → read_int (int_bytes v ++ rest) ≡ some v
unfolding read_int int_bytes
read_int-int_bytes v rest h = ground arith

unfoldable pub header_bytes : Header → List ℕ
header_bytes h = int_bytes h.size ++ int_bytes h.kind
