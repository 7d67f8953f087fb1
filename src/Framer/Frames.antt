-- ===== src/Framer/Frames.antt =====
-- What a frame on the wire is: the format that src/framer_rtu.c and src/framer_tcp.c document.
use pamodbus.Common.{ℕ, ◌+◌, ◌/◌, ◌%◌, List, [], ◌∷◌, ◌++◌, length}
use pamodbus.Crc.Reference.{reference_crc}

-- [Slave Addr: 1B] [PDU] [CRC-16: 2B], the CRC with its low byte first.
abbrev pub crc_bytes : ℕ → List ℕ
crc_bytes crc = crc % 256 ∷ crc / 256 ∷ []

abbrev pub rtu_adu : ℕ → List ℕ → List ℕ
rtu_adu slave pdu = (slave ∷ pdu) ++ crc_bytes (reference_crc 0xffff (slave ∷ pdu))

-- The bytes of a 16-bit number, the high one first.
abbrev pub be16 : ℕ → List ℕ
be16 v = v / 256 ∷ v % 256 ∷ []

-- [Transaction ID(2)] [Protocol ID(2)] [Length(2)] [Unit ID(1)] [PDU]; the length counts the unit
-- ID and the PDU.
abbrev pub tcp_adu : ℕ → ℕ → List ℕ → List ℕ
tcp_adu tid unit pdu = be16 tid ++ be16 0 ++ be16 (length pdu + 1) ++ unit ∷ pdu
