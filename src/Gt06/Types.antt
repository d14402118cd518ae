-- ===== src/Gt06/Types.antt =====
-- The data of gt06_parser.h, and what the parser takes from the platform.
use karshipta.Common.{ℕ, Bool, Option, Text, ℤ}

pub data PacketType : Type 0 where
  login location heartbeat unsupported : PacketType

-- `D` is the type `double`.
pub record Location (D : Type 0) : Type 0 where
  pub timestamp_ms : ℕ
  pub latitude_deg : D
  pub longitude_deg : D
  pub gps_valid : Bool
  pub satellites : ℕ

pub record ParsedPacket (D : Type 0) : Type 0 where
  pub type : PacketType
  pub serial_number : ℕ
  pub imei : Option Text
  pub location : Option (Location D)

pub data FrameResult : Type 0 where
  ok incomplete invalid : FrameResult

pub record ParseResult (D : Type 0) : Type 0 where
  pub result : FrameResult
  pub consumed_bytes : ℕ
  pub packet : ParsedPacket D
  pub checksum_mismatch : Bool

-- `std::tm`, as far as the parser fills it in.
pub record Tm : Type 0 where
  pub tm_year : ℕ
  pub tm_mon : ℤ
  pub tm_mday : ℕ
  pub tm_hour : ℕ
  pub tm_min : ℕ
  pub tm_sec : ℕ

-- The floating point operations that the parser uses, and the C library's `timegm`, whose result is
-- given as the `uint64_t` that the parser casts it to.
pub record Platform (D : Type 0) : Type 0 where
  pub of_uint32 : ℕ → D
  pub literal : ℕ → D
  pub divide : D → D → D
  pub negate : D → D
  pub timegm : Tm → ℕ
