-- ===== src/Rtp/Header.antt =====
-- RtpHeader of src/rtp/header.rs: the record, `new`, `with_marker`, `parse`, `to_bytes` and
-- `header_length`. A byte slice is a list of numbers below 256; shifts and masks of a byte are
-- written as quotients and remainders, and `|` of operands with disjoint bits as a sum.
pub mod RoundTrip
pub mod Reverse
use rtp_engine.Base.{
  ℕ, zero, suc, ◌+◌, ◌*◌, ◌/◌, ◌%◌, Bool, true, false, not, Option, none, some, List, [], ◌∷◌, ◌++◌,
  ltb, ◌==◌, if◌then◌else◌, length, slice, byte_at, bit, u16_at, u32_at, u16_to_be, u32_to_be,
}

pub record RtpHeader : Type 0 where
  pub version : ℕ
  pub padding : Bool
  pub extension : Bool
  pub csrc_count : ℕ
  pub marker : Bool
  pub payload_type : ℕ
  pub sequence : ℕ
  pub timestamp : ℕ
  pub ssrc : ℕ
  pub csrc : List ℕ
  pub extension_data : Option (List ℕ)

unfoldable pub new : ℕ → ℕ → ℕ → ℕ → RtpHeader
new payload_type sequence timestamp ssrc = record {
  version = 2;
  padding = false;
  extension = false;
  csrc_count = 0;
  marker = false;
  payload_type = payload_type;
  sequence = sequence;
  timestamp = timestamp;
  ssrc = ssrc;
  csrc = [];
  extension_data = none;
}

unfoldable pub with_marker : RtpHeader → RtpHeader
with_marker h = record h { marker = true }

-- `RtpHeader::default`
unfoldable pub default_header : RtpHeader
unfolding new
default_header = new 0 0 0 0

-- `for i in 0..csrc_count`: the rounds left, and `i`.
unfoldable pub read_csrc : List ℕ → ℕ → ℕ → List ℕ
read_csrc bytes zero i = []
read_csrc bytes (suc n) i = u32_at bytes (12 + i * 4) ∷ read_csrc bytes n (i + 1)

-- The header that `parse` has built when it comes to the extension.
unfoldable pub fixed_part : List ℕ → RtpHeader
unfolding read_csrc
fixed_part bytes = record {
  version = byte_at bytes 0 / 64 % 4;
  padding = bit (byte_at bytes 0) 5;
  extension = bit (byte_at bytes 0) 4;
  csrc_count = byte_at bytes 0 % 16;
  marker = bit (byte_at bytes 1) 7;
  payload_type = byte_at bytes 1 % 128;
  sequence = u16_at bytes 2;
  timestamp = u32_at bytes 4;
  ssrc = u32_at bytes 8;
  csrc = read_csrc bytes (byte_at bytes 0 % 16) 0;
  extension_data = none;
}

-- The block under `if extension`.
unfoldable pub read_extension : List ℕ → ℕ → RtpHeader → Option RtpHeader
read_extension bytes csrc_end header =
    if ltb (length bytes) (csrc_end + 4)
    then none
    else let ext_len = u16_at bytes (csrc_end + 2) * 4 in
      let ext_end = csrc_end + 4 + ext_len in
      if ltb (length bytes) ext_end
      then none
      else some (record header { extension_data = some (slice csrc_end ext_end bytes) })

unfoldable pub parse : List ℕ → Option RtpHeader
unfolding fixed_part read_extension
parse bytes =
    if ltb (length bytes) 12
    then none
    else if not (byte_at bytes 0 / 64 % 4 == 2)
    then none
    else let csrc_end = 12 + byte_at bytes 0 % 16 * 4 in
      if ltb (length bytes) csrc_end
      then none
      else if bit (byte_at bytes 0) 4
      then read_extension bytes csrc_end (fixed_part bytes)
      else some (fixed_part bytes)

-- `for csrc in &self.csrc`
unfoldable pub csrc_bytes : List ℕ → List ℕ
csrc_bytes [] = []
csrc_bytes (x ∷ xs) = u32_to_be x ++ csrc_bytes xs

-- `if let Some(ref ext) = self.extension_data`
unfoldable pub extension_bytes : Option (List ℕ) → List ℕ
extension_bytes none = []
extension_bytes (some ext) = ext

-- `self.version << 6` keeps 8 bits, and so does `self.csrc.len() as u8`.
unfoldable pub byte0 : RtpHeader → ℕ
byte0 h =
    h.version * 64 % 256
    + (if h.padding then 32 else 0)
    + (if h.extension then 16 else 0)
    + length h.csrc % 256 % 16

unfoldable pub byte1 : RtpHeader → ℕ
byte1 h = (if h.marker then 128 else 0) + h.payload_type % 128

unfoldable pub to_bytes : RtpHeader → List ℕ
unfolding byte0 byte1 csrc_bytes extension_bytes
to_bytes h =
    byte0 h
    ∷ byte1 h
    ∷ (u16_to_be h.sequence
        ++ (u32_to_be h.timestamp
            ++ (u32_to_be h.ssrc ++ (csrc_bytes h.csrc ++ extension_bytes h.extension_data))))

unfoldable pub header_length : RtpHeader → ℕ
unfolding extension_bytes
header_length h = elim h.extension_data [
  | none ↦ 12 + length h.csrc * 4
  | some ext ↦ 12 + length h.csrc * 4 + length ext
]
