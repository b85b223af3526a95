-- ===== src/Wire.antt =====
-- message.go: the V2 wire format, its constants and what reading it can report.
pub mod Marshal
pub mod Read
pub mod Hello
pub mod HeaderSection
pub mod Decode
pub mod RoundTrip
pub mod Truncation
pub mod Limits
pub mod Seen
pub mod Versions
use channel.Base.{ℕ, ◌-◌, ◌^◌, List, [], ◌∷◌, take, drop}
use channel.Base.Bytes.{Bytes}
use channel.Io.{IoError}

abbrev pub magic_length : ℕ
magic_length = 4

abbrev pub version_len : ℕ
version_len = 4

abbrev pub magic_v2 : Bytes
magic_v2 = 0x03 ∷ 0x06 ∷ 0x09 ∷ 0x0c ∷ []

abbrev pub magic_v3 : Bytes
magic_v3 = 0x03 ∷ 0x06 ∷ 0x09 ∷ 0x0d ∷ []

abbrev pub magic_unknown_version : Bytes
magic_unknown_version = 0x03 ∷ 0x06 ∷ 0x09 ∷ 0x0a ∷ []

abbrev pub data_section_v2 : ℕ
data_section_v2 = 20

abbrev pub max_supported_version_count : ℕ
max_supported_version_count = 64

abbrev pub max_int32 : ℕ
max_int32 = 2 ^ 31 - 1

-- `diverged` is no Go error: the loop over the headers ran out of fuel.
pub data WireError : Type 0 where
  io : IoError → WireError
  bad_magic_number hello_too_big data_section_too_big short_data_stream magic_mismatch : WireError
  truncated_header_data short_header_meta short_header_data channel_synchronization : WireError
  diverged : WireError
  unsupported_version : List ℕ → WireError

-- `data[i : j]`, with `n` for `j - i`.
abbrev pub slice : Bytes → ℕ → ℕ → Bytes
slice bs i n = take n (drop i bs)
