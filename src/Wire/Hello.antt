-- ===== src/Wire/Hello.antt =====
-- The hello exchange's part of message.go: `readHello`, `readHelloV2`, `WriteUnknownVersionResponse`
-- and `getRetryVersionFor`. `readHello` also returns `ReadV2` and `MarshalV2`, on every path.
use channel.Base.{
  ℕ, ◌-◌, List, [], ◌∷◌, ◌++◌, Bool, ◌||◌, Option, none, some, Result, err, ◌>>=◌, true, false,
  if◌then◌else◌, ◌==◌, ltb,
}
use channel.Base.Bytes.{Bytes, put_le, get_le}
use channel.Base.Maps.{bytes_beq}
use channel.Io.{Reader, read_full}
use channel.Message.{Message}
use channel.Wire.{
  WireError, bad_magic_number, hello_too_big, unsupported_version, slice, magic_v2,
  magic_unknown_version, data_section_v2, version_len,
}
use channel.Wire.Read.{lift_io, unmarshal_v2}

abbrev pub max_hello_headers : ℕ
max_hello_headers = 16384

abbrev pub max_hello_body : ℕ
max_hello_body = 4192

unfoldable pub read_hello_v2 : Reader → Result WireError (Message × Reader)
read_hello_v2 peer = do
  (tail, peer') ← lift_io (read_full (data_section_v2 - version_len) peer)
  let section = magic_v2 ++ tail
  let headers_length = get_le (slice section 12 4)
  let body_length = get_le (slice section 16 4)
  if ltb max_hello_headers headers_length || ltb max_hello_body body_length
      then err hello_too_big
      else unmarshal_v2 section headers_length body_length peer'

unfoldable pub read_hello : Reader → Result WireError (Message × Reader)
read_hello peer = do
  (version, peer') ← lift_io (read_full version_len peer)
  if bytes_beq version magic_v2 then read_hello_v2 peer' else err bad_magic_number

unfoldable pub put_all_u32 : List ℕ → Bytes
put_all_u32 [] = []
put_all_u32 (val ∷ vals) = put_le 4 val ++ put_all_u32 vals

-- What `WriteUnknownVersionResponse` writes: a count of 2, and versions 1 and 2.
unfoldable pub unknown_version_response : Bytes
unknown_version_response = magic_unknown_version ++ put_all_u32 (2 ∷ 1 ∷ 2 ∷ [])

unfoldable pub has_version : ℕ → List ℕ → Bool
has_version version [] = false
has_version version (remote ∷ remotes) = remote == version || has_version version remotes

-- The two loops of `getRetryVersionFor`: the first local version that the peer named.
unfoldable pub common_version : List ℕ → List ℕ → Option ℕ
common_version [] supported = none
common_version (version ∷ locals) supported =
    if has_version version supported then some version else common_version locals supported

unfoldable pub get_retry_version_for : WireError → ℕ → List ℕ → ℕ × Bool
get_retry_version_for (unsupported_version supported) default locals =
    elim (common_version locals supported) [
      | some version ↦ (version, true)
      | none ↦ (default, false)
    ]
get_retry_version_for e default locals = (default, false)

unfoldable pub get_retry_version : WireError → ℕ × Bool
get_retry_version e = get_retry_version_for e 2 (2 ∷ [])
