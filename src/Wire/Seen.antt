-- ===== src/Wire/Seen.antt =====
-- What `ReadV2` returned, from what was seen of it.
use channel.Base.{◌≡◌, arith, ok, err, Result-cases, inl, inr}
use channel.Base.Bytes.{Bytes}
use channel.Io.{Reader, contents}
use channel.Message.{Message}
use channel.Wire.{WireError}
use channel.Wire.Read.{read_v2}
use channel.Wire.Decode.{message, incomplete, observe}
use channel.Wire.Limits.{report-ne-message}

-- The stream that is left behind a message.
observed :
    (m m' : Message) (rest : Bytes) (peer : Reader)
    → observe (ok (m', peer)) ≡ message m rest
    → (m' ≡ m) × (contents peer ≡ rest)
observed m m' rest peer e = ground arith

pub read_v2_message :
    (peer : Reader) (m : Message) (rest : Bytes)
    → observe (read_v2 peer) ≡ message m rest
    → (peer' : Reader) × (read_v2 peer ≡ ok (m, peer')) × (contents peer' ≡ rest)
read_v2_message peer m rest e = elim (Result-cases (read_v2 peer)) [
  | inl ((m', peer'), got) ↦
      let o = observed m m' rest peer' (rw got at e) in (peer', rw o.0 at got, o.1)
  | inr (x, failed) ↦ absurd (report-ne-message x m rest (rw failed at e))
]

pub read_v2_incomplete :
    (peer : Reader) → observe (read_v2 peer) ≡ incomplete → (x : WireError) × (read_v2 peer ≡ err x)
read_v2_incomplete peer e = elim (Result-cases (read_v2 peer)) [
  | inl ((m, peer'), got) ↦
      let impossible : message m (contents peer') ≡ incomplete = rw got at e in absurd (cc)
  | inr (x, failed) ↦ (x, failed)
]
