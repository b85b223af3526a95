-- ===== src/Handshake/Refusals.antt =====
-- A refusal that `RejectHello` sends, as the dialer reads it.
use channel.Base.{
  ℕ, ◌==◌, ◌<◌, ◌^◌, ◌≡◌, Option, err, Result, ap, sym, ==_iff, Bool-cases, inl, inr,
}
use channel.Base.Bytes.{Bytes, put_le, get_le, get_le-put_le}
use channel.Base.Maps.{lookup, insert, nat_eq}
use channel.Message.{Message, reply_for}
use channel.Message.Headers.{put_uint32_header}
use channel.Wire.RoundTrip.{received}
use channel.Handshake.{Reason, class_of, reason_text, reject_response, class_unspecified}
use channel.Handshake.Dialer.{HelloError, refused, PeerUnderlay, judge_response}

-- Whatever the reason of a refusal, a dialer that gets the message reports the reason's class and text,
-- as a `RejectedError`. The class is an int32.
pub refusal_reaches_dialer :
    (request : Message) (common_name : Option Bytes) (reason : Option Reason)
    → class_of reason < 2 ^ 32
    → judge_response request common_name (received (reject_response reason))
      ≡ err (refused (record { reject_class = class_of reason; message = reason_text reason }))
unfolding judge_response received reject_response lookup insert put_uint32_header reply_for put_le
    get_le
refusal_reaches_dialer request common_name reason small =
    let c = class_of reason in
    let refusal : ℕ → Result HelloError PeerUnderlay =
      λ k. err (refused (record { reject_class = k; message = reason_text reason })) in
    elim (Bool-cases (c == class_unspecified)) [
      | inl e ↦ rw e (ap refusal (sym ((==_iff c class_unspecified).0 e)))
      | inr e ↦ rw e (ap refusal (get_le-put_le 4 c small))
    ]
