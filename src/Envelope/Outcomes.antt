-- ===== src/Envelope/Outcomes.antt =====
-- What the sender that waits for the wire learns of what `tx` did.
use channel.Base.{ℕ, ◌≡◌, refl, ◌∙◌, List, [], ◌∷◌, ◌++◌, false, All}
use channel.Channel.Dispatch.{
  TxResult, expired, tracer, timeout_not_set, requeued, write_failed, written,
}
use channel.Senders.{queued}
use channel.Envelope.{
  Notification, notifications, ErrChannel, new_err_channel, wire_listener, notify_all,
  transmissions, WaitResult, sent_ok, failed_with, still_waiting, case_err, WaitView, wait_for_wire,
}

-- Any number of requeues.
abbrev pub AllRequeued : List (TxResult × ℕ) → Type 0
AllRequeued rs = All (λ (r : TxResult × ℕ). r.0 ≡ requeued) rs

requeues_silent :
    (listener : Notification → ErrChannel → ErrChannel) (rs : List (TxResult × ℕ))
    (last : List (TxResult × ℕ)) (c : ErrChannel)
    → AllRequeued rs
    → transmissions listener (rs ++ last) c ≡ transmissions listener last c
unfolding transmissions
requeues_silent listener [] last c h = refl
requeues_silent listener ((r, e) ∷ rs) last c h =
    rw (h.0, notifications, notify_all) (requeues_silent listener rs last c h.1)

-- What a wait for the wire is to give for the last thing that `tx` did with the message.
abbrev pub wire_outcome : TxResult → ℕ → WaitResult
wire_outcome expired e = failed_with e
wire_outcome tracer e = still_waiting
wire_outcome timeout_not_set e = failed_with e
wire_outcome requeued e = still_waiting
wire_outcome write_failed e = failed_with e
wire_outcome written e = sent_ok

last_transmission :
    (r : TxResult) (e : ℕ) (v : WaitView)
    → v.err_channel ≡ transmissions wire_listener ((r, e) ∷ []) new_err_channel
    → (wait_for_wire queued case_err v ≡ wire_outcome r e)
      × (v.err_channel.has_panicked ≡ false)
      × (v.err_channel.is_stuck ≡ false)
unfolding wait_for_wire transmissions wire_listener new_err_channel
last_transmission expired e v seen = rw seen (refl, refl, refl)
last_transmission tracer e v seen = rw seen (refl, refl, refl)
last_transmission timeout_not_set e v seen = rw seen (refl, refl, refl)
last_transmission requeued e v seen = rw seen (refl, refl, refl)
last_transmission write_failed e v seen = rw seen (refl, refl, refl)
last_transmission written e v seen = rw seen (refl, refl, refl)

-- However often a message was requeued before `tx` was done with it, its listener neither panics nor
-- blocks, and a wait for the wire that looks at the error channel returns nil if the message was
-- written and otherwise the error that `tx` met; it goes on waiting while the message is requeued.
pub wire_wait_outcome :
    (rs : List (TxResult × ℕ)) (r : TxResult) (e : ℕ) (v : WaitView)
    → AllRequeued rs
    → v.err_channel ≡ transmissions wire_listener (rs ++ ((r, e) ∷ [])) new_err_channel
    → (wait_for_wire queued case_err v ≡ wire_outcome r e)
      × (v.err_channel.has_panicked ≡ false)
      × (v.err_channel.is_stuck ≡ false)
wire_wait_outcome rs r e v requeues seen =
    last_transmission r e v
      (seen ∙ requeues_silent wire_listener rs ((r, e) ∷ []) new_err_channel requeues)
