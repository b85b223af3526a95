-- ===== src/Channel/Handlers.antt =====
-- impl.go: `rx` and `tx` with the transform, peek and error handlers that they run. What a transform
-- handler makes of a message is a parameter, one function for each direction.
use channel.Base.{ℕ, ◌++◌, List, [], ◌∷◌, map, Option, some}
use channel.Message.{Message}
use channel.Channel.{ChannelImpl}
use channel.Channel.Dispatch.{
  Delivery, rx, Sendable, TxAnswers, TxResult, expired, tracer, timeout_not_set, requeued,
  write_failed, written, tx,
}

-- A handler's call, or what becomes of the message.
pub data HandlerEvent : Type 0 where
  transformed : ℕ → HandlerEvent
  peeked : ℕ → Message → HandlerEvent
  delivered : Delivery → Message → HandlerEvent
  error_handled : ℕ → HandlerEvent
  returned : TxResult → HandlerEvent

module _ (transform : ℕ → Message → Message) where
  -- The loop over the transform handlers.
  unfoldable pub transform_all : List ℕ → Message → Message
  transform_all [] m = m
  transform_all (h ∷ hs) m = transform_all hs (transform h m)

  abbrev peek_all : List ℕ → Message → List HandlerEvent
  peek_all hs m = map (λ (h : ℕ). peeked h m) hs

  -- `rx`, with the calls that it makes.
  unfoldable pub rx_with_handlers : ℕ → Message → ChannelImpl → ChannelImpl × List HandlerEvent
  unfolding transform_all rx
  rx_with_handlers now m c =
      let m' = transform_all c.transform_handlers m in
      let r = rx now m' c in
      (
        r.0,
        map transformed c.transform_handlers
            ++ (peek_all c.peek_handlers m' ++ (delivered r.1 m' ∷ [])),
      )

  -- What `tx` calls around the write, by how it returns.
  unfoldable pub tx_events : ChannelImpl → Message → TxResult → List HandlerEvent
  tx_events c m expired = []
  tx_events c m tracer = []
  tx_events c m timeout_not_set = map transformed c.transform_handlers
  tx_events c m written = map transformed c.transform_handlers ++ peek_all c.peek_handlers m
  tx_events c m write_failed =
      map transformed c.transform_handlers ++ map error_handled c.error_handlers
  tx_events c m requeued =
      map transformed c.transform_handlers ++ map error_handled c.error_handlers

  -- `tx` of a message: its sequence is read behind the transform handlers.
  unfoldable pub tx_with_handlers :
      TxAnswers → ℕ → Option ℕ → Option ℕ → Message → ChannelImpl → ChannelImpl × List HandlerEvent
  unfolding transform_all tx tx_events
  tx_with_handlers a now reply_receiver deadline m c =
      let m' = transform_all c.transform_handlers m in
      let s : Sendable = record {
        sequence = some m'.sequence;
        reply_receiver = reply_receiver;
        deadline = deadline;
      } in
      let r = tx a now s c.waiters in
      (record c { waiters = r.0 }, tx_events c m' r.1 ++ (returned r.1 ∷ []))
