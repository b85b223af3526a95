-- ===== src/Logging/Following.antt =====
-- Loggers of one name are one logger, and their handler does what the default's would do.
use channel.Base.{
  ℕ, ◌≡◌, refl, ◌∙◌, List, [], ◌∷◌, Option, none, some, Option-cases, inl, inr, Bool-cases,
}
use channel.Base.Bytes.{Bytes}
use channel.Base.Maps.{
  lookup, lookup-insert, lookup-insert_self, bytes_eq, bytes_beq, bytes_beq_iff,
}
use channel.Logging.{
  LoggerCache, load_or_store, store_unless, default_area_logger, HandlerOp, attrs_op, group_op,
  with_attrs, with_group, SlogHandlers,
}

-- A call of WithAttrs or WithGroup on a logger's handler, with any argument.
unfoldable pub handler_call : HandlerOp → List HandlerOp → List HandlerOp
unfolding with_attrs with_group
handler_call (attrs_op as') ops = with_attrs as' ops
handler_call (group_op name) ops = with_group name ops

unfoldable pub handler_calls : List HandlerOp → List HandlerOp → List HandlerOp
unfolding handler_call
handler_calls [] ops = ops
handler_calls (c ∷ cs) ops = handler_calls cs (handler_call c ops)

module _ {H : Type 0} (slog : SlogHandlers H) where
  -- The same call on a handler of slog.
  unfoldable pub slog_call : HandlerOp → H → H
  slog_call (attrs_op as') h = slog.attrs_of as' h
  slog_call (group_op name) h = slog.group_of name h

  unfoldable pub slog_calls : List HandlerOp → H → H
  unfolding slog_call
  slog_calls [] h = h
  slog_calls (c ∷ cs) h = slog_calls cs (slog_call c h)

store_unless-keeps :
    (o : Option ℕ) (n name : Bytes) (logger : ℕ) (c : LoggerCache)
    → o ≡ lookup n c.loggers
    → lookup name c.loggers ≡ some logger
    → lookup name (store_unless o n c).1.loggers ≡ some logger
store_unless-keeps (some l) n name logger c seen cached = cached
store_unless-keeps none n name logger c seen cached = elim (Bool-cases (bytes_beq n name)) [
  | inl same ↦ let e = (bytes_beq_iff n name).0 same in absurd (cc (e, seen, cached))
  | inr other ↦ lookup-insert n name c.made c.loggers ∙ (rw other cached)
]

-- Others' calls of `LoadOrStore`, for any names.
unfoldable pub run_stores : List Bytes → LoggerCache → LoggerCache
unfolding load_or_store
run_stores [] c = c
run_stores (n ∷ ns) c = run_stores ns (load_or_store n c).1

run_stores-keeps :
    (ns : List Bytes) (name : Bytes) (logger : ℕ) (c : LoggerCache)
    → lookup name c.loggers ≡ some logger
    → lookup name (run_stores ns c).loggers ≡ some logger
unfolding run_stores load_or_store
run_stores-keeps [] name logger c cached = cached
run_stores-keeps (n ∷ ns) name logger c cached =
    run_stores-keeps ns name logger (load_or_store n c).1
      (store_unless-keeps (lookup n c.loggers) n name logger c refl cached)

stored-cached :
    (name : Bytes) (c : LoggerCache)
    → lookup name (load_or_store name c).1.loggers ≡ some (load_or_store name c).0
unfolding load_or_store
stored-cached name c = elim (Option-cases (lookup name c.loggers)) [
  | inl missing ↦ rw missing (lookup-insert_self name c.made c.loggers)
  | inr (logger, cached) ↦ rw cached cached
]

-- However goroutines interleave, two calls for one name get one logger: a call that found none in the
-- cache, whatever others stored before it came to store its own, and any call that looks later on.
pub one_logger_per_name :
    (name : Bytes) (others : List Bytes) (c : LoggerCache) (seen : Option ℕ)
    → seen ≡ lookup name (run_stores others (default_area_logger none name c).1).loggers
    → (default_area_logger seen name (run_stores others (default_area_logger none name c).1)).0
      ≡ (default_area_logger none name c).0
unfolding default_area_logger
one_logger_per_name name others c seen looked =
    let kept =
      run_stores-keeps others name (load_or_store name c).0 (load_or_store name c).1
        (stored-cached name c) in
    rw (looked ∙ kept) refl
