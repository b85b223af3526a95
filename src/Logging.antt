-- ===== src/Logging.antt =====
-- logging.go: which logger a name gets, the cache of the loggers that follow the process default, and
-- the handler behind them, which records its WithAttrs and WithGroup calls and replays them for each
-- record onto the default of that moment. A logger of the application, an attribute and a logger that
-- was made here are numbers; the handlers of log/slog and what they do are parameters.
pub mod Following
use channel.Base.{
  ℕ, ◌+◌, ◌==◌, ◌≡◌, List, [], ◌∷◌, ◌++◌, Bool, true, false, Option, none, some, if◌then◌else◌,
}
use channel.Base.Bytes.{Bytes}
use channel.Base.Maps.{Map, lookup, insert, bytes_eq}

abbrev pub Resolver : Type 0
Resolver = Bytes → Option ℕ

-- `SetLoggerFor` and `getLoggerFor`, on the resolver that is installed.
unfoldable pub set_logger_for : Resolver → Option Resolver → Option Resolver
set_logger_for resolver installed = some resolver

unfoldable pub get_logger_for : Option Resolver → Option Resolver
get_logger_for installed = installed

pub data Logger : Type 0 where
  application_logger : ℕ → Logger
  area_logger : ℕ → Logger

-- `defaultLoggerByName`, and how many loggers were made.
pub record LoggerCache : Type 0 where
  pub loggers : Map Bytes ℕ
  pub made : ℕ

-- `LoadOrStore`, of a logger that was made for it.
abbrev pub store_unless : Option ℕ → Bytes → LoggerCache → ℕ × LoggerCache
store_unless (some logger) name c = (logger, record c { made = c.made + 1 })
store_unless none name c =
    (c.made, record c { loggers = insert name c.made c.loggers; made = c.made + 1 })

unfoldable pub load_or_store : Bytes → LoggerCache → ℕ × LoggerCache
unfolding lookup insert
load_or_store name c = store_unless (lookup name c.loggers) name c

-- `defaultAreaLogger`, from what its `Load` saw; others may have stored between the two.
unfoldable pub default_area_logger : Option ℕ → Bytes → LoggerCache → ℕ × LoggerCache
unfolding load_or_store
default_area_logger (some logger) name c = (logger, c)
default_area_logger none name c = load_or_store name c

abbrev area : ℕ × LoggerCache → Logger × LoggerCache
area (logger, c) = (area_logger logger, c)

abbrev resolved_or : Option ℕ → Option ℕ → Bytes → LoggerCache → Logger × LoggerCache
resolved_or (some logger) seen name c = (application_logger logger, c)
resolved_or none seen name c = area (default_area_logger seen name c)

-- `resolveArea`: a resolver may give nil.
unfoldable pub resolve_area :
    Option Resolver → Option ℕ → Bytes → LoggerCache → Logger × LoggerCache
unfolding default_area_logger
resolve_area none seen name c = area (default_area_logger seen name c)
resolve_area (some resolver) seen name c = resolved_or (resolver name) seen name c

-- `For`
unfoldable pub for_name : Option Resolver → Option ℕ → Bytes → LoggerCache → Logger × LoggerCache
unfolding resolve_area get_logger_for
for_name installed seen name c = resolve_area (get_logger_for installed) seen name c

-- `resolveEventLogger`, with the logger of the options, where there are options with one.
unfoldable pub resolve_event_logger :
    Option ℕ → Option Resolver → Option ℕ → Bytes → LoggerCache → Logger × LoggerCache
unfolding resolve_area
resolve_event_logger (some logger) resolver seen name c = (application_logger logger, c)
resolve_event_logger none resolver seen name c = resolve_area resolver seen name c

-- A `handlerOp`: a call of WithAttrs or one of WithGroup.
pub data HandlerOp : Type 0 where
  attrs_op : List ℕ → HandlerOp
  group_op : Bytes → HandlerOp

-- `WithAttrs` and `WithGroup` of a `defaultHandler`.
unfoldable pub with_attrs : List ℕ → List HandlerOp → List HandlerOp
with_attrs [] ops = ops
with_attrs (a ∷ as') ops = ops ++ (attrs_op (a ∷ as') ∷ [])

unfoldable pub with_group : Bytes → List HandlerOp → List HandlerOp
with_group [] ops = ops
with_group (b ∷ bs) ops = ops ++ (group_op (b ∷ bs) ∷ [])

-- What the program uses of a slog handler: a call with nothing to add gives the receiver.
pub record SlogHandlers (H : Type 0) : Type 0 where
  pub attrs_of : List ℕ → H → H
  pub group_of : Bytes → H → H
  pub no_attrs : (h : H) → attrs_of [] h ≡ h
  pub no_group : (h : H) → group_of [] h ≡ h

-- A handler that is the default: one of channel's own, or another.
pub data Target (H : Type 0) : Type 0 where
  delegating : List HandlerOp → Target H
  other_handler : H → Target H

module _ {H : Type 0} (slog : SlogHandlers H) where
  unfoldable pub replay_op : HandlerOp → H → H
  replay_op (group_op []) h = slog.attrs_of [] h
  replay_op (group_op (b ∷ bs)) h = slog.group_of (b ∷ bs) h
  replay_op (attrs_op as') h = slog.attrs_of as' h

  -- `replay`
  unfoldable pub replay : List HandlerOp → H → H
  unfolding replay_op
  replay [] h = h
  replay (op ∷ ops) h = replay ops (replay_op op h)

  -- `nonDelegating`, with the fallback handler.
  unfoldable pub non_delegating : H → Target H → H
  non_delegating fallback (delegating ops) = fallback
  non_delegating fallback (other_handler h) = h

  -- `resolve`, at a time when the default is `target`.
  unfoldable pub resolve : H → Target H → List HandlerOp → H
  unfolding replay non_delegating
  resolve fallback target ops = replay ops (non_delegating fallback target)
