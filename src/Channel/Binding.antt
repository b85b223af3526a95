-- ===== src/Channel/Binding.antt =====
-- bind.go: what a Binding registers, BindHandlers, and the binders. A BindHandler is what it does to the
-- channel that is set up, and the error that it returns; nil is none.
use channel.Base.{ℕ, List, [], ◌∷◌, ◌++◌, Option, none, some}
use channel.Base.Maps.{insert, nat_eq}
use channel.Channel.{ChannelImpl}

unfoldable pub add_receive_handler : ℕ → ℕ → ChannelImpl → ChannelImpl
unfolding insert
add_receive_handler content_type h c = record c {
  receive_handlers = insert content_type h c.receive_handlers;
}

unfoldable pub add_peek_handler : ℕ → ChannelImpl → ChannelImpl
add_peek_handler h c = record c { peek_handlers = c.peek_handlers ++ (h ∷ []) }

unfoldable pub add_transform_handler : ℕ → ChannelImpl → ChannelImpl
add_transform_handler h c = record c { transform_handlers = c.transform_handlers ++ (h ∷ []) }

unfoldable pub add_error_handler : ℕ → ChannelImpl → ChannelImpl
add_error_handler h c = record c { error_handlers = c.error_handlers ++ (h ∷ []) }

unfoldable pub add_close_handler : ℕ → ChannelImpl → ChannelImpl
add_close_handler h c = record c { close_handlers = c.close_handlers ++ (h ∷ []) }

-- `AddReceiveHandlers`, of handlers with their content types.
unfoldable pub add_receive_handlers : List (ℕ × ℕ) → ChannelImpl → ChannelImpl
unfolding add_receive_handler
add_receive_handlers [] c = c
add_receive_handlers ((content_type, h) ∷ hs) c =
    add_receive_handlers hs (add_receive_handler content_type h c)

abbrev pub BindHandler : Type 0
BindHandler = ChannelImpl → ChannelImpl × Option ℕ

abbrev and_bind : ChannelImpl × Option ℕ → BindHandler → ChannelImpl × Option ℕ
and_bind (c, none) next = next c
and_bind (c, some e) next = (c, some e)

-- A nil handler is passed over.
unfoldable pub bind_one : Option BindHandler → BindHandler
bind_one none c = (c, none)
bind_one (some h) c = h c

-- The loop of the handler that `BindHandlers` makes.
unfoldable pub bind_in_turn : List (Option BindHandler) → BindHandler
unfolding bind_one
bind_in_turn [] c = (c, none)
bind_in_turn (h ∷ hs) c = and_bind (bind_one h c) (bind_in_turn hs)

-- `BindHandlers`: a single handler, nil as well, is returned as it is.
unfoldable pub bind_handlers : List (Option BindHandler) → Option BindHandler
unfolding bind_in_turn
bind_handlers (h ∷ []) = h
bind_handlers hs = some (bind_in_turn hs)

-- `MakeBinder(handler).bind(ch)`
unfoldable pub bind_with : Option BindHandler → BindHandler
unfolding bind_one
bind_with handler c = bind_one handler c
