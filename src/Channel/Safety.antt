-- ===== src/Channel/Safety.antt =====
-- What holds of a channel in every state that it reaches: the close signal is given once, a closed
-- channel holds no open underlay, and all its underlays know its group secret.
use channel.Base.{◌≡◌, ◌≢◌, [], true, if◌then◌else◌}
use channel.Channel.{ChannelImpl, is_multi_underlay_capable}
use channel.Channel.Setup.{Config}
use channel.Channel.Steps.{Running}
use channel.Channel.Effects.{signal_count, AllClosed}
use channel.Channel.Invariant.{AllKnow, Running-Safe}

-- In every state that a channel reaches, the close signal has been given exactly once if the channel
-- is closed and not at all if it is open, whatever ran `Close` and how often.
pub signal_count-Running :
    (config : Config) (c : ChannelImpl)
    → Running config c
    → signal_count c.effects ≡ (if c.is_closed then 1 else 0)
signal_count-Running config c r = (Running-Safe config c r).signalled

-- In every state that a channel reaches, if it is closed then `Close` has been called on each
-- underlay it holds, in whatever order underlays were accepted and the channel closed.
pub closed_holds_no_open :
    (config : Config) (c : ChannelImpl)
    → Running config c
    → c.is_closed ≡ true
    → AllClosed c.effects c.underlays.entries
closed_holds_no_open config c r = (Running-Safe config c r).all_closed

-- In every state that a channel that can grow reaches, its group secret is not empty, and each
-- underlay it holds carries that secret.
pub members_know_secret :
    (config : Config) (c : ChannelImpl)
    → Running config c
    → is_multi_underlay_capable c ≡ true
    → (c.group_secret ≢ []) × AllKnow c.group_secret c.underlays.entries
members_know_secret config c r capable =
    ((Running-Safe config c r).guarded capable, (Running-Safe config c r).all_know)
