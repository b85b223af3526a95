-- ===== src/Handshake/Listening/Config.antt =====
-- classic_listener.go: the configuration of a listener, its worker pool, and its constructors. A
-- configurator of the pool and `goroutines.NewPool`, which is not under this repository, are
-- parameters; acceptors, handlers and strategies are named by numbers.
use channel.Base.{
  ℕ, ◌*◌, ◌%◌, List, [], ◌∷◌, ◌++◌, Bool, true, false, Option, none, some, Result, ok, err,
  if◌then◌else◌,
}
use channel.Base.Bytes.{Bytes, u32_mod}
use channel.Base.Maps.{bytes_beq}
use channel.Message.{Headers}
use channel.Options.{ConnectOptions, default_connect_options, second}
use channel.Handshake.Listening.{ListenerState, new_listener, listen}

pub record PoolConfig : Type 0 where
  pub queue_size : ℕ
  pub min_workers : ℕ
  pub max_workers : ℕ
  pub idle_time : ℕ
  pub watches_close : Bool  -- `CloseNotify` is the listener's

pub record ListenerConfig : Type 0 where
  pub connect_options : ConnectOptions
  pub headers : Headers
  pub headers_f : Option ℕ
  pub transport_config : Option ℕ
  pub pool_configurator : Option (PoolConfig → PoolConfig)
  pub connection_handlers : List ℕ
  pub message_strategy : Option ℕ

unfoldable pub default_listener_config : ListenerConfig
unfolding default_connect_options
default_listener_config = record {
  connect_options = default_connect_options;
  headers = [];
  headers_f = none;
  transport_config = none;
  pool_configurator = none;
  connection_handlers = [];
  message_strategy = none;
}

pub data UnderlayFactory : Type 0 where
  classic_underlays datagram_underlays : UnderlayFactory

pub record ListenerFields : Type 0 where
  pub handlers : List ℕ
  pub acceptor : Option ℕ
  pub connect_options : ConnectOptions
  pub headers : Headers
  pub headers_f : Option ℕ
  pub transport_config : Option ℕ
  pub listener_pool : ℕ
  pub message_strategy : Option ℕ
  pub underlay_factory : UnderlayFactory
  pub state : ListenerState

unfoldable pub apply_configurator : Option (PoolConfig → PoolConfig) → PoolConfig → PoolConfig
apply_configurator none p = p
apply_configurator (some configurator) p = configurator p

-- The pool that the listener asks for: the sizes are cut to 32 bits.
unfoldable pub pool_config : ListenerConfig → PoolConfig
unfolding apply_configurator
pool_config config =
    record (apply_configurator config.pool_configurator (record {
      queue_size = config.connect_options.max_queued_connects % u32_mod;
      min_workers = 1;
      max_workers = config.connect_options.max_outstanding_connects % u32_mod;
      idle_time = 10 * second;
      watches_close = false;
    })) { watches_close = true }

abbrev pub dtls : Bytes
dtls = 100 ∷ 116 ∷ 108 ∷ 115 ∷ []

unfoldable pub underlay_factory_of : Bytes → UnderlayFactory
underlay_factory_of endpoint_type =
    if bytes_beq endpoint_type dtls then datagram_underlays else classic_underlays

pub data Listening (A : Type 0) : Type 0 where
  panics : ℕ → Listening A
  fails : ℕ → Listening A
  listens : A → Listening A

module _ (new_pool : PoolConfig → Result ℕ ℕ) where
  unfoldable pub with_pool : ListenerConfig → Bytes → Result ℕ ℕ → Listening ListenerFields
  unfolding underlay_factory_of new_listener
  with_pool config endpoint_type (err e) = panics e
  with_pool config endpoint_type (ok pool) = listens (record {
    handlers = config.connection_handlers;
    acceptor = none;
    connect_options = config.connect_options;
    headers = config.headers;
    headers_f = config.headers_f;
    transport_config = config.transport_config;
    listener_pool = pool;
    message_strategy = config.message_strategy;
    underlay_factory = underlay_factory_of endpoint_type;
    state = new_listener;
  })

  -- `newClassicListener`
  unfoldable pub new_classic_listener_impl : ListenerConfig → Bytes → Listening ListenerFields
  unfolding with_pool pool_config
  new_classic_listener_impl config endpoint_type =
      with_pool config endpoint_type (new_pool (pool_config config))

  -- `Listen`, with what the endpoint answers: the handlers are added in any case.
  unfoldable pub listen_with : List ℕ → Result ℕ ℕ → ListenerFields → ListenerFields × Option ℕ
  unfolding listen
  listen_with handlers (err e) l = (record l { handlers = l.handlers ++ handlers }, some e)
  listen_with handlers (ok socket) l =
      (record l { handlers = l.handlers ++ handlers; state = listen (some socket) l.state }, none)

  abbrev when_listening : ListenerFields × Option ℕ → Listening ListenerFields
  when_listening (l, none) = listens l
  when_listening (l, some e) = fails e

  abbrev start_accepting : ℕ → Result ℕ ℕ → Listening ListenerFields → Listening ListenerFields
  start_accepting acceptor socket (panics e) = panics e
  start_accepting acceptor socket (fails e) = fails e
  start_accepting acceptor socket (listens l) =
      when_listening (listen_with [] socket (record l { acceptor = some acceptor }))

  -- `NewClassicListenerWithAcceptor`
  unfoldable pub new_classic_listener_with_acceptor :
      ListenerConfig → Bytes → ℕ → Result ℕ ℕ → Listening ListenerFields
  unfolding new_classic_listener_impl listen_with
  new_classic_listener_with_acceptor config endpoint_type acceptor socket =
      start_accepting acceptor socket (new_classic_listener_impl config endpoint_type)
