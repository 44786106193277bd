-- ===== src/Session/Connect.antt =====
-- classes/read_session.py: connecting, with the keepalive of the socket, and reconnecting, as under
-- the lifecycle lock. What the connector gives is an outcome.
use luxpower_ha_integration.Base.{
  ℕ, ◌+◌, Bool, true, false, not, Option, some, ◌==◌, if◌then◌else◌, Outcome, Exception, ok, raised,
  timeout_error, connection_error, os_error, connect_failed, session_closed,
}
use luxpower_ha_integration.Base.Exec.{Exec}
use luxpower_ha_integration.Session.{Counters, Keepalive, LuxReadSession, is_connected, new_decoder}
use luxpower_ha_integration.Session.Lifecycle.{async_close}

-- What the writer and the platform make of _configure_tcp_keepalive's calls.
pub record Transport : Type 0 where
  pub has_extra_info : Bool
  pub extra_info : Outcome (Option Bool)
  pub keepalive_option : Outcome (Unit {0})
  pub has_idle_option : Bool
  pub idle_option : Outcome (Unit {0})

abbrev pub count_unavailable : Keepalive → Keepalive
count_unavailable self = record self {
  configuration_unavailable = self.configuration_unavailable + 1;
}

abbrev pub count_failure : Keepalive → Keepalive
count_failure self = record self { configuration_failures = self.configuration_failures + 1 }

-- The idle time, once keepalive is on.
abbrev pub configure_idle : Transport → Keepalive → Keepalive
configure_idle transport self =
    if not transport.has_idle_option then count_unavailable self else elim transport.idle_option [
      | raised e ↦ count_failure self
      | ok t ↦ record self { idle_applied_connections = self.idle_applied_connections + 1 }
    ]

-- The socket that `get_extra_info("socket")` returns: none, or whether it has `setsockopt`.
abbrev pub configure_socket : Option Bool → Transport → Keepalive → Keepalive
configure_socket (some true) transport self = elim transport.keepalive_option [
  | raised e ↦ count_failure self
  | ok t ↦
      configure_idle transport (record self { applied_connections = self.applied_connections + 1 })
]
configure_socket _ transport self = count_unavailable self

-- _configure_tcp_keepalive
unfoldable pub configure_tcp_keepalive : (enabled : Bool) → Transport → Keepalive → Keepalive
configure_tcp_keepalive enabled transport self =
    if not enabled
    then self
    else if not transport.has_extra_info
    then count_unavailable self
    else elim transport.extra_info [
      | raised e ↦ count_failure self
      | ok found ↦ configure_socket found transport self
    ]

-- (asyncio.TimeoutError, ConnectionError, OSError)
abbrev pub is_connect_error : Exception → Bool
is_connect_error timeout_error = true
is_connect_error connection_error = true
is_connect_error os_error = true
is_connect_error _ = false

-- A connection that was opened.
unfoldable pub connected_session : Transport → LuxReadSession → LuxReadSession
connected_session transport self = record self {
  keepalive = configure_tcp_keepalive self.config.tcp_keepalive transport self.keepalive;
  generation = self.generation + 1;
  decoder = new_decoder;
  has_writer = true;
  has_reader_task = true;
  active_connection_generation = some (self.generation + 1);
  connection_lost = false;
  counters = record self.counters { connections = self.counters.connections + 1 };
  requests_on_generation = 0;
}

-- The connector's outcome, behind the counted attempt.
unfoldable pub connect_with : Outcome Transport → Exec LuxReadSession (Unit {0})
connect_with (ok transport) self = (connected_session transport self, ok tt)
connect_with (raised e) self =
    if is_connect_error e
    then (
      record self {
        counters = record self.counters {
          connection_failures = self.counters.connection_failures + 1;
        };
      },
      raised connect_failed,
    )
    else (self, raised e)

abbrev pub count_attempt : Counters → Counters
count_attempt counters = record counters { connection_attempts = counters.connection_attempts + 1 }

-- _connect_locked, and async_connect, which runs it in the lock
unfoldable pub async_connect : Outcome Transport → Exec LuxReadSession (Unit {0})
async_connect connector self =
    if is_connected self
    then (self, ok tt)
    else connect_with connector (record self { counters = count_attempt self.counters })

-- async_reconnect up to its delay: the closed session, and the generation it expects to find
unfoldable pub reconnect_begin : LuxReadSession → LuxReadSession × ℕ
reconnect_begin self = (async_close self, self.generation + 1)

-- async_reconnect from its delay on
unfoldable pub reconnect_end :
    (closed_generation : ℕ) → Outcome Transport → Exec LuxReadSession (Unit {0})
reconnect_end closed_generation connector self =
    if not (self.generation == closed_generation)
    then (self, raised session_closed)
    else async_connect connector self
