-- ===== src/Session/Reach.antt =====
-- classes/read_session.py: the sessions that can come about, by a relation of one step. A step is a
-- whole operation, a round of a reader loop, or a part of a read between two of its waits, in any
-- order; a loop and the number of a read are of any kind. A read that is given up closes its
-- connection in a later step, `closes`.
pub mod Reads
pub mod Snapshot
pub mod History
pub mod Late
pub mod Counts
pub mod Rounds
pub mod Kept
pub mod Connections
pub mod Shown
use luxpower_ha_integration.Base.{ℕ, ◌≡◌, Option, some, Outcome}
use luxpower_ha_integration.Session.{Config, LuxReadSession, Subscriptions}
use luxpower_ha_integration.Session.Lifecycle.{new_session, async_close}
use luxpower_ha_integration.Session.Connect.{Transport, async_connect, reconnect_end}
use luxpower_ha_integration.Session.Reader.{ReaderLoop, Arrival, read_round}
use luxpower_ha_integration.Session.Request.{begin_read, ReadEnding, finish_read}

pub data Step (self : LuxReadSession) : LuxReadSession → Type 0 where
  connects : (connector : Outcome Transport) → Step self (async_connect connector self).0
  closes : Step self (async_close self)
  reconnects :
      (closed_generation : ℕ) (connector : Outcome Transport)
      → Step self (reconnect_end closed_generation connector self).0
  reads :
      (loop : ReaderLoop) (arrival : Arrival) (now : ℕ)
      → Step self (read_round loop arrival now self)
  begins :
      (start count : ℕ) (timeout drain_timeout reply_timeout : Option ℕ) (now : ℕ)
      → Step self (begin_read start count timeout drain_timeout reply_timeout now self).0
  -- The read holds the request lock, so that no other is pending.
  finishes :
      (id : ℕ) (ending : ReadEnding)
      → ((other : ℕ) → self.pending ≡ some other → other ≡ id)
      → Step self (finish_read id ending self).0
  -- A subscription is made, read or closed.
  delivers :
      (subscriptions : Subscriptions) → Step self (record self { subscriptions = subscriptions })

pub data Reachable (config : Config) : LuxReadSession → Type 0 where
  starts : Reachable config (new_session config)
  steps :
      {self next : LuxReadSession} → Reachable config self → Step self next → Reachable config next
