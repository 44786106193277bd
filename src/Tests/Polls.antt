-- ===== src/Tests/Polls.antt =====
-- Requests, polls and writes on scripted connections: runs, and the theorems at such inputs.
use luxpower_ha_integration.Base.{
  List, ◌++◌, ◌+◌, ◌*◌, ◌%◌, ◌≤◌, ◌≡◌, ◌⊎◌, refl, arith, true, false, some, [], ◌∷◌, length,
  get_elem?, ◌==◌, Outcome, ok, raised, timeout_error, connection_error,
}
use luxpower_ha_integration.Base.Dict.{nat_eq, contains}
use luxpower_ha_integration.Packet.Response.{LxpResponse}
use luxpower_ha_integration.PacketRecovery.{fresh_handler}
use luxpower_ha_integration.Stream.{received, fails}
use luxpower_ha_integration.Validator.{hold}
use luxpower_ha_integration.Client.{
  Config, empty_cache, Cadence, Client, Line, World, fresh_cadence, init, async_connect,
}
use luxpower_ha_integration.Client.Cycle.Schedule.{
  hold_polls_of, battery_polls_of, hold_polls_of-fifth, battery_polls_of-tenth,
}
use luxpower_ha_integration.Client.Request.{registers, register_count, async_request_registers}
use luxpower_ha_integration.Client.Request.Accepts.{
  Accepted, Parsed, async_request_registers-Accepted,
}
use luxpower_ha_integration.Client.Poll.{async_poll_once, poll_settings}
use luxpower_ha_integration.Client.Poll.Requested.{Asks, poll_settings-Asks}
use luxpower_ha_integration.Client.Pass.{
  Pass, poll_hold_block, request, accept_hold, observed_now, range, range_from,
}
use luxpower_ha_integration.Base.Exec.{for_each}
use luxpower_ha_integration.Packet.Bytes.{Bytes}
use luxpower_ha_integration.Client.Poll.Refresh.{async_poll_once-drops_refresh}
use luxpower_ha_integration.Client.Poll.Coherent.{Coherent, Polled, async_poll_once-Polled}
use luxpower_ha_integration.Client.Fetch.{Data, async_get_data}
use luxpower_ha_integration.Client.Fetch.Window.{Fetched, async_get_data-Fetched}
use luxpower_ha_integration.Client.Write
use luxpower_ha_integration.Client.Write.{async_write_register}
use luxpower_ha_integration.Client.Write.Confirmed.{Echoed}
use luxpower_ha_integration.Client.Write.Register.{
  async_write_register-Echoed, async_write_register-Coherent,
}
use luxpower_ha_integration.Tests.{config, hold_packet, ack_packet}

-- A connection refused, and one on which the inverter is silent at first, acknowledges the write, and is silent again.
abbrev world : World
world = record {
  connections = raised connection_error ∷ ok (fails timeout_error ∷ received ack_packet ∷ []) ∷ [];
  clock = λ n. some n;
  unix_time = λ n. n;
  ticks = 0;
}

abbrev line : Line
line = record { packet_recovery = fresh_handler; stream = received hold_packet ∷ []; sent = [] }

init-Coherent : Coherent init.cache
unfolding contains
init-Coherent = record { input_ = λ j. refl; hold_ = λ j. refl; battery_ = λ j. refl }

write_is_done : (async_write_register config 64 100 (init, world)).1 ≡ ok true
unfolding Write.program
write_is_done = refl

async_write_register-Echoed_example : Echoed world.connections 64 100
async_write_register-Echoed_example =
    async_write_register-Echoed config 64 100 init world init-Coherent write_is_done

async_write_register-Coherent_example :
    Coherent (async_write_register config 64 100 (init, world)).0.0.cache
    × (length world.connections
        ≤ length (async_write_register config 64 100 (init, world)).0.1.connections + 3)
async_write_register-Coherent_example =
    async_write_register-Coherent config 64 100 init world init-Coherent

request_is_answered :
    (async_request_registers config 0 hold 3 line).1 ≡ ok (registers ((0, 100) ∷ (1, 300) ∷ []))
unfolding Write.program
request_is_answered = refl

async_request_registers-Accepted_example :
    (registers ((0, 100) ∷ (1, 300) ∷ []) ≡ registers [])
    ⊎ ((response : LxpResponse) × Parsed line.stream (37 + register_count config 0 * 2) response
        × Accepted config 0 hold 3 response (registers ((0, 100) ∷ (1, 300) ∷ [])))
async_request_registers-Accepted_example =
    async_request_registers-Accepted config 0 hold 3 line (registers ((0, 100) ∷ (1, 300) ∷ []))
      request_is_answered

async_poll_once-Polled_example : Polled init.cache (async_poll_once config (init, world))
async_poll_once-Polled_example = async_poll_once-Polled config init world init-Coherent

async_get_data-Fetched_example :
    (self' : Client) × (world' : World) × (outcome : Outcome Data) × (async_get_data config
        (init, world)
      ≡ ((self', world'), outcome))
    × Fetched init self' outcome
async_get_data-Fetched_example = async_get_data-Fetched config init world init-Coherent

-- The settings were read two polls ago.
abbrev two_polls_on : Cadence
two_polls_on = record fresh_cadence { polls_since_hold = 2; force_hold_poll = false }

hold_polls_of-fifth_example :
    get_elem? (hold_polls_of 9 two_polls_on) 7 ≡ some ((2 + 7 + 1) % 5 == 0)
hold_polls_of-fifth_example = hold_polls_of-fifth 9 7 two_polls_on (omega arith) (omega arith) refl

-- Six reads of the battery block were without data.
abbrev no_batteries : Cadence
no_batteries = record fresh_cadence { battery_empty_polls = 6; battery_backoff_counter = 3 }

battery_polls_of-tenth_example :
    get_elem? (battery_polls_of 20 config no_batteries) 6 ≡ some ((3 + 6 + 1) % 10 == 0)
battery_polls_of-tenth_example =
    battery_polls_of-tenth 20 6 config no_batteries (omega arith) refl (omega arith) (omega arith)

first_is_refused : (async_connect world).1 ≡ raised connection_error
unfolding async_connect
first_is_refused = refl

async_poll_once-drops_refresh_example :
    ((async_poll_once config (init, world)).1 ≡ raised connection_error)
    × (get_elem? (hold_polls_of 4 (async_poll_once config (init, world)).0.0.cadence) 3
        ≡ some false)
async_poll_once-drops_refresh_example =
    async_poll_once-drops_refresh config init world connection_error 3 refl first_is_refused
      (omega arith)

-- Two requests cover the settings; the first is answered, with two registers.
abbrev large_blocks : Config
large_blocks = record config { block_size = 375 }

abbrev new_pass : Pass
new_pass = record {
  line = record {
    packet_recovery = fresh_handler;
    stream = received hold_packet ∷ received [] ∷ [];
    sent = [];
  };
  world = world;
  cadence = fresh_cadence;
  newly = empty_cache;
}

settings_are_read : (poll_settings large_blocks true new_pass).1 ≡ ok tt
unfolding Write.program poll_settings poll_hold_block request accept_hold observed_now range
    range_from for_each
settings_are_read = refl

poll_settings-Asks_example :
    (packets : List Bytes) × ((poll_settings large_blocks true new_pass).0.line.sent
      ≡ [] ++ packets)
    × Asks large_blocks 3 0 packets
poll_settings-Asks_example =
    poll_settings-Asks large_blocks new_pass (omega arith) settings_are_read
