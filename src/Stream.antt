-- ===== src/Stream.antt =====
-- The asyncio stream of a connection, which is not part of the repository: what its reads give is
-- a script that the caller chooses, one entry for each `await asyncio.wait_for(reader.read(n), t)`.
-- `reader.read(n)` returns `n` bytes at most, and no bytes at the end of the stream.
use luxpower_ha_integration.Base.{
  ℕ, List, [], ◌∷◌, take, Outcome, Exception, ok, raised, timeout_error,
}
use luxpower_ha_integration.Packet.Bytes.{Bytes}

pub data ReadOutcome : Type 0 where
  received : Bytes → ReadOutcome
  fails : Exception → ReadOutcome

abbrev pub Script : Type 0
Script = List ReadOutcome

-- One read; when the script has no entry left nothing arrives, and the read times out.
unfoldable pub read : ℕ → Script → Outcome Bytes × Script
read n [] = (raised timeout_error, [])
read n (received bytes ∷ script) = (ok (take n bytes), script)
read n (fails e ∷ script) = (raised e, script)
