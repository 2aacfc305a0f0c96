-- ===== src/NostrFile/Events/Runs.antt =====
-- A chunk event and a fetch of three chunks, and the theorems on them.
use ptransfer_cli.Common.{ℕ, ◌≡◌, refl, List, [], ◌∷◌, some, true, ok, arith}
use ptransfer_cli.Common.Bytes.{codes}
use ptransfer_cli.NostrFile.Events.{Event, ChunkEvent, build_chunk_event, parse_chunk_event}
use ptransfer_cli.NostrFile.Events.RoundTrip.{parse_chunk_event-build_chunk_event}

abbrev transfer_id : List ℕ
transfer_id = codes "c05587dba544d9543610d42f7b7b640d"

abbrev sample : ChunkEvent
sample = record {
  transfer_id = transfer_id;
  index = 3;
  total = 7;
  content = codes "nm=QN";
  created_at = 1_700_000_000;
}

parse_chunk_event-build_chunk_event_example :
    (event : Event) × (build_chunk_event true 5 sample ≡ ok event)
    × (parse_chunk_event event 5 sample.transfer_id ≡ some (sample.index, sample.content))
parse_chunk_event-build_chunk_event_example =
    parse_chunk_event-build_chunk_event 5 sample (omega arith) refl

abbrev wanted : List ℕ
wanted = 1 ∷ 4 ∷ 6 ∷ []
