-- ===== src/Examples/Store.antt =====
-- The text format of match_queue_store.cpp at concrete inputs.
use realtime_game_backend.Base.{some, ◌≡◌, refl, [], ◌∷◌, arith}
use realtime_game_backend.Base.Int.{pos}
use realtime_game_backend.Base.Bytes.{codes}
use realtime_game_backend.Match.Queue.Saving.{SnapshotEntryKind, MatchQueueEntry}
use realtime_game_backend.Match.Store.Codec.{encode_entry, decode_entry, line_of}
use realtime_game_backend.Match.Store.RoundTrip.{canonical, decode_entry-encode_entry}

abbrev matched : MatchQueueEntry
matched = record {
  kind = SnapshotEntryKind.matched;
  player_id = codes "a";
  queued_at_ms = pos 5;
  match_id = codes "m1";
  room_id = codes "r1";
  player_ids = codes "a" ∷ codes "b" ∷ [];
  stamp_ms = pos 77;
}

matched_text : encode_entry matched ≡ some (line_of matched)
unfolding encode_entry
matched_text = refl

decode_entry-encode_entry_example :
    decode_entry (line_of matched) ≡ record { entry = canonical matched; problem = [] }
decode_entry-encode_entry_example =
    decode_entry-encode_entry matched (line_of matched) (ground arith) (ground arith) matched_text
