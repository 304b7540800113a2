-- ===== src/Room/Battle/Results.antt =====
-- src/room/battle_room.cpp: the persistence of a result, and the queries on a room.
use realtime_game_backend.Base.{
  Bool, false, List, [], ◌∷◌, Option, some, none, ◌&&◌, if◌then◌else◌, negate,
}
use realtime_game_backend.Base.Int.{ℤ, pos, ◌-ℤ◌, ltb_ℤ, leb_ℤ}
use realtime_game_backend.Room.Types.{
  RoomPhase, RoomSnapshot, MatchResultRecord, result_retry_interval_ms, finished_retention_ms,
  eq_phase,
}
use realtime_game_backend.Room.Battle.State.{BattleRoom}

unfoldable pub mark_result_persisted : BattleRoom → BattleRoom
mark_result_persisted r =
    if eq_phase r.phase RoomPhase.finishing then record r { phase = RoomPhase.finished } else r

unfoldable pub mark_result_failed : ℤ → BattleRoom → BattleRoom
mark_result_failed now r =
    if eq_phase r.phase RoomPhase.finishing then record r { last_persist_attempt_ms = now } else r

unfoldable pub should_retry_persist : ℤ → BattleRoom → Bool
should_retry_persist now r =
    if negate (eq_phase r.phase RoomPhase.finishing)
    then false
    else leb_ℤ result_retry_interval_ms (now -ℤ r.last_persist_attempt_ms)

unfoldable pub result : BattleRoom → Option MatchResultRecord
result r =
    if negate (eq_phase r.phase RoomPhase.finishing) && negate (eq_phase r.phase RoomPhase.finished)
    then none
    else some (record {
      match_id = r.match_id;
      room_id = r.room_id;
      winner_id = r.winner_id;
      player_count = r.player_count;
      started_at_ms = r.started_at_ms;
      finished_at_ms = r.finished_at_ms;
    })

unfoldable pub is_expired : ℤ → BattleRoom → Bool
is_expired now r =
    if negate (eq_phase r.phase RoomPhase.finished) && negate (eq_phase r.phase RoomPhase.aborted)
    then false
    else leb_ℤ finished_retention_ms (now -ℤ r.finished_at_ms)

pub record FrameRange : Type 0 where
  pub oldest : ℤ
  pub newest : ℤ

-- The loop of `SnapshotFrameRange` behind its first round, which takes the first frame for both.
unfoldable pub widen : FrameRange → List RoomSnapshot → FrameRange
widen range [] = range
widen range (s ∷ rest) =
    widen
      (record {
        oldest = if ltb_ℤ s.frame range.oldest then s.frame else range.oldest;
        newest = if ltb_ℤ range.newest s.frame then s.frame else range.newest;
      })
      rest

unfoldable pub snapshot_frame_range : List RoomSnapshot → FrameRange
snapshot_frame_range [] = record { oldest = pos 0; newest = pos 0 }
snapshot_frame_range (s ∷ rest) = widen (record { oldest = s.frame; newest = s.frame }) rest

unfoldable pub max_frame_from : ℤ → List RoomSnapshot → ℤ
max_frame_from m [] = m
max_frame_from m (s ∷ rest) = max_frame_from (if ltb_ℤ m s.frame then s.frame else m) rest

unfoldable pub max_snapshot_frame : List RoomSnapshot → ℤ
unfolding max_frame_from
max_snapshot_frame history = max_frame_from (pos 0) history

abbrev pub eq_frame : ℤ → ℤ → Bool
eq_frame a b = leb_ℤ a b && leb_ℤ b a

-- A round of the loop of `SnapshotsAfter`; the head of `out` is `result.back()`.
unfoldable pub collect : RoomSnapshot → List RoomSnapshot → List RoomSnapshot
collect s [] = s ∷ []
collect s (b ∷ out) = if eq_frame b.frame s.frame then s ∷ out else s ∷ b ∷ out

-- The loop; `out` is `result` from its back to its front.
unfoldable pub collect_after : ℤ → List RoomSnapshot → List RoomSnapshot → List RoomSnapshot
collect_after since [] out = out
collect_after since (s ∷ rest) out =
    collect_after since rest (if leb_ℤ s.frame since then out else collect s out)

abbrev pub backwards {ℓ} : {A : Type ℓ} → List A → List A → List A
backwards acc [] = acc
backwards acc (x ∷ xs) = backwards (x ∷ acc) xs

unfoldable pub snapshots_after : ℤ → BattleRoom → List RoomSnapshot
unfolding collect_after
snapshots_after since r = backwards [] (collect_after since r.history [])
