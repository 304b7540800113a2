-- ===== src/Room/Manager/Restored.antt =====
-- What a restart of the room service needs of its stored snapshots: src/room/room_main.cpp runs `Restore`
-- of src/room/room_manager.cpp once, before it serves any call, on the rows that
-- src/room/room_snapshot_reader.cpp accepted.
use realtime_game_backend.Base.{
  ◌≡◌, refl, subst, ◌⊎◌, inl, inr, true, List, [], ◌∷◌, Option, some, none, arith, All, ◌&&◌, ◌||◌,
  is_some, Bool-cases,
}
use realtime_game_backend.Base.Int.{ℤ, pos, ◌<ℤ◌}
use realtime_game_backend.Base.Bytes.{Bytes, is_empty}
use realtime_game_backend.Base.Dict.{find, emplace, find-emplace}
use realtime_game_backend.Room.Types.{
  RoomPhase, FinishReason, PlayerSnapshot, RoomSnapshotRecord, max_frames,
}
use realtime_game_backend.Room.Battle.State.{
  BattleRoom, push_snapshot, trim, rebuild, restored_player,
}
use realtime_game_backend.Room.Battle.Commands.{all_joined}
use realtime_game_backend.Room.Battle.Bounds.{IsBounded}
use realtime_game_backend.Room.Battle.Verdict.{Verdict, HasVerdict}
use realtime_game_backend.Room.Battle.Timeline.{IsTimeline}
use realtime_game_backend.Room.Snapshots.{validate_room_snapshot}
use realtime_game_backend.Room.Recovery.{restore_from-Sizes}
use realtime_game_backend.Room.Manager.State.{RoomManager}
use realtime_game_backend.Room.Manager.Ticking.{WriteStatus, make_snapshot_record, player_record}
use realtime_game_backend.Room.Manager.Invariant.{AllRooms}
use realtime_game_backend.Room.Manager.Restart.{
  RoomSnapshotRow, Restoring, restore, restore_rows, restore_row, take_in, rejected_record,
}

-- The invariants of one room.
pub record IsHealthy (r : BattleRoom) : Type 0 where
  pub bounded : IsBounded r
  pub verdict : HasVerdict r
  pub timeline : IsTimeline r

-- A stored snapshot that passes `ValidateRoomSnapshot`, and whose phase goes with its frame, its players
-- and its verdict, which `ValidateRoomSnapshot` tests in part only.
pub record IsSound (rec : RoomSnapshotRecord) : Type 0 where
  pub accepted : validate_room_snapshot rec ≡ none
  pub not_started :
      (rec.phase ≡ RoomPhase.created) ⊎ (rec.phase ≡ RoomPhase.waiting) → rec.frame ≡ pos 0
  pub started : rec.phase ≡ RoomPhase.playing → (rec.player_0.joined && rec.player_1.joined) ≡ true
  pub in_time : rec.phase ≡ RoomPhase.playing → rec.frame <ℤ max_frames
  pub verdict :
      Verdict rec.phase rec.finish_reason rec.winner_id
        (restored_player rec.player_0 ∷ restored_player rec.player_1 ∷ [])

-- Each row without a problem is sound.
abbrev pub SoundRows : List RoomSnapshotRow → Type 0
SoundRows rows = All (λ row. is_empty row.problem ≡ true → IsSound row.row) rows

-- What the reader of a restart gives, if there is one and its store can be read.
abbrev pub IsSoundLoad : Option (Option (List RoomSnapshotRow)) → Type 0
IsSoundLoad none = Unit {0}
IsSoundLoad (some none) = Unit {0}
IsSoundLoad (some (some rows)) = SoundRows rows

-- A verdict only names players, so it holds of the players as they are restored.
restored_player-Verdict :
    (phase : RoomPhase) (reason : FinishReason) (w : Bytes) (p q : PlayerSnapshot)
    → Verdict phase reason w (p ∷ q ∷ [])
    → Verdict phase reason w
        (restored_player (player_record p) ∷ restored_player (player_record q) ∷ [])
restored_player-Verdict RoomPhase.created reason w p q v = v
restored_player-Verdict RoomPhase.waiting reason w p q v = v
restored_player-Verdict RoomPhase.playing reason w p q v = v
restored_player-Verdict RoomPhase.finishing reason w p q v = v
restored_player-Verdict RoomPhase.finished reason w p q v = v
restored_player-Verdict RoomPhase.aborted reason w p q v = v

-- What a healthy room of two players writes is sound, if the reader accepts it.
pub snapshot-IsSound :
    (r : BattleRoom) (p q : PlayerSnapshot) (now : ℤ)
    → r.players ≡ p ∷ q ∷ []
    → IsHealthy r
    → validate_room_snapshot (make_snapshot_record r now) ≡ none
    → IsSound (make_snapshot_record r now)
unfolding make_snapshot_record all_joined
snapshot-IsSound r p q now two h accepted = record {
  accepted = accepted;
  not_started = h.timeline.not_started;
  started = λ e. ground (arith, h.timeline.started e);
  in_time = h.bounded.frame_room;
  verdict = rw two (
      restored_player-Verdict r.phase r.finish_reason r.winner_id p q
        (rw two at h.verdict.verdict));
}

-- So is what `RejectSnapshots` writes back for a row, if the reader accepts that.
pub rejected-IsSound :
    (rec : RoomSnapshotRecord) (now : ℤ)
    → validate_room_snapshot (rejected_record now rec) ≡ none
    → IsSound (rejected_record now rec)
unfolding rejected_record
rejected-IsSound rec now accepted = record {
  accepted = accepted;
  not_started = ground arith;
  started = ground arith;
  in_time = ground arith;
  verdict = (refl, refl);
}

rebuild-IsHealthy : (rec : RoomSnapshotRecord) (now : ℤ) → IsSound rec → IsHealthy (rebuild rec now)
unfolding rebuild push_snapshot trim all_joined
rebuild-IsHealthy rec now s =
    let (same, sizes, low, high) = restore_from-Sizes rec now s.accepted in
    record {
      bounded = record {
        sizes = sizes;
        frame_nonneg = low;
        frame_bound = high;
        frame_room = s.in_time;
      };
      verdict = record { verdict = s.verdict };
      timeline = record {
        linked = refl;
        bounded = omega arith;
        not_started = s.not_started;
        started = λ e. ground (arith, s.started e);
      };
    }

take_in-IsHealthy :
    (r : BattleRoom) (s : RoomManager)
    → IsHealthy r
    → AllRooms IsHealthy s
    → AllRooms IsHealthy (take_in r s).0
unfolding take_in
take_in-IsHealthy r s h hs =
    elim (Bool-cases
      (is_some (find r.room_id s.rooms) || is_some (find r.match_id s.match_index))) [
        | inl known ↦ rw known hs
        | inr new ↦ rw new (λ id q e. elim (new_or_old id q e) [
          | inl same ↦ subst IsHealthy same h
          | inr old ↦ hs id q old
        ])
      ]
  where
    new_or_old :
        (id : Bytes) (q : BattleRoom)
        → find id (emplace r.room_id r s.rooms) ≡ some q
        → (r ≡ q) ⊎ (find id s.rooms ≡ some q)
    new_or_old id q e = ground (arith, find-emplace r.room_id id r s.rooms)

restore_row-IsHealthy :
    (now : ℤ) (row : RoomSnapshotRow) (x : Restoring)
    → (is_empty row.problem ≡ true → IsSound row.row)
    → AllRooms IsHealthy x.manager
    → AllRooms IsHealthy (restore_row now row x).manager
unfolding restore_row
restore_row-IsHealthy now row x sound h = elim (Bool-cases (is_empty row.problem)) [
  | inr bad ↦ rw bad h
  | inl good ↦
      let built = (restore_from-Sizes row.row now (sound good).accepted).0 in
      rw (good, restore_row, built)
        (take_in-IsHealthy (rebuild row.row now) x.manager
          (rebuild-IsHealthy row.row now (sound good)) h)
]

restore_rows-IsHealthy :
    (now : ℤ) (rows : List RoomSnapshotRow) (x : Restoring)
    → SoundRows rows
    → AllRooms IsHealthy x.manager
    → AllRooms IsHealthy (restore_rows now rows x).manager
unfolding restore_rows
restore_rows-IsHealthy now [] x sound h = h
restore_rows-IsHealthy now (row ∷ rows) x sound h =
    restore_rows-IsHealthy now rows _ sound.1 (restore_row-IsHealthy now row x sound.0 h)

-- A restart from sound rows gives healthy rooms.
pub restore-IsHealthy {ℓ} :
    {W : Type ℓ} (save : Option (RoomSnapshotRecord → W → WriteStatus × W))
    (loaded : Option (Option (List RoomSnapshotRow))) (now : ℤ) (s : RoomManager) (world : W)
    → IsSoundLoad loaded
    → AllRooms IsHealthy s
    → AllRooms IsHealthy (restore save loaded now s world).0.0
unfolding restore
restore-IsHealthy save none now s world sound h = h
restore-IsHealthy save (some none) now s world sound h = h
restore-IsHealthy save (some (some rows)) now s world sound h =
    restore_rows-IsHealthy now rows _ sound h
