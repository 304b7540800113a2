-- ===== src/Room/Manager/Guarantees.antt =====
-- What the clients of room_manager.cpp can rely on: healthy rooms, complete catch-up for a client
-- that reconnects, one room for a match, and a store that is told of every result.
use realtime_game_backend.Base.{◌≡◌, refl, List, false, Option, some, none, arith}
use realtime_game_backend.Base.Int.{ℤ}
use realtime_game_backend.Base.Bytes.{Bytes, ==_iff, is_empty, bad_id}
use realtime_game_backend.Base.Dict.{find, find-update}
use realtime_game_backend.Room.Types.{
  RoomPhase, RoomSnapshotRecord, MatchResultRecord, max_id_length,
}
use realtime_game_backend.Room.Battle.State.{BattleRoom, snapshot}
use realtime_game_backend.Room.Battle.Results.{result, mark_result_persisted, mark_result_failed}
use realtime_game_backend.Room.Battle.Bounds.{bounds, make_room-IsBounded}
use realtime_game_backend.Room.Battle.Verdict.{verdicts, make_room-HasVerdict}
use realtime_game_backend.Room.Battle.Timeline.{IsTimeline, timelines, make_room-IsTimeline}
use realtime_game_backend.Room.Battle.Resume.{Consecutive, snapshots_after-Consecutive}
use realtime_game_backend.Room.Manager.State.{
  RoomManager, CreateOutcome, empty_manager, create, create_known, create_new, any_bad_id,
  reap_expired, begin_shutdown,
}
use realtime_game_backend.Room.Manager.Queries.{
  SnapshotRangeOutcome, get_snapshots_since, range_of, range_answer,
}
use realtime_game_backend.Room.Manager.Ticking.{
  Writers, WriteStatus, claim_result, settle_result, persist_one, write_result,
}
use realtime_game_backend.Room.Manager.Steps.{Reach, later, reaps}
use realtime_game_backend.Room.Manager.Index.{IsIndexed, IsIndexed-empty}
use realtime_game_backend.Room.Manager.Invariant.{AllRooms}
use realtime_game_backend.Room.Manager.Restart.{RoomSnapshotRow, restore, restore-IsIndexed}
use realtime_game_backend.Room.Manager.Restored.{IsHealthy, IsSoundLoad, restore-IsHealthy}
use realtime_game_backend.Room.Manager.Safety.{Reach-AllRooms}

module _ {ℓ} {W : Type ℓ} (save : Option (RoomSnapshotRecord → W → WriteStatus × W))
    (loaded : Option (Option (List RoomSnapshotRow))) (start : ℤ) (world : W) where
  -- The manager that room_main.cpp starts to serve with.
  abbrev pub restored_manager : RoomManager
  restored_manager = (restore save loaded start empty_manager world).0.0

  restored_manager-IsIndexed : IsIndexed restored_manager
  restored_manager-IsIndexed =
      restore-IsIndexed save loaded start empty_manager world IsIndexed-empty

  restored_manager-IsHealthy : IsSoundLoad loaded → AllRooms IsHealthy restored_manager
  restored_manager-IsHealthy sound =
      restore-IsHealthy save loaded start empty_manager world sound (unfold find in λ id r e. cc)

  -- A new manager restores its rooms from a store, and then takes calls. The rows that it reads without a
  -- problem are sound: they pass the validation, a game that has not started is at frame 0, in one that
  -- is played both players have joined and the frame is below the limit, and the verdict goes with
  -- the phase; the validation alone does not say so.
  -- There may be no rows, no reader, or no readable store. Then after any interleaving of calls,
  -- whatever the stores answer, every room is within its bounds, has the verdict that goes with its
  -- phase, and has a gapless history.
  pub Reach-IsHealthy :
      (s : RoomManager) (id : Bytes) (r : BattleRoom)
      → IsSoundLoad loaded
      → Reach restored_manager s
      → find id s.rooms ≡ some r
      → IsHealthy r
  Reach-IsHealthy s id r sound l e =
      let h = restored_manager-IsHealthy sound in
      let v = restored_manager-IsIndexed in
      record {
        bounded = Reach-AllRooms bounds make_room-IsBounded l v (λ i q f. (h i q f).bounded) id r e;
        verdict =
            Reach-AllRooms verdicts make_room-HasVerdict l v (λ i q f. (h i q f).verdict) id r e;
        timeline =
            Reach-AllRooms timelines make_room-IsTimeline l v (λ i q f. (h i q f).timeline) id r e;
      }

range_of-Consecutive :
    (room : BattleRoom) (since : ℤ)
    → IsTimeline room
    → (range_of room since).outcome ≡ SnapshotRangeOutcome.ok
    → Consecutive since (range_of room since).snapshots room.frame
unfolding range_of
range_of-Consecutive room since v e =
    snapshots_after-Consecutive since room v (ground arith) (ground arith)

range_answer-Consecutive :
    (o : Option BattleRoom) (since : ℤ)
    → ((room : BattleRoom) → o ≡ some room → IsTimeline room)
    → (range_answer o since).outcome ≡ SnapshotRangeOutcome.ok
    → Consecutive since (range_answer o since).snapshots (range_answer o since).latest_frame
unfolding range_of
range_answer-Consecutive none since v e = absurd (ground arith)
range_answer-Consecutive (some room) since v e = range_of-Consecutive room since (v room refl) e

-- A new manager restores its rooms from a store, and then takes calls. The rows that it reads without a
-- problem are sound: they pass the validation, a game that has not started is at frame 0, in one that is
-- played both players have joined and the frame is below the limit, and the verdict goes with the
-- phase; the validation alone does not say so. There may be no rows, no reader, or no readable store. Then after any interleaving of calls, whatever the stores
-- answer: if `get_snapshots_since` answers `ok`, its snapshots are one for each frame after `since` up
-- to the latest, in order, and the latest frame that it names is that of the last.
pub get_snapshots_since-Consecutive {ℓ} :
    {W : Type ℓ} (save : Option (RoomSnapshotRecord → W → WriteStatus × W))
    (loaded : Option (Option (List RoomSnapshotRow))) (start : ℤ) (world : W) (s : RoomManager)
    (id : Bytes) (since now : ℤ)
    → IsSoundLoad loaded
    → Reach (restored_manager save loaded start world) s
    → (get_snapshots_since id since now s).1.outcome ≡ SnapshotRangeOutcome.ok
    → Consecutive since
        (get_snapshots_since id since now s).1.snapshots
        (get_snapshots_since id since now s).1.latest_frame
unfolding get_snapshots_since
get_snapshots_since-Consecutive save loaded start world s id since now sound l e =
    range_answer-Consecutive (find id (reap_expired now s).rooms) since
      (λ room f.
        (Reach-IsHealthy save loaded start world (reap_expired now s) id room sound
          (later l (reaps now)) f).timeline)
      e

-- A match that has a room keeps it: a second creation changes nothing and answers with that room.
pub create_again :
    (s : RoomManager) (room_id : Bytes) (r : BattleRoom) (ids : List Bytes) (now : ℤ)
    (fresh : Bytes)
    → IsIndexed s
    → find room_id s.rooms ≡ some r
    → bad_id max_id_length r.match_id ≡ false
    → any_bad_id ids ≡ false
    → is_empty ids ≡ false
    → create r.match_id ids now fresh s
      ≡ (s, record { outcome = CreateOutcome.ok; room = some (room_id, snapshot r) })
unfolding create create_known
create_again s room_id r ids now fresh v e a b c =
    ground (arith, v.indexed room_id r e, v.own_id room_id r e)

-- While the manager shuts down, the creation of a room for a match that has none is refused and
-- changes nothing.
pub create_shutting_down :
    (s : RoomManager) (match_id : Bytes) (ids : List Bytes) (now : ℤ) (fresh : Bytes)
    → find match_id s.match_index ≡ none
    → bad_id max_id_length match_id ≡ false
    → any_bad_id ids ≡ false
    → is_empty ids ≡ false
    → create match_id ids now fresh (begin_shutdown s)
      ≡ (begin_shutdown s, record { outcome = CreateOutcome.shutting_down; room = none })
unfolding create create_known create_new begin_shutdown
create_shutting_down s match_id ids now fresh e a b c = ground arith

-- The room that a write of its result with the status `status` leaves.
abbrev pub after_write : WriteStatus → ℤ → BattleRoom → BattleRoom
after_write WriteStatus.ok now r = record r { phase = RoomPhase.finished }
after_write WriteStatus.unavailable now r = record r { last_persist_attempt_ms = now }

claimed :
    (s : RoomManager) (id : Bytes) (r : BattleRoom) (m : MatchResultRecord)
    → find id s.rooms ≡ some r
    → r.phase ≡ RoomPhase.finishing
    → result r ≡ some m
    → claim_result id s ≡ some m
unfolding claim_result
claimed s id r m e p f = ground arith

find-settle_result :
    (s : RoomManager) (id : Bytes) (r : BattleRoom) (now : ℤ) (status : WriteStatus)
    → find id s.rooms ≡ some r
    → r.phase ≡ RoomPhase.finishing
    → find id (settle_result id now status s).rooms ≡ some (after_write status now r)
unfolding settle_result mark_result_persisted mark_result_failed
find-settle_result s id r now WriteStatus.ok e p =
    ground (arith, find-update id id mark_result_persisted s.rooms, ==_iff id id)
find-settle_result s id r now WriteStatus.unavailable e p =
    ground (arith, find-update id id (mark_result_failed now) s.rooms, ==_iff id id)

-- A round of the loop of `Tick` for a room whose game is over hands the room's own result to the
-- store, once; the room counts as finished exactly if the store took it, and otherwise keeps its
-- result and waits for the retry interval from now on.
pub persist_one-after_write :
    {W : Type 0} (w : Writers W) (s : RoomManager) (id : Bytes) (r : BattleRoom)
    (m : MatchResultRecord) (now : ℤ) (world : W)
    → find id s.rooms ≡ some r
    → r.phase ≡ RoomPhase.finishing
    → result r ≡ some m
    → (find id (persist_one w id now s world).0.rooms
        ≡ some (after_write (write_result w m world).0 now r))
      × ((persist_one w id now s world).1 ≡ (write_result w m world).1)
unfolding persist_one
persist_one-after_write w s id r m now world e p f =
    rw (claimed s id r m e p f, persist_one)
      (find-settle_result s id r now (write_result w m world).0 e p, refl)
