-- ===== src/Room/Manager/Restart.antt =====
-- src/room/room_manager.cpp: `Restore` and `RejectSnapshots`, the restart of the room service from
-- stored snapshots. The rows are what the reader of src/room/room_snapshot_reader.hpp returns.
use realtime_game_backend.Base.{
  ◌≡◌, inl, inr, ℕ, suc, Bool, true, false, List, [], ◌∷◌, ◌++◌, Option, some, none, ◌||◌, arith,
  if◌then◌else◌, length, is_some, Bool-cases, Option-cases,
}
use realtime_game_backend.Base.Int.{ℤ}
use realtime_game_backend.Base.Bytes.{Bytes, is_empty, ◌==◌, ==_iff}
use realtime_game_backend.Base.Dict.{find, emplace, find-emplace, UniqueKeys-emplace}
use realtime_game_backend.Room.Types.{RoomPhase, FinishReason, RoomSnapshotRecord}
use realtime_game_backend.Room.Battle.State.{BattleRoom, restore_from}
use realtime_game_backend.Room.Manager.State.{RoomManager}
use realtime_game_backend.Room.Manager.Index.{IsIndexed}
use realtime_game_backend.Room.Manager.Ticking.{WriteStatus}

-- A row that cannot be used carries a problem, which is not empty.
pub record RoomSnapshotRow : Type 0 where
  pub row : RoomSnapshotRecord
  pub problem : Bytes

pub record RestoreReport : Type 0 where
  pub scanned : ℕ
  pub restored : ℕ
  pub rejected : ℕ
  pub load_failed : Bool

-- A round of the loop, for a row that gives a room. The Boolean tells whether the room is taken in.
unfoldable pub take_in : BattleRoom → RoomManager → RoomManager × Bool
take_in r s =
    if is_some (find r.room_id s.rooms) || is_some (find r.match_id s.match_index)
    then (s, false)
    else (
      record s {
        rooms = emplace r.room_id r s.rooms;
        match_index = emplace r.match_id r.room_id s.match_index;
      },
      true,
    )

-- What the loop collects: the manager, the number of rooms taken in, and the rejected snapshots.
pub record Restoring : Type 0 where
  pub manager : RoomManager
  pub restored : ℕ
  pub rejected : List RoomSnapshotRecord

unfoldable pub restore_row : ℤ → RoomSnapshotRow → Restoring → Restoring
restore_row now row x =
    if is_empty row.problem
    then elim (restore_from row.row now) [
      | none ↦ record x { rejected = x.rejected ++ (row.row ∷ []) }
      | some r ↦
          let (s, taken) = take_in r x.manager in
          record x { manager = s; restored = if taken then suc x.restored else x.restored }
    ]
    else record x { rejected = x.rejected ++ (row.row ∷ []) }

unfoldable pub restore_rows : ℤ → List RoomSnapshotRow → Restoring → Restoring
restore_rows now [] x = x
restore_rows now (row ∷ rows) x = restore_rows now rows (restore_row now row x)

-- RejectSnapshots: the records that it writes back, if there is a writer.
unfoldable pub rejected_record : ℤ → RoomSnapshotRecord → RoomSnapshotRecord
rejected_record now rec = record rec {
  phase = RoomPhase.aborted;
  finish_reason = FinishReason.aborted;
  winner_id = [];
  snapshot_at_ms = now;
}

unfoldable pub reject_snapshots {ℓ} :
    {W : Type ℓ}
    → Option (RoomSnapshotRecord → W → WriteStatus × W)
    → ℤ
    → List RoomSnapshotRecord
    → W
    → W
reject_snapshots none now recs world = world
reject_snapshots (some save) now [] world = world
reject_snapshots (some save) now (rec ∷ recs) world =
    reject_snapshots (some save) now recs (save (rejected_record now rec) world).1

-- Restore. No reader, then a reader whose store cannot be read, then rows.
unfoldable pub restore {ℓ} :
    {W : Type ℓ}
    → Option (RoomSnapshotRecord → W → WriteStatus × W)
    → Option (Option (List RoomSnapshotRow))
    → ℤ
    → RoomManager
    → W
    → (RoomManager × W) × RestoreReport
restore save none now s world =
    ((s, world), record { scanned = 0; restored = 0; rejected = 0; load_failed = false })
restore save (some none) now s world =
    ((s, world), record { scanned = 0; restored = 0; rejected = 0; load_failed = true })
restore save (some (some rows)) now s world =
    let x = restore_rows now rows (record { manager = s; restored = 0; rejected = [] }) in
    (
      (x.manager, reject_snapshots save now x.rejected world),
      record {
        scanned = length rows;
        restored = x.restored;
        rejected = length x.rejected;
        load_failed = false;
      },
    )

-- The index after a room is taken in leads to rooms of their matches.
take_in-backed :
    (r : BattleRoom) (s : RoomManager)
    → IsIndexed s
    → (m id : Bytes)
    → (is_some (find r.room_id s.rooms) || is_some (find r.match_id s.match_index)) ≡ false
    → find m (emplace r.match_id r.room_id s.match_index) ≡ some id
    → (q : BattleRoom) × (find id (emplace r.room_id r s.rooms) ≡ some q) × (q.match_id ≡ m)
take_in-backed r s v m id new e = elim (Bool-cases (r.match_id == m)) [
  | inl hit ↦ (
    r,
    ground (
      arith,
      find-emplace r.room_id id r s.rooms,
      find-emplace r.match_id m r.room_id s.match_index,
      ==_iff r.room_id id,
      hit,
      e,
      new,
    ),
    ground (arith, ==_iff r.match_id m, hit),
  )
  | inr miss ↦
      let old : find m s.match_index ≡ some id =
        ground (arith, find-emplace r.match_id m r.room_id s.match_index, miss, e, new) in
      let (q, f, g) = v.backed m id old in
      (q, ground (arith, find-emplace r.room_id id r s.rooms, ==_iff r.room_id id, f, new), g)
]

take_in-IsIndexed : (r : BattleRoom) (s : RoomManager) → IsIndexed s → IsIndexed (take_in r s).0
unfolding take_in
take_in-IsIndexed r s v =
    elim (Bool-cases
      (is_some (find r.room_id s.rooms) || is_some (find r.match_id s.match_index))) [
        | inl known ↦ rw known v
        | inr new ↦ rw new (record {
          unique = UniqueKeys-emplace r.room_id r s.rooms v.unique;
          own_id = λ id q e.
              ground (
                arith,
                find-emplace r.room_id id r s.rooms,
                ==_iff r.room_id id,
                v.own_id id q,
                new,
              );
          indexed = λ id q e. ground (
            arith,
            find-emplace r.room_id id r s.rooms,
            ==_iff r.room_id id,
            v.indexed id q,
            new,
            find-emplace r.match_id q.match_id r.room_id s.match_index,
            ==_iff r.match_id q.match_id,
          );
          backed = λ m id e. take_in-backed r s v m id new e;
        })
      ]

restore_row-IsIndexed :
    (now : ℤ) (row : RoomSnapshotRow) (x : Restoring)
    → IsIndexed x.manager
    → IsIndexed (restore_row now row x).manager
unfolding restore_row
restore_row-IsIndexed now row x v = elim (Bool-cases (is_empty row.problem)) [
  | inr bad ↦ rw bad v
  | inl good ↦ elim (Option-cases (restore_from row.row now)) [
    | inl e ↦ rw (good, restore_row, e) v
    | inr (r, e) ↦ rw (good, restore_row, e) (take_in-IsIndexed r x.manager v)
  ]
]

restore_rows-IsIndexed :
    (now : ℤ) (rows : List RoomSnapshotRow) (x : Restoring)
    → IsIndexed x.manager
    → IsIndexed (restore_rows now rows x).manager
unfolding restore_rows
restore_rows-IsIndexed now [] x v = v
restore_rows-IsIndexed now (row ∷ rows) x v =
    restore_rows-IsIndexed now rows _ (restore_row-IsIndexed now row x v)

-- Whatever rows the store returns, in any order and with any duplicates, a restart leaves the tables
-- of the manager in step: one room for each match, found through the match index.
pub restore-IsIndexed {ℓ} :
    {W : Type ℓ} (save : Option (RoomSnapshotRecord → W → WriteStatus × W))
    (loaded : Option (Option (List RoomSnapshotRow))) (now : ℤ) (s : RoomManager) (world : W)
    → IsIndexed s
    → IsIndexed (restore save loaded now s world).0.0
unfolding restore
restore-IsIndexed save none now s world v = v
restore-IsIndexed save (some none) now s world v = v
restore-IsIndexed save (some (some rows)) now s world v = restore_rows-IsIndexed now rows _ v
