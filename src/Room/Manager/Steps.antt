-- ===== src/Room/Manager/Steps.antt =====
-- The manager under concurrent calls. room_manager.cpp takes its mutex once in a request and several
-- times in `Tick`, and lets it go while it writes to the stores; so what runs at once is one locked
-- block after another, of any calls in any order. A step is one locked block. The answers of the
-- stores and the generated room ids are arbitrary. `Restore` is not a step: room_main.cpp runs it once,
-- before it serves a call, so that it gives the manager from which the steps start.
use realtime_game_backend.Base.{ℕ, ◌≡◌, Bool, List, none}
use realtime_game_backend.Base.Int.{ℤ}
use realtime_game_backend.Base.Bytes.{Bytes}
use realtime_game_backend.Base.Dict.{find}
use realtime_game_backend.Room.Types.{InputKind}
use realtime_game_backend.Room.Manager.State.{
  RoomManager, create, join_room, submit_room_input, set_room_presence, reap_expired,
  begin_shutdown,
}
use realtime_game_backend.Room.Manager.Ticking.{
  WriteStatus, tick_locked, settle_result, abort_records, abort_all,
}

-- The locked block of `AbortUnfinishedGames`.
abbrev pub abort_locked : ℤ → RoomManager → RoomManager
abort_locked now s = record s {
  rooms = abort_all s.rooms now;
  snapshot_state = (abort_records now s.rooms s.snapshot_state).0;
}

-- `creates` supposes what the factory is for: it never returns the id of a room that is there.
pub data Step (s : RoomManager) : RoomManager → Type 0 where
  creates :
      (match_id : Bytes) (ids : List Bytes) (now : ℤ) (fresh : Bytes)
      → find fresh s.rooms ≡ none
      → Step s (create match_id ids now fresh s).0
  joins : (room id : Bytes) (now : ℤ) → Step s (join_room room id now s).0
  submits : (room id : Bytes) (kind : InputKind) → Step s (submit_room_input room id kind s).0
  sets_presence :
      (room id : Bytes) (online : Bool) (now : ℤ)
      → Step s (set_room_presence room id online now s).0
  reaps : (now : ℤ) → Step s (reap_expired now s)
  ticks : (has_writer : Bool) (now : ℤ) → Step s (tick_locked has_writer now s).0
  counts :
      (good bad : ℕ)
      → Step s (record s { snapshot_write_count = good; snapshot_failure_count = bad })
  settles :
      (room : Bytes) (now : ℤ) (status : WriteStatus) → Step s (settle_result room now status s)
  aborts : (now : ℤ) → Step s (abort_locked now s)
  shuts_down : Step s (begin_shutdown s)

pub data Reach (s : RoomManager) : RoomManager → Type 0 where
  here : Reach s s
  later : {t u : RoomManager} → Reach s t → Step t u → Reach s u
