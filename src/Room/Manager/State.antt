-- ===== src/Room/Manager/State.antt =====
-- src/room/room_manager.hpp and room_manager.cpp: the tables of the room manager, and the requests
-- on single rooms. Each public method runs under the manager's mutex, so each is one function from
-- the state before it to the state after it.
use realtime_game_backend.Base.{
  ℕ, Bool, true, false, List, [], ◌∷◌, Option, some, none, ◌||◌, if◌then◌else◌, negate,
}
use realtime_game_backend.Base.Int.{ℤ}
use realtime_game_backend.Base.Bytes.{Bytes, is_empty, bad_id}
use realtime_game_backend.Base.Dict.{Dict, find, erase, emplace, update, retain}
use realtime_game_backend.Room.Types.{RoomPhase, InputKind, RoomSnapshot, max_id_length}
use realtime_game_backend.Room.Battle.State.{BattleRoom, make_room, snapshot}
use realtime_game_backend.Room.Battle.Commands.{
  JoinOutcome, SubmitOutcome, PresenceOutcome, join, submit_input, set_presence,
}
use realtime_game_backend.Room.Battle.Results.{is_expired}

pub data CreateOutcome : Type 0 where
  ok invalid_argument internal shutting_down : CreateOutcome

pub data ResultOutcome : Type 0 where
  ok not_found pending unavailable : ResultOutcome

pub data ReadStatus : Type 0 where
  ok not_found unavailable : ReadStatus

pub record SnapshotState : Type 0 where
  pub last_write_ms : ℤ
  pub last_phase : RoomPhase
  pub written : Bool

pub record RoomManager : Type 0 where
  pub rooms : Dict BattleRoom
  pub match_index : Dict Bytes
  pub snapshot_state : Dict SnapshotState
  pub snapshot_write_count : ℕ
  pub snapshot_failure_count : ℕ
  pub shutting_down : Bool

abbrev pub empty_manager : RoomManager
empty_manager = record {
  rooms = [];
  match_index = [];
  snapshot_state = [];
  snapshot_write_count = 0;
  snapshot_failure_count = 0;
  shutting_down = false;
}

-- What `Create` returns and writes to its out parameters.
pub record CreateReply : Type 0 where
  pub outcome : CreateOutcome
  pub room : Option (Bytes × RoomSnapshot)

abbrev pub refuse : CreateOutcome → CreateReply
refuse o = record { outcome = o; room = none }

abbrev pub created_reply : Bytes → RoomSnapshot → CreateReply
created_reply id s = record { outcome = CreateOutcome.ok; room = some (id, s) }

unfoldable pub any_bad_id : List Bytes → Bool
unfolding bad_id
any_bad_id [] = false
any_bad_id (id ∷ ids) = bad_id max_id_length id || any_bad_id ids

-- `Create` from the test of `shutting_down_` on. `fresh` is what the room id factory returns.
unfoldable pub create_new : Bytes → List Bytes → ℤ → Bytes → RoomManager → RoomManager × CreateReply
create_new match_id player_ids now fresh s =
    if s.shutting_down
    then (s, refuse CreateOutcome.shutting_down)
    else if is_empty fresh
    then (s, refuse CreateOutcome.internal)
    else (
      record s {
        rooms = emplace fresh (make_room fresh match_id player_ids now) s.rooms;
        match_index = emplace match_id fresh s.match_index;
      },
      created_reply fresh (snapshot (make_room fresh match_id player_ids now)),
    )

-- `Create` from the search for the match on.
unfoldable pub create_known :
    Bytes → List Bytes → ℤ → Bytes → RoomManager → RoomManager × CreateReply
create_known match_id player_ids now fresh s = elim (find match_id s.match_index) [
  | none ↦ create_new match_id player_ids now fresh s
  | some room_id ↦ elim (find room_id s.rooms) [
    | some room ↦ (s, created_reply room.room_id (snapshot room))
    | none ↦
        create_new match_id player_ids now fresh
          (record s { match_index = erase match_id s.match_index })
  ]
]

unfoldable pub create : Bytes → List Bytes → ℤ → Bytes → RoomManager → RoomManager × CreateReply
unfolding bad_id
create match_id player_ids now fresh s =
    if bad_id max_id_length match_id || is_empty player_ids || any_bad_id player_ids
    then (s, refuse CreateOutcome.invalid_argument)
    else create_known match_id player_ids now fresh s

-- The answer of a request on one room: `none` if there is no such room, else the outcome and the
-- room's snapshot after the call.
unfoldable pub on_room {ℓ} :
    {O : Type ℓ}
    → Bytes
    → (BattleRoom → BattleRoom × O)
    → RoomManager
    → RoomManager × Option (O × RoomSnapshot)
on_room room_id call s = elim (find room_id s.rooms) [
  | none ↦ (s, none)
  | some room ↦ (
    record s { rooms = update room_id (λ r. (call r).0) s.rooms },
    some ((call room).1, snapshot (call room).0),
  )
]

unfoldable pub join_room :
    Bytes → Bytes → ℤ → RoomManager → RoomManager × Option (JoinOutcome × RoomSnapshot)
unfolding on_room
join_room room_id player_id now s = on_room room_id (join player_id now) s

unfoldable pub submit_room_input :
    Bytes → Bytes → InputKind → RoomManager → RoomManager × Option (SubmitOutcome × RoomSnapshot)
unfolding on_room
submit_room_input room_id player_id kind s = on_room room_id (submit_input player_id kind) s

unfoldable pub set_room_presence :
    Bytes → Bytes → Bool → ℤ → RoomManager → RoomManager × Option (PresenceOutcome × RoomSnapshot)
unfolding on_room
set_room_presence room_id player_id online now s =
    on_room room_id (set_presence player_id online now) s

-- The entries that the loop of `ReapExpiredLocked` erases from a table keyed by match.
unfoldable pub reap_matches {ℓ} : {V : Type ℓ} → ℤ → Dict BattleRoom → Dict V → Dict V
reap_matches now [] m = m
reap_matches now ((id, room) ∷ rest) m =
    reap_matches now rest (if is_expired now room then erase room.match_id m else m)

unfoldable pub reap_expired : ℤ → RoomManager → RoomManager
reap_expired now s = record s {
  rooms = retain (λ r. negate (is_expired now r)) s.rooms;
  match_index = reap_matches now s.rooms s.match_index;
  snapshot_state = reap_matches now s.rooms s.snapshot_state;
}

unfoldable pub get_state : Bytes → ℤ → RoomManager → RoomManager × Option RoomSnapshot
unfolding reap_expired
get_state room_id now s =
    let s' = reap_expired now s in
    (s', elim (find room_id s'.rooms) [ none ↦ none | some room ↦ some (snapshot room) ])

-- `writer_->Read`, if there is a writer; the record that it finds is outside the model.
abbrev pub read_result : Option ReadStatus → ResultOutcome
read_result none = ResultOutcome.unavailable
read_result (some ReadStatus.ok) = ResultOutcome.ok
read_result (some ReadStatus.not_found) = ResultOutcome.not_found
read_result (some ReadStatus.unavailable) = ResultOutcome.unavailable

-- The `switch` on the phase of the match's room; `none` goes on to the store.
abbrev pub result_by_phase : RoomPhase → Option ResultOutcome
result_by_phase RoomPhase.finishing = some ResultOutcome.pending
result_by_phase RoomPhase.finished = none
result_by_phase _ = some ResultOutcome.not_found

unfoldable pub room_of_match : Bytes → RoomManager → Option BattleRoom
room_of_match match_id s = elim (find match_id s.match_index) [
  | none ↦ none
  | some room_id ↦ find room_id s.rooms
]

-- `stored` is the status that `writer_->Read(match_id)` returns, `none` without a writer.
unfoldable pub get_result :
    Bytes → ℤ → Option ReadStatus → RoomManager → RoomManager × ResultOutcome
unfolding reap_expired bad_id
get_result match_id now stored s =
    if bad_id max_id_length match_id
    then (s, ResultOutcome.not_found)
    else let s' = reap_expired now s in
      (
        s',
        elim (room_of_match match_id s') [
          | none ↦ read_result stored
          | some room ↦ elim (result_by_phase room.phase) [ none ↦ read_result stored | some o ↦ o ]
        ],
      )

unfoldable pub begin_shutdown : RoomManager → RoomManager
begin_shutdown s = record s { shutting_down = true }
