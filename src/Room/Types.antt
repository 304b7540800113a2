-- ===== src/Room/Types.antt =====
-- src/room/room_types.hpp: the constants, phases and snapshots that the room service shares.
-- int32_t and int64_t values are integers ℤ, std::size_t values natural numbers.
use realtime_game_backend.Base.{ℕ, Bool, true, false, List, [], ◌∷◌, ◌+◌}
use realtime_game_backend.Base.Int.{ℤ, pos}
use realtime_game_backend.Base.Bytes.{Bytes, codes}

abbrev pub players_per_room : ℕ
players_per_room = 2

abbrev pub initial_hp : ℤ
initial_hp = pos 100

abbrev pub attack_damage : ℤ
attack_damage = pos 10

abbrev pub frame_interval_ms : ℤ
frame_interval_ms = pos 100

abbrev pub max_frames : ℤ
max_frames = pos 600

abbrev pub max_catch_up_frames : ℤ
max_catch_up_frames = pos 10

abbrev pub result_retry_interval_ms : ℤ
result_retry_interval_ms = pos 1000

abbrev pub waiting_timeout_ms : ℤ
waiting_timeout_ms = pos 30000

abbrev pub finished_retention_ms : ℤ
finished_retention_ms = pos 300000

abbrev pub max_snapshot_history : ℕ
max_snapshot_history = 128

abbrev pub reconnect_grace_ms : ℤ
reconnect_grace_ms = pos 30000

abbrev pub max_id_length : ℕ
max_id_length = 64

abbrev pub snapshot_interval_ms : ℤ
snapshot_interval_ms = pos 1000

pub data RoomPhase : Type 0 where
  created waiting playing finishing finished aborted : RoomPhase

pub data FinishReason : Type 0 where
  none hp_zero timeout aborted disconnect : FinishReason

-- An `enum class` value may lie outside its enumerators; the code tests for that.
pub data InputKind : Type 0 where
  attack : InputKind
  unknown : ℕ → InputKind

pub record PlayerSnapshot : Type 0 where
  pub player_id : Bytes
  pub hp : ℤ
  pub connected : Bool
  pub online : Bool

pub record RoomSnapshot : Type 0 where
  pub room_id : Bytes
  pub match_id : Bytes
  pub phase : RoomPhase
  pub frame : ℤ
  pub players : List PlayerSnapshot
  pub finish_reason : FinishReason
  pub winner_id : Bytes
  pub started_at_ms : ℤ
  pub finished_at_ms : ℤ

pub record MatchResultRecord : Type 0 where
  pub match_id : Bytes
  pub room_id : Bytes
  pub winner_id : Bytes
  pub player_count : ℤ
  pub started_at_ms : ℤ
  pub finished_at_ms : ℤ

pub record RoomPlayerRecord : Type 0 where
  pub player_id : Bytes
  pub hp : ℤ
  pub joined : Bool

-- `players` is a std::array of `players_per_room` elements, here its two elements.
pub record RoomSnapshotRecord : Type 0 where
  pub match_id : Bytes
  pub room_id : Bytes
  pub phase : RoomPhase
  pub frame : ℤ
  pub player_0 : RoomPlayerRecord
  pub player_1 : RoomPlayerRecord
  pub winner_id : Bytes
  pub finish_reason : FinishReason
  pub started_at_ms : ℤ
  pub finished_at_ms : ℤ
  pub snapshot_at_ms : ℤ

abbrev pub eq_phase : RoomPhase → RoomPhase → Bool
eq_phase RoomPhase.created RoomPhase.created = true
eq_phase RoomPhase.waiting RoomPhase.waiting = true
eq_phase RoomPhase.playing RoomPhase.playing = true
eq_phase RoomPhase.finishing RoomPhase.finishing = true
eq_phase RoomPhase.finished RoomPhase.finished = true
eq_phase RoomPhase.aborted RoomPhase.aborted = true
eq_phase _ _ = false

unfoldable pub phase_name : RoomPhase → Bytes
phase_name RoomPhase.created = codes "created"
phase_name RoomPhase.waiting = codes "waiting"
phase_name RoomPhase.playing = codes "playing"
phase_name RoomPhase.finishing = codes "finishing"
phase_name RoomPhase.finished = codes "finished"
phase_name RoomPhase.aborted = codes "aborted"

unfoldable pub reason_name : FinishReason → Bytes
reason_name FinishReason.none = codes "none"
reason_name FinishReason.hp_zero = codes "hp_zero"
reason_name FinishReason.timeout = codes "timeout"
reason_name FinishReason.aborted = codes "aborted"
reason_name FinishReason.disconnect = codes "disconnect"

abbrev pub all_room_phases : List RoomPhase
all_room_phases =
    RoomPhase.created ∷ RoomPhase.waiting ∷ RoomPhase.playing ∷ RoomPhase.finishing
    ∷ RoomPhase.finished ∷ RoomPhase.aborted ∷ []

-- `counts[i]` stands beside the phase `kAllRoomPhases[i]`.
pub record RoomPhaseCounts : Type 0 where
  pub counts : List ℕ

-- The loop of `At`, over the phases and their counts side by side.
unfoldable pub count_at : List RoomPhase → List ℕ → RoomPhase → ℕ
count_at [] cs p = 0
count_at (q ∷ qs) [] p = 0
count_at (q ∷ qs) (c ∷ cs) p = elim (eq_phase q p) [ true ↦ c | false ↦ count_at qs cs p ]

unfoldable pub total_from : ℕ → List ℕ → ℕ
total_from acc [] = acc
total_from acc (c ∷ cs) = total_from (acc + c) cs
