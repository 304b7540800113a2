-- ===== src/Match/Queue/State.antt =====
-- src/match/match_queue.hpp: the state of the match queue, with the entry of each player, and the
-- snapshot entries of src/match/match_queue_store.hpp.
use realtime_game_backend.Base.{
  ℕ, Bool, true, false, List, [], ◌∷◌, some, none, if◌then◌else◌, length, ltb,
}
use realtime_game_backend.Base.Int.{ℤ, pos, ltb_ℤ}
use realtime_game_backend.Base.Bytes.{Bytes, ◌==◌}
use realtime_game_backend.Base.Dict.{Dict, find}

abbrev pub players_per_match : ℕ
players_per_match = 2

abbrev pub default_match_timeout_ms : ℤ
default_match_timeout_ms = pos 30000

abbrev pub default_result_ttl_ms : ℤ
default_result_ttl_ms = pos 120000

abbrev pub default_max_queue_size : ℕ
default_max_queue_size = 1000

abbrev pub max_request_id_length : ℕ
max_request_id_length = 64

abbrev pub max_player_id_length : ℕ
max_player_id_length = 64

-- `MatchStatusSnapshot::State`.
pub data MatchState : Type 0 where
  idle queued matched timeout : MatchState

abbrev pub is_queued : MatchState → Bool
is_queued MatchState.queued = true
is_queued _ = false

abbrev pub is_matched : MatchState → Bool
is_matched MatchState.matched = true
is_matched _ = false

abbrev pub is_timeout : MatchState → Bool
is_timeout MatchState.timeout = true
is_timeout _ = false

pub record MatchStatusSnapshot : Type 0 where
  pub state : MatchState
  pub request_id : Bytes
  pub match_id : Bytes
  pub room_id : Bytes
  pub player_ids : List Bytes
  pub queued_at_ms : ℤ
  pub queue_size : ℕ

pub data EnqueueOutcome : Type 0 where
  shutting_down queued already_queued queue_full invalid_argument : EnqueueOutcome

pub record Entry : Type 0 where
  pub state : MatchState
  pub request_id : Bytes
  pub match_id : Bytes
  pub room_id : Bytes
  pub player_ids : List Bytes
  pub queued_at_ms : ℤ
  pub stamp_ms : ℤ
  pub allocating : Bool
  pub cancel_requested : Bool

pub record PendingGroup : Type 0 where
  pub match_id : Bytes
  pub player_ids : List Bytes
  pub request_id : Bytes

-- The settings stand first; `has_store` tells whether there is a store for the snapshots.
pub record MatchQueue : Type 0 where
  pub match_timeout_ms : ℤ
  pub result_ttl_ms : ℤ
  pub max_queue_size : ℕ
  pub has_store : Bool
  pub snapshot_merge_interval_ms : ℤ
  pub max_pending_allocations : ℕ
  pub queue : List Bytes
  pub entries : Dict Entry
  pub retry_pairing : Bool
  pub shutting_down : Bool
  pub snapshot_dirty : Bool
  pub snapshot_dirty_since_ms : ℤ
  pub last_snapshot_write_ms : ℤ
  pub snapshot_write_count : ℕ
  pub snapshot_failure_count : ℕ
  pub snapshot_merged_count : ℕ
  pub snapshot_tick_count : ℕ
  pub room_allocate_count : ℕ
  pub room_allocate_failed_count : ℕ
  pub allocation_queue : List (PendingGroup × ℤ)
  pub allocation_worker_running : Bool

-- The constructor.
unfoldable pub make_queue : ℤ → ℤ → ℕ → Bool → MatchQueue
make_queue match_timeout_ms result_ttl_ms max_queue_size has_store = record {
  match_timeout_ms =
      if ltb_ℤ (pos 0) match_timeout_ms then match_timeout_ms else default_match_timeout_ms;
  result_ttl_ms = if ltb_ℤ (pos 0) result_ttl_ms then result_ttl_ms else default_result_ttl_ms;
  max_queue_size = if ltb 0 max_queue_size then max_queue_size else default_max_queue_size;
  has_store = has_store;
  snapshot_merge_interval_ms = pos 100;
  max_pending_allocations = 256;
  queue = [];
  entries = [];
  retry_pairing = false;
  shutting_down = false;
  snapshot_dirty = false;
  snapshot_dirty_since_ms = pos 0;
  last_snapshot_write_ms = pos 0;
  snapshot_write_count = 0;
  snapshot_failure_count = 0;
  snapshot_merged_count = 0;
  snapshot_tick_count = 0;
  room_allocate_count = 0;
  room_allocate_failed_count = 0;
  allocation_queue = [];
  allocation_worker_running = false;
}

-- An entry as the requests make it: `Entry entry;` with four fields set.
abbrev pub queued_entry : Bytes → ℤ → Entry
queued_entry request_id now = record {
  state = MatchState.queued;
  request_id = request_id;
  match_id = [];
  room_id = [];
  player_ids = [];
  queued_at_ms = now;
  stamp_ms = now;
  allocating = false;
  cancel_requested = false;
}

-- RemoveFromQueueLocked on the queue: the first occurrence goes.
unfoldable pub remove_from_queue : Bytes → List Bytes → List Bytes
unfolding ◌==◌
remove_from_queue id [] = []
remove_from_queue id (j ∷ q) = let rest = remove_from_queue id q in if j == id then q else j ∷ rest

-- BeginShutdown
unfoldable pub begin_queue_shutdown : MatchQueue → MatchQueue
begin_queue_shutdown s = record s { shutting_down = true }

-- SnapshotLocked
unfoldable pub status_of : Bytes → MatchQueue → MatchStatusSnapshot
status_of id s = elim (find id s.entries) [
  | none ↦ record {
    state = MatchState.idle;
    request_id = [];
    match_id = [];
    room_id = [];
    player_ids = [];
    queued_at_ms = pos 0;
    queue_size = length s.queue;
  }
  | some e ↦ record {
    state = e.state;
    request_id = e.request_id;
    match_id = e.match_id;
    room_id = e.room_id;
    player_ids = e.player_ids;
    queued_at_ms = e.queued_at_ms;
    queue_size = length s.queue;
  }
]
