-- ===== src/Room/Manager/Counts.antt =====
-- The counts of room_manager.cpp, and the end of all games in a shutdown.
use realtime_game_backend.Base.{
  ℕ, suc, ◌+◌, ◌≡◌, refl, ap, ◌∙◌, List, [], ◌∷◌, false, arith, if◌then◌else◌, length,
}
use realtime_game_backend.Base.Int.{ℤ}
use realtime_game_backend.Base.Bytes.{Bytes}
use realtime_game_backend.Base.Dict.{Dict, find, map_values, find-map_values, map_found}
use realtime_game_backend.Room.Types.{RoomPhase, all_room_phases, total_from, RoomSnapshotRecord}
use realtime_game_backend.Room.Battle.State.{BattleRoom, abort, has_ended, push_snapshot}
use realtime_game_backend.Room.Battle.Calls.{abort_unfinished}
use realtime_game_backend.Room.Manager.State.{RoomManager}
use realtime_game_backend.Room.Manager.Ticking.{
  Writers, abort_unfinished_games, abort_all, flush_snapshots,
}
use realtime_game_backend.Room.Manager.Queries.{
  room_count, count_phase, count_phases, phase_counts, count_rooms, unfinished_game_count,
  is_unfinished,
}

-- Six counters, one for each phase.
abbrev six : (a b c d e f : ℕ) → List ℕ
six a b c d e f = a ∷ b ∷ c ∷ d ∷ e ∷ f ∷ []

abbrev Total : Dict BattleRoom → Type 0
Total rest =
    (a b c d e f : ℕ)
    → total_from 0 (count_phases rest (six a b c d e f)) ≡ a + b + c + d + e + f + length rest

one_more :
    (p : RoomPhase) (rest : Dict BattleRoom) (a b c d e f : ℕ)
    → Total rest
    → total_from 0 (count_phases rest (count_phase all_room_phases p (six a b c d e f)))
      ≡ a + b + c + d + e + f + suc (length rest)
unfolding count_phase
one_more RoomPhase.created rest a b c d e f ih = ih (a + 1) b c d e f ∙ omega arith
one_more RoomPhase.waiting rest a b c d e f ih = ih a (b + 1) c d e f ∙ omega arith
one_more RoomPhase.playing rest a b c d e f ih = ih a b (c + 1) d e f ∙ omega arith
one_more RoomPhase.finishing rest a b c d e f ih = ih a b c (d + 1) e f ∙ omega arith
one_more RoomPhase.finished rest a b c d e f ih = ih a b c d (e + 1) f ∙ omega arith
one_more RoomPhase.aborted rest a b c d e f ih = ih a b c d e (f + 1) ∙ omega arith

phases_add_up : (rooms : Dict BattleRoom) → Total rooms
unfolding count_phases total_from
phases_add_up [] a b c d e f = omega arith
phases_add_up ((id, r) ∷ rest) a b c d e f = one_more r.phase rest a b c d e f (phases_add_up rest)

-- The counts by phase leave no room out and count none twice: they add up to the number of rooms.
pub total-phase_counts : (s : RoomManager) → total_from 0 (phase_counts s).counts ≡ room_count s
unfolding phase_counts room_count
total-phase_counts s = phases_add_up s.rooms 0 0 0 0 0 0 ∙ omega arith

abort_over : (now : ℤ) (r : BattleRoom) → is_unfinished (abort_unfinished now r).phase ≡ false
unfolding abort_unfinished abort push_snapshot
abort_over now r = ground arith

none_unfinished :
    (now : ℤ) (n : ℕ) (rooms : Dict BattleRoom)
    → count_rooms (λ r. is_unfinished r.phase) n (map_values (abort_unfinished now) rooms) ≡ n
unfolding count_rooms map_values
none_unfinished now n [] = refl
none_unfinished now n ((id, r) ∷ rest) =
    ground (arith, abort_over now r, none_unfinished now n rest)

rooms-flush_snapshots :
    {W : Type 0} (w : Writers W) (records : List RoomSnapshotRecord) (s : RoomManager) (world : W)
    → (flush_snapshots w records s world).0.rooms ≡ s.rooms
unfolding flush_snapshots
rooms-flush_snapshots w [] s world = refl
rooms-flush_snapshots w (x ∷ xs) s world = ground arith

-- What aborting all unfinished games makes of one room.
abbrev pub after_shutdown : ℤ → BattleRoom → BattleRoom
after_shutdown now r = if has_ended r.phase then r else abort now r

rooms_after :
    {W : Type 0} (w : Writers W) (now : ℤ) (s : RoomManager) (world : W)
    → (abort_unfinished_games w now s world).0.rooms ≡ map_values (abort_unfinished now) s.rooms
unfolding abort_unfinished_games abort_all
rooms_after w now s world = rooms-flush_snapshots w _ _ world

-- After `abort_unfinished_games` no game is unfinished, whatever the stores answer; a game that was
-- over before, its result stored or not, is as it was, and every other is aborted.
pub abort_unfinished_games_lem :
    {W : Type 0} (w : Writers W) (now : ℤ) (s : RoomManager) (world : W) (id : Bytes)
    → (unfinished_game_count (abort_unfinished_games w now s world).0 ≡ 0)
      × (find id (abort_unfinished_games w now s world).0.rooms
          ≡ map_found (after_shutdown now) (find id s.rooms))
unfolding unfinished_game_count
abort_unfinished_games_lem w now s world id = (
  ap (count_rooms (λ r. is_unfinished r.phase) 0) (rooms_after w now s world)
      ∙ none_unfinished now 0 s.rooms,
  ap (find id) (rooms_after w now s world)
      ∙ unfold abort_unfinished in find-map_values id (abort_unfinished now) s.rooms,
)
