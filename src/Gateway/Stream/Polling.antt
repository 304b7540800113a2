-- ===== src/Gateway/Stream/Polling.antt =====
-- src/gateway/stream_hub.cpp: a round polls each room once, for all its subscribers.
use realtime_game_backend.Base.{
  ℕ, suc, ◌+◌, ◌≡◌, refl, ◌∙◌, sym, List, [], ◌∷◌, ◌++◌, map, some, none, if◌then◌else◌, arith, inl,
  inr, Bool-cases, Option-cases, length,
}
use mathlib.Core.List.{append_assoc, append-nil}
use realtime_game_backend.Base.Int.{ℤ}
use realtime_game_backend.Base.Bytes.{Bytes, ◌==◌, ==_iff}
use realtime_game_backend.Base.Dict.{Dict, find, assign, find-assign, UniqueKeys, UniqueKeys-assign}
use realtime_game_backend.Gateway.Client.{RoomView, Services}
use realtime_game_backend.Gateway.Events.{poll_request_id}
use realtime_game_backend.Gateway.Stream.State.{StreamHub, Subscription, is_zero}
use realtime_game_backend.Gateway.Stream.Push.{
  SinkRef, tick_room, push_room, set_last_pushed_state, or_empty,
}
use realtime_game_backend.Gateway.Stream.Collect.{
  RoundWork, collect_work, collect_each, collect_one, collect_live, collect_backfill,
  should_backfill, stamp_new, nothing_collected, or_none,
}
use realtime_game_backend.Gateway.Stream.Tick.{tick_rooms}

-- The subscribers of a room that can be written to and wait for no backfill.
abbrev pub live_in : Bytes → Subscription → List SinkRef
live_in room_id s = elim s.sink [
  | none ↦ []
  | some sink ↦
      if should_backfill s
      then []
      else if s.room_id == room_id
      then record { id = s.id; sink = sink } ∷ []
      else []
]

abbrev pub subscribers_of : Bytes → List Subscription → List SinkRef
subscribers_of room_id [] = []
subscribers_of room_id (s ∷ ss) = live_in room_id s ++ subscribers_of room_id ss

collect_backfill-by_room :
    (interval now : ℤ) (s : Subscription) (sink : ℕ) (c : RoundWork)
    → (collect_backfill interval now s sink c).by_room ≡ c.by_room
unfolding collect_backfill
collect_backfill-by_room interval now s sink c = ground arith

collect_live-by_room :
    (interval now : ℤ) (s : Subscription) (sink : ℕ) (c : RoundWork) (room_id : Bytes)
    → or_none (find room_id (collect_live interval now s sink c).by_room)
      ≡ or_none (find room_id c.by_room)
        ++ (if s.room_id == room_id then record { id = s.id; sink = sink } ∷ [] else [])
unfolding collect_live
collect_live-by_room interval now s sink c room_id =
    let mine : List SinkRef = record { id = s.id; sink = sink } ∷ [] in
    let rooms : Dict (List SinkRef) =
      assign s.room_id (or_none (find s.room_id c.by_room) ++ mine) c.by_room in
    let same : (collect_live interval now s sink c).by_room ≡ rooms = ground arith in
    rw (same, find-assign s.room_id room_id (or_none (find s.room_id c.by_room) ++ mine) c.by_room)
      (elim (Bool-cases (s.room_id == room_id)) [
        | inl e ↦
            let equal : s.room_id ≡ room_id = (==_iff s.room_id room_id).0 e in rw (e, equal) refl
        | inr e ↦ rw e (sym (append-nil _))
      ])

collect_one-by_room :
    (interval now : ℤ) (s : Subscription) (c : RoundWork) (room_id : Bytes)
    → or_none (find room_id (collect_one interval now s c).by_room)
      ≡ or_none (find room_id c.by_room) ++ live_in room_id s
unfolding collect_one
collect_one-by_room interval now s c room_id = elim (Option-cases s.sink) [
  | inl absent ↦ rw (collect_one, absent) (sym (append-nil _))
  | inr (sink, present) ↦ elim (Bool-cases (should_backfill s)) [
    | inl e ↦
        rw (collect_one, present, e, collect_backfill-by_room interval now s sink c)
          (sym (append-nil _))
    | inr e ↦ rw (collect_one, present, e) (collect_live-by_room interval now s sink c room_id)
  ]
]

collect_each-by_room :
    (interval now : ℤ) (ss : List Subscription) (c : RoundWork) (room_id : Bytes)
    → or_none (find room_id (collect_each interval now ss c).by_room)
      ≡ or_none (find room_id c.by_room) ++ subscribers_of room_id ss
unfolding collect_each
collect_each-by_room interval now [] c room_id = sym (append-nil _)
collect_each-by_room interval now (s ∷ ss) c room_id =
    collect_each-by_room interval now ss (collect_one interval now s c) room_id
    ∙ rw (collect_one-by_room interval now s c room_id) (
        append_assoc (or_none (find room_id c.by_room)) (live_in room_id s)
          (subscribers_of room_id ss))

live_in-stamp_new :
    (now : ℤ) (room_id : Bytes) (s : Subscription)
    → live_in room_id (stamp_new now s) ≡ live_in room_id s
live_in-stamp_new now room_id s = elim (Bool-cases (is_zero s.created_ms)) [
  | inl e ↦ rw e refl
  | inr e ↦ rw e refl
]

subscribers_of-stamp_new :
    (now : ℤ) (room_id : Bytes) (ss : List Subscription)
    → subscribers_of room_id (map (stamp_new now) ss) ≡ subscribers_of room_id ss
subscribers_of-stamp_new now room_id [] = refl
subscribers_of-stamp_new now room_id (s ∷ ss) =
    rw (live_in-stamp_new now room_id s, subscribers_of-stamp_new now room_id ss) refl

collect_one-UniqueKeys :
    (interval now : ℤ) (s : Subscription) (c : RoundWork)
    → UniqueKeys c.by_room
    → UniqueKeys (collect_one interval now s c).by_room
unfolding collect_one collect_live
collect_one-UniqueKeys interval now s c u = elim (Option-cases s.sink) [
  | inl absent ↦ rw (collect_one, absent) u
  | inr (sink, present) ↦ elim (Bool-cases (should_backfill s)) [
    | inl e ↦ rw (collect_one, present, e, collect_backfill-by_room interval now s sink c) u
    | inr e ↦
        let mine : List SinkRef = record { id = s.id; sink = sink } ∷ [] in
        let rooms : Dict (List SinkRef) =
          assign s.room_id (or_none (find s.room_id c.by_room) ++ mine) c.by_room in
        let same : (collect_live interval now s sink c).by_room ≡ rooms = ground arith in
        rw (collect_one, present, e, same)
          (UniqueKeys-assign s.room_id (or_none (find s.room_id c.by_room) ++ mine) c.by_room u)
  ]
]

collect_each-UniqueKeys :
    (interval now : ℤ) (ss : List Subscription) (c : RoundWork)
    → UniqueKeys c.by_room
    → UniqueKeys (collect_each interval now ss c).by_room
unfolding collect_each
collect_each-UniqueKeys interval now [] c u = u
collect_each-UniqueKeys interval now (s ∷ ss) c u =
    collect_each-UniqueKeys interval now ss (collect_one interval now s c)
      (collect_one-UniqueKeys interval now s c u)

module _ {W : Type 0} (v : Services W) where
  push_room-polls :
      (room_id : Bytes) (r : RoomView) (sinks : List SinkRef) (now : ℤ) (h : StreamHub) (w : W)
      → (push_room v room_id r sinks now h w).0.0.room_poll_count ≡ h.room_poll_count
  unfolding push_room set_last_pushed_state
  push_room-polls room_id r sinks now h w = ground arith

  tick_room-polls :
      (room_id : Bytes) (sinks : List SinkRef) (request_id : Bytes) (now : ℤ) (h : StreamHub)
      (w : W)
      → (tick_room v room_id sinks request_id now h w).0.0.room_poll_count ≡ suc h.room_poll_count
  unfolding tick_room
  tick_room-polls room_id sinks request_id now h w =
      let polled : StreamHub = record h { room_poll_count = suc h.room_poll_count } in
      let push : (r : RoomView) (w' : W)
          → (push_room v room_id r sinks now polled w').0.0.room_poll_count
            ≡ suc h.room_poll_count =
        λ r w'. push_room-polls room_id r sinks now polled w' in
      ground (arith, push)

  tick_rooms-polls :
      (rooms : Dict (List SinkRef)) (request_ids : Dict Bytes) (now : ℤ) (h : StreamHub) (w : W)
      → (tick_rooms v rooms request_ids now h w).0.0.room_poll_count
        ≡ h.room_poll_count + length rooms
  unfolding tick_rooms
  tick_rooms-polls [] request_ids now h w = omega arith
  tick_rooms-polls ((room_id, sinks) ∷ rest) request_ids now h w =
      let id = poll_request_id (or_empty (find room_id request_ids)) room_id in
      let first = tick_room-polls room_id sinks id now h w in
      let later =
        tick_rooms-polls rest request_ids now (tick_room v room_id sinks id now h w).0.0
          (tick_room v room_id sinks id now h w).0.1 in
      omega (arith, first, later)

  -- A round groups the subscribers that can be written to and wait for no backfill by their rooms: no room has
  -- two groups, the group of a room is exactly its subscribers, in the table's order, and the round then polls
  -- as often as there are groups, whatever the number of subscribers.
  pub tick_rooms-collect_work :
      (now : ℤ) (h h' : StreamHub) (w : W)
      → UniqueKeys (collect_work now h).1.by_room
        × ((room_id : Bytes)
            → or_none (find room_id (collect_work now h).1.by_room)
              ≡ subscribers_of room_id h.subscriptions)
        × ((tick_rooms v
              (collect_work now h).1.by_room
              (collect_work now h).1.room_request_ids
              now
              h'
              w).0.0.room_poll_count
            ≡ h'.room_poll_count + length (collect_work now h).1.by_room)
  tick_rooms-collect_work now h h' w = (
    unfold collect_work in
        collect_each-UniqueKeys h.heartbeat_interval_ms now (map (stamp_new now) h.subscriptions)
          nothing_collected tt,
    (λ room_id.
        unfold collect_work in
        collect_each-by_room h.heartbeat_interval_ms now (map (stamp_new now) h.subscriptions)
          nothing_collected room_id
        ∙ subscribers_of-stamp_new now room_id h.subscriptions),
    tick_rooms-polls (collect_work now h).1.by_room (collect_work now h).1.room_request_ids now h'
        w,
  )
