-- ===== src/Gateway/Stream/Delivery.antt =====
-- src/gateway/stream_hub.cpp: when the state of a room is pushed to its subscribers.
use realtime_game_backend.Base.{
  ℕ, suc, ◌≡◌, refl, ◌∙◌, Bool, true, false, List, [], ◌∷◌, ◌++◌, some, none, arith, inl, inr,
  Bool-cases, ◌||◌,
}
use realtime_game_backend.Base.Int.{ℤ, pos, negsuc}
use realtime_game_backend.Base.Bytes.{Bytes, ◌==◌, ==_refl, is_empty, codes}
use realtime_game_backend.Base.Dict.{find, find-erase, find-assign}
use realtime_game_backend.Base.Decimal.{int_text, nat_text, nat_text-filled}
use realtime_game_backend.Gateway.Client.{RoomView, Services, RoomClient}
use realtime_game_backend.Gateway.Events.{sse_event, room_state_json, room_finished_json}
use realtime_game_backend.Gateway.Stream.State.{StreamHub, SubscribeOptions, register}
use realtime_game_backend.Gateway.Stream.Between.{QuietReach, QuietReach-pushed}
use realtime_game_backend.Gateway.Stream.Push.{
  SinkRef, state_signature, set_last_pushed_state, is_changed, push_room, tick_room, is_terminal,
  write_state, write_finished,
}

-- Writing one text to every sink, and what became of the world.
abbrev pub write_all : {W : Type 0} → Services W → Bytes → List SinkRef → W → W
write_all v text [] w = w
write_all v text (t ∷ ts) w = write_all v text ts (v.write t.sink text w).1

abbrev pub state_event : RoomView → ℤ → Bytes
state_event r now = sse_event (codes "room.state") (room_state_json r now) (some r.frame)

abbrev pub finished_event : RoomView → ℤ → Bytes
finished_event r now = sse_event (codes "room.finished") (room_finished_json r now) (some r.frame)

abbrev pub ids : List SinkRef → List ℕ
ids [] = []
ids (t ∷ ts) = t.id ∷ ids ts

is_empty-append : (a b : Bytes) → is_empty a ≡ false → is_empty (a ++ b) ≡ false
is_empty-append [] b h = ground arith
is_empty-append (c ∷ a) b h = refl

int_text-filled : (z : ℤ) (s : Bytes) → is_empty (int_text z ++ s) ≡ false
unfolding int_text
int_text-filled (pos n) s = is_empty-append (nat_text n) s (nat_text-filled n)
int_text-filled (negsuc n) s = refl

or_true : (b : Bool) → (b || true) ≡ true
or_true true = refl
or_true false = refl

not_empty : (a : Bytes) → is_empty a ≡ false → (a == []) ≡ false
unfolding ◌==◌
not_empty [] h = ground arith
not_empty (c ∷ a) h = refl

pub is_changed-set :
    (room_id : Bytes) (r : RoomView) (h : StreamHub)
    → is_terminal r.state ≡ false
    → is_changed room_id r (set_last_pushed_state room_id r false h) ≡ false
unfolding is_changed set_last_pushed_state
is_changed-set room_id r h going =
    rw
      (
        find-assign room_id room_id (state_signature r) h.last_pushed_state,
        ==_refl room_id,
        ==_refl (state_signature r),
        going,
      )
      refl

is_changed-same :
    (room_id : Bytes) (r : RoomView) (h h' : StreamHub)
    → find room_id h'.last_pushed_state ≡ find room_id h.last_pushed_state
    → is_changed room_id r h ≡ false
    → is_changed room_id r h' ≡ false
unfolding is_changed
is_changed-same room_id r h h' same old = rw same old

is_changed-register :
    (player_id room_id : Bytes) (sink : ℕ) (options : SubscribeOptions) (r : RoomView)
    (h : StreamHub)
    → is_changed room_id r (register player_id room_id sink options h) ≡ true
unfolding is_changed register
is_changed-register player_id room_id sink options r h =
    let filled : (state_signature r == []) ≡ false =
      unfold state_signature in not_empty _ (int_text-filled r.frame _) in
    rw (find-erase room_id room_id h.last_pushed_state, ==_refl room_id, filled) refl

module _ {W : Type 0} (v : Services W) where
  write_all-finished :
      (text : Bytes) (ts : List SinkRef) (w : W)
      → write_finished v text ts w ≡ (write_all v text ts w, ids ts)
  unfolding write_finished
  write_all-finished text [] w = refl
  write_all-finished text (t ∷ ts) w =
      rw (write_all-finished text ts (v.write t.sink text w).1) refl

  write_all-state :
      (text : Bytes) (ts : List SinkRef) (w : W)
      → (write_state v text ts w).0 ≡ write_all v text ts w
  unfolding write_state
  write_all-state text [] w = refl
  write_all-state text (t ∷ ts) w = write_all-state text ts (v.write t.sink text w).1

  pub push_room-quiet :
      (room_id : Bytes) (r : RoomView) (sinks : List SinkRef) (now : ℤ) (h : StreamHub) (w : W)
      → is_changed room_id r h ≡ false
      → push_room v room_id r sinks now h w ≡ ((h, w), [])
  unfolding push_room
  push_room-quiet room_id r sinks now h w same = rw same refl

  push_room-terminal :
      (room_id : Bytes) (r : RoomView) (sinks : List SinkRef) (now : ℤ) (h : StreamHub) (w : W)
      → is_terminal r.state ≡ true
      → push_room v room_id r sinks now h w ≡ (
        (set_last_pushed_state room_id r true h, write_all v (finished_event r now) sinks w),
        ids sinks,
      )
  unfolding push_room
  push_room-terminal room_id r sinks now h w ended =
      let changed : is_changed room_id r h ≡ true = unfold is_changed in rw ended (or_true _) in
      rw (push_room, changed, ended, write_all-finished (finished_event r now) sinks w) refl

  -- What a poll found is no news right after it.
  pushed :
      (room_id : Bytes) (r : RoomView) (sinks : List SinkRef) (now : ℤ) (h : StreamHub) (w : W)
      → is_terminal r.state ≡ false
      → is_changed room_id r (push_room v room_id r sinks now h w).0.0 ≡ false
  pushed room_id r sinks now h w going = elim (Bool-cases (is_changed room_id r h)) [
    | inl new ↦
        let kept : (push_room v room_id r sinks now h w).0.0
            ≡ set_last_pushed_state room_id r false h =
          unfold push_room in rw (push_room, new, going) refl in
        rw kept (is_changed-set room_id r h going)
    | inr old ↦ rw (push_room-quiet room_id r sinks now h w old) old
  ]

  -- After a poll found a room going on in some state, a later poll that finds the same state writes nothing
  -- and changes nothing, whichever subscribers it is for, if all that ran in between is any number of
  -- subscriptions to other rooms, states pushed to other rooms, subscriptions dropped, collections of
  -- work, counts of polls, ends of rounds and starts of the shutdown. Not among these are a
  -- subscription to the room itself, a state pushed to it and the closing of all subscriptions: each
  -- may change what the hub remembers to have pushed.
  pub push_room-once :
      (room_id : Bytes) (r : RoomView) (sinks later : List SinkRef) (now now' : ℤ)
      (h h' : StreamHub) (w w' : W)
      → is_terminal r.state ≡ false
      → QuietReach room_id (push_room v room_id r sinks now h w).0.0 h'
      → push_room v room_id r later now' h' w' ≡ ((h', w'), [])
  push_room-once room_id r sinks later now now' h h' w w' going between =
      push_room-quiet room_id r later now' h' w' (
        is_changed-same room_id r (push_room v room_id r sinks now h w).0.0 h'
          (QuietReach-pushed between) (pushed room_id r sinks now h w going))

  -- Once somebody subscribes to a room, the next poll that finds the room going on writes its state to all
  -- subscribers of the room, even if that state was pushed to the others before.
  pub push_room-register :
      (player_id room_id : Bytes) (sink : ℕ) (options : SubscribeOptions) (r : RoomView)
      (sinks : List SinkRef) (now : ℤ) (h : StreamHub) (w : W)
      → is_terminal r.state ≡ false
      → (push_room v room_id r sinks now (register player_id room_id sink options h) w).0.1
        ≡ write_all v (state_event r now) sinks w
  unfolding push_room
  push_room-register player_id room_id sink options r sinks now h w going =
      rw (is_changed-register player_id room_id sink options r h, going)
        (write_all-state (state_event r now) sinks w)

  -- A poll that finds a room finished or aborted writes the event of its end to all its subscribers and lists
  -- every one of them for removal, whether the write succeeded or not, and whatever was pushed before; and it
  -- forgets what was pushed.
  pub tick_room-finished :
      (client : RoomClient W) (room_id : Bytes) (sinks : List SinkRef) (request_id : Bytes)
      (now : ℤ) (h : StreamHub) (w : W) (r : RoomView)
      → v.room ≡ some client
      → is_empty sinks ≡ false
      → (client.get_state room_id request_id w).0 ≡ some r
      → is_terminal r.state ≡ true
      → (tick_room v room_id sinks request_id now h w).1 ≡ ids sinks
        × ((tick_room v room_id sinks request_id now h w).0.1
            ≡ write_all v (finished_event r now) sinks (client.get_state room_id request_id w).1)
        × (find room_id (tick_room v room_id sinks request_id now h w).0.0.last_pushed_state ≡ none)
  unfolding tick_room
  tick_room-finished client room_id sinks request_id now h w r present filled known ended =
      let polled : StreamHub = record h { room_poll_count = suc h.room_poll_count } in
      let answer = client.get_state room_id request_id w in
      let pushed = push_room-terminal room_id r sinks now polled answer.1 ended in
      let whole : tick_room v room_id sinks request_id now h w ≡ (
        (
          set_last_pushed_state room_id r true polled,
          write_all v (finished_event r now) sinks answer.1,
        ),
        ids sinks,
      ) =
        rw (tick_room, present, filled, known) pushed in
      rw whole (
        refl,
        refl,
        unfold set_last_pushed_state in
            find-erase room_id room_id h.last_pushed_state ∙ rw (==_refl room_id) refl,
      )
