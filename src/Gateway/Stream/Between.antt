-- ===== src/Gateway/Stream/Between.antt =====
-- src/gateway/stream_hub.cpp: the locked blocks that may run between two polls of a room without touching
-- what was pushed to it, `last_pushed_state_`.
use realtime_game_backend.Base.{
  ℕ, suc, ◌≡◌, refl, ◌∙◌, Bool, true, false, List, [], ◌∷◌, inl, inr, Option-cases,
}
use realtime_game_backend.Base.Int.{ℤ}
use realtime_game_backend.Base.Bytes.{Bytes, ◌==◌}
use realtime_game_backend.Base.Dict.{find, find-erase, find-assign}
use realtime_game_backend.Gateway.Client.{RoomView}
use realtime_game_backend.Gateway.Stream.State.{
  StreamHub, SubscribeOptions, register, drop_subscription, begin_draining, find_subscription,
}
use realtime_game_backend.Gateway.Stream.Push.{set_last_pushed_state, state_signature}
use realtime_game_backend.Gateway.Stream.Collect.{collect_work}
use realtime_game_backend.Gateway.Stream.Commit.{
  Round, commit, commit_updates, remove_failed, remove_failed-none, remove_failed-some, remove_one,
}

-- Every locked block of the hub but three: a subscription to the room, a state pushed to it, and the
-- closing of all subscriptions. A state pushed to another room may be that of a poll or of a backfill.
pub data QuietStep (room_id : Bytes) : StreamHub → StreamHub → Type 0 where
  registers :
      (h : StreamHub) (player_id other : Bytes) (sink : ℕ) (options : SubscribeOptions)
      → (other == room_id) ≡ false
      → QuietStep room_id h (register player_id other sink options h)
  pushes :
      (h : StreamHub) (other : Bytes) (r : RoomView) (terminal : Bool)
      → (other == room_id) ≡ false
      → QuietStep room_id h (set_last_pushed_state other r terminal h)
  drops : (h : StreamHub) (id : ℕ) → QuietStep room_id h (drop_subscription id h)
  collects : (h : StreamHub) (now : ℤ) → QuietStep room_id h (collect_work now h).0
  polls :
      (h : StreamHub) → QuietStep room_id h (record h { room_poll_count = suc h.room_poll_count })
  commits : (h : StreamHub) (now : ℤ) (r : Round) → QuietStep room_id h (commit now r h).0
  drains : (h : StreamHub) → QuietStep room_id h (begin_draining h)

pub data QuietReach (room_id : Bytes) (h : StreamHub) : StreamHub → Type 0 where
  here : QuietReach room_id h h
  later :
      {h' h'' : StreamHub}
      → QuietReach room_id h h'
      → QuietStep room_id h' h''
      → QuietReach room_id h h''

remove_failed-pushed :
    (ids : List ℕ) (h : StreamHub) → (remove_failed ids h).0.last_pushed_state ≡ h.last_pushed_state
unfolding remove_failed remove_one
remove_failed-pushed [] h = refl
remove_failed-pushed (id ∷ ids) h = elim (Option-cases (find_subscription id h.subscriptions)) [
  | inl gone ↦ rw (remove_failed-none id ids h gone) (remove_failed-pushed ids h)
  | inr (s, there) ↦
      rw (remove_failed-some id ids h s there) (remove_failed-pushed ids (remove_one id h))
]

QuietStep-pushed :
    {room_id : Bytes} {h h' : StreamHub}
    → QuietStep room_id h h'
    → find room_id h'.last_pushed_state ≡ find room_id h.last_pushed_state
unfolding register set_last_pushed_state drop_subscription collect_work commit commit_updates
    begin_draining
QuietStep-pushed {room_id} (QuietStep.registers h player_id other sink options away) =
    find-erase other room_id h.last_pushed_state ∙ rw away refl
QuietStep-pushed {room_id} (QuietStep.pushes h other r true away) =
    find-erase other room_id h.last_pushed_state ∙ rw away refl
QuietStep-pushed {room_id} (QuietStep.pushes h other r false away) =
    find-assign other room_id (state_signature r) h.last_pushed_state ∙ rw away refl
QuietStep-pushed {room_id} (QuietStep.drops h id) = refl
QuietStep-pushed {room_id} (QuietStep.collects h now) = refl
QuietStep-pushed {room_id} (QuietStep.polls h) = refl
QuietStep-pushed {room_id} (QuietStep.commits h now r) =
    rw (remove_failed-pushed r.failed (commit_updates now r h)) refl
QuietStep-pushed {room_id} (QuietStep.drains h) = refl

pub QuietReach-pushed :
    {room_id : Bytes} {h h' : StreamHub}
    → QuietReach room_id h h'
    → find room_id h'.last_pushed_state ≡ find room_id h.last_pushed_state
QuietReach-pushed QuietReach.here = refl
QuietReach-pushed (QuietReach.later earlier step) =
    QuietStep-pushed step ∙ QuietReach-pushed earlier
