-- ===== src/Gateway/Stream/Refinement.antt =====
-- What the hub promises of its subscriptions, without their order, their progress and the counters: a table
-- from ids to rows in which a subscription opens under an id that no other has, and some are closed.
use realtime_game_backend.Base.{
  ℕ, suc, ◌≡◌, refl, ap, ◌∙◌, sym, Bool, true, false, List, [], ◌∷◌, ◌||◌, Option, some, none,
  if◌then◌else◌, nat_eq, arith, inl, inr, Option-cases,
}
use realtime_game_backend.Base.Int.{ℤ}
use realtime_game_backend.Gateway.Stream.State.{
  StreamHub, find_subscription, erase_subscription, register, drop_subscription, begin_draining,
}
use realtime_game_backend.Gateway.Stream.Closing.{take_all}
use realtime_game_backend.Gateway.Stream.Push.{set_last_pushed_state}
use realtime_game_backend.Gateway.Stream.Collect.{collect_work}
use realtime_game_backend.Gateway.Stream.Commit.{
  Round, commit_updates, remove_failed, remove_failed-none, remove_failed-some, remove_one, commit,
}
use realtime_game_backend.Gateway.Stream.Table.{
  Row, rows, row_of, row_of-find, look, Descending, look-above, look-erase_row, rows-erase,
  erase_row-Descending,
}
use realtime_game_backend.Gateway.Stream.Steps.{
  HubSystem, HubStep, Accounted, rows-commit_updates, rows-collect_work,
}

abbrev pub view : StreamHub → ℕ → Option Row
view h id = look id (rows h.subscriptions)

abbrev pub is_among : ℕ → List ℕ → Bool
is_among id [] = false
is_among id (j ∷ js) = nat_eq j id || is_among id js

pub data SpecStep (before after : ℕ → Option Row) : Type 0 where
  opens :
      (r : Row)
      → before r.id ≡ none
      → ((j : ℕ) → after j ≡ (if nat_eq r.id j then some r else before j))
      → SpecStep before after
  closes :
      (closed : ℕ → Bool)
      → ((j : ℕ) → after j ≡ (if closed j then none else before j))
      → SpecStep before after

remove_failed-rows :
    (ids : List ℕ) (h : StreamHub) (j : ℕ)
    → Descending h.next_id (rows h.subscriptions)
    → view (remove_failed ids h).0 j ≡ (if is_among j ids then none else view h j)
unfolding remove_failed remove_one
remove_failed-rows [] h j ok = refl
remove_failed-rows (id ∷ ids) h j ok = elim (Option-cases (find_subscription id h.subscriptions)) [
  | inl gone ↦
      let nothing : look id (rows h.subscriptions) ≡ none =
        sym (row_of-find id h.subscriptions) ∙ ap (λ o. row_of o) gone in
      let rest = remove_failed-rows ids h j ok in
      rw (remove_failed-none id ids h gone) (ground (arith, nothing, rest))
  | inr (s, there) ↦
      let same = rows-erase id h.subscriptions in
      let fewer : Descending h.next_id (rows (erase_subscription id h.subscriptions)) =
        rw same (erase_row-Descending id h.next_id (rows h.subscriptions) ok) in
      let erased = look-erase_row id j h.next_id (rows h.subscriptions) ok in
      let rest = remove_failed-rows ids (remove_one id h) j fewer in
      rw (remove_failed-some id ids h s there) (ground (arith, same, erased, rest))
]

-- The end of a round closes the subscriptions whose writes failed in it, and no other.
pub commit-rows :
    (now : ℤ) (r : Round) (h : StreamHub) (j : ℕ)
    → Descending h.next_id (rows h.subscriptions)
    → view (commit now r h).0 j ≡ (if is_among j r.failed then none else view h j)
unfolding commit
commit-rows now r h j ok =
    let same = rows-commit_updates now r h in
    let kept : Descending (commit_updates now r h).next_id
        (rows (commit_updates now r h).subscriptions) =
      unfold commit_updates in rw same ok in
    remove_failed-rows r.failed (commit_updates now r h) j kept ∙ rw same refl

nothing_closed :
    (h h' : StreamHub) → rows h'.subscriptions ≡ rows h.subscriptions → SpecStep (view h) (view h')
nothing_closed h h' same = SpecStep.closes (λ j. false) (λ j. rw same refl)

-- Seen from outside, every locked block of the hub, in whatever accounted state it runs, either opens one
-- subscription under an id that no other has and leaves the others as they are, or closes some and
-- leaves the others as they are: none changes its player, room or connection.
pub HubStep-SpecStep :
    {x y : HubSystem} → HubStep x y → Accounted x.hub x.taken → SpecStep (view x.hub) (view y.hub)
unfolding register drop_subscription set_last_pushed_state begin_draining take_all
HubStep-SpecStep (HubStep.registers h n player_id room_id sink options) ok =
    SpecStep.opens
      (record {
        id = h.next_id;
        player_id = player_id;
        room_id = room_id;
        request_id = options.request_id;
        sink = some sink;
      })
      (look-above h.next_id h.next_id (rows h.subscriptions) ok.0 (omega arith)) (λ j. refl)
HubStep-SpecStep (HubStep.drops h n id s there) ok =
    SpecStep.closes (λ j. nat_eq id j)
      (λ j.
        rw (rows-erase id h.subscriptions)
          (look-erase_row id j h.next_id (rows h.subscriptions) ok.0))
HubStep-SpecStep (HubStep.collects h n now) ok =
    nothing_closed h (collect_work now h).0 (rows-collect_work now h)
HubStep-SpecStep (HubStep.polls h n) ok =
    nothing_closed h (record h { room_poll_count = suc h.room_poll_count }) refl
HubStep-SpecStep (HubStep.pushes h n room_id r terminal) ok =
    nothing_closed h (set_last_pushed_state room_id r terminal h) (ground arith)
HubStep-SpecStep (HubStep.commits h n now r) ok =
    SpecStep.closes (λ j. is_among j r.failed) (λ j. commit-rows now r h j ok.0)
HubStep-SpecStep (HubStep.drains h n) ok = nothing_closed h (begin_draining h) refl
HubStep-SpecStep (HubStep.takes_all h n) ok = SpecStep.closes (λ j. true) (λ j. refl)
