-- ===== src/Gateway/Stream/Steps.antt =====
-- src/gateway/stream_hub.cpp under concurrent calls. A round writes and calls the room service without the
-- lock, so what runs at once is one locked block after another, and between the first and the last block
-- of a round anything may happen. `taken` counts the subscriptions that `CloseAll` and `CloseAllWithEvent`
-- took.
use realtime_game_backend.Base.{
  ℕ, suc, ◌+◌, ◌≡◌, refl, ap, ◌∙◌, sym, Bool, List, [], ◌∷◌, some, length, arith, inl, inr,
  Option-cases,
}
use realtime_game_backend.Base.Int.{ℤ}
use realtime_game_backend.Base.Bytes.{Bytes}
use realtime_game_backend.Gateway.Client.{RoomView}
use realtime_game_backend.Gateway.Stream.State.{
  StreamHub, Subscription, SubscribeOptions, new_hub, register, drop_subscription, begin_draining,
  find_subscription, erase_subscription,
}
use realtime_game_backend.Gateway.Stream.Closing.{take_all}
use realtime_game_backend.Gateway.Stream.Push.{set_last_pushed_state}
use realtime_game_backend.Gateway.Stream.Collect.{collect_work, stamp_new}
use realtime_game_backend.Gateway.Stream.Commit.{
  Round, finish_backfill, record_reset, finish_backfills, record_resets, update_each,
  commit_updates, remove_failed, remove_failed-none, remove_failed-some, remove_one, commit, beat,
  make_ready,
}
use realtime_game_backend.Gateway.Stream.Table.{
  row, rows, Descending, rows-erase, rows-update, rows-map, length-rows, erase_row-Descending,
}

pub record HubSystem : Type 0 where
  pub hub : StreamHub
  pub taken : ℕ

abbrev pub at : StreamHub → ℕ → HubSystem
at h n = record { hub = h; taken = n }

pub data HubStep : HubSystem → HubSystem → Type 0 where
  registers :
      (h : StreamHub) (n : ℕ) (player_id room_id : Bytes) (sink : ℕ) (options : SubscribeOptions)
      → HubStep (at h n) (at (register player_id room_id sink options h) n)
  drops :
      (h : StreamHub) (n id : ℕ) (s : Subscription)
      → find_subscription id h.subscriptions ≡ some s
      → HubStep (at h n) (at (drop_subscription id h) n)
  collects : (h : StreamHub) (n : ℕ) (now : ℤ) → HubStep (at h n) (at (collect_work now h).0 n)
  polls :
      (h : StreamHub) (n : ℕ)
      → HubStep (at h n) (at (record h { room_poll_count = suc h.room_poll_count }) n)
  pushes :
      (h : StreamHub) (n : ℕ) (room_id : Bytes) (r : RoomView) (terminal : Bool)
      → HubStep (at h n) (at (set_last_pushed_state room_id r terminal h) n)
  commits :
      (h : StreamHub) (n : ℕ) (now : ℤ) (r : Round) → HubStep (at h n) (at (commit now r h).0 n)
  drains : (h : StreamHub) (n : ℕ) → HubStep (at h n) (at (begin_draining h) n)
  takes_all :
      (h : StreamHub) (n : ℕ) → HubStep (at h n) (at (take_all h).0 (n + length h.subscriptions))

pub data HubReach (x : HubSystem) : HubSystem → Type 0 where
  here : HubReach x x
  later : {y z : HubSystem} → HubReach x y → HubStep y z → HubReach x z

-- Every subscription that was created is in the table or was counted when it left it, and the ids in the
-- table are below the next one, and no two are the same.
abbrev pub Accounted : StreamHub → ℕ → Type 0
Accounted h n =
    Descending h.next_id (rows h.subscriptions)
    × (h.created_total
        ≡ length h.subscriptions + h.closed_write_failed_total + h.closed_other_total + n)

-- A change of the table that keeps its rows, the next id and the counters keeps the accounts.
keep_Accounted :
    (n : ℕ) (h h' : StreamHub)
    → rows h'.subscriptions ≡ rows h.subscriptions
    → h'.next_id ≡ h.next_id
    → h'.created_total ≡ h.created_total
    → h'.closed_write_failed_total + h'.closed_other_total
      ≡ h.closed_write_failed_total + h.closed_other_total
    → Accounted h n
    → Accounted h' n
keep_Accounted n h h' same next created closed ok =
    let long =
      sym (length-rows h'.subscriptions)
      ∙ (ap (λ l. length l) same ∙ length-rows h.subscriptions) in
    (rw (same, next) ok.0, omega (arith, ok.1, long, created, closed))

pub rows-finish_backfills :
    (now : ℤ) (l : List (ℕ × ℕ)) (ss : List Subscription)
    → rows (finish_backfills now l ss) ≡ rows ss
unfolding finish_backfills
rows-finish_backfills now [] ss = refl
rows-finish_backfills now ((id, n) ∷ l) ss =
    rows-finish_backfills now l _ ∙ rows-update id (finish_backfill now n) ss (λ s. refl)

pub rows-record_resets :
    (l : List (ℕ × Bytes)) (ss : List Subscription) → rows (record_resets l ss) ≡ rows ss
unfolding record_resets
rows-record_resets [] ss = refl
rows-record_resets ((id, reason) ∷ l) ss =
    rows-record_resets l _ ∙ rows-update id (record_reset reason) ss (λ s. refl)

pub rows-update_each :
    (f : Subscription → Subscription) (l : List ℕ) (ss : List Subscription)
    → ((s : Subscription) → row (f s) ≡ row s)
    → rows (update_each f l ss) ≡ rows ss
unfolding update_each
rows-update_each f [] ss keep = refl
rows-update_each f (id ∷ l) ss keep = rows-update_each f l _ keep ∙ rows-update id f ss keep

pub rows-commit_updates :
    (now : ℤ) (r : Round) (h : StreamHub)
    → rows (commit_updates now r h).subscriptions ≡ rows h.subscriptions
unfolding commit_updates
rows-commit_updates now r h =
    rows-update_each (beat now) r.beaten _ (λ s. refl)
    ∙ (rows-update_each (make_ready now) r.ready _ (λ s. refl)
        ∙ (rows-update_each (beat now) r.backfill_pending_kept _ (λ s. refl)
            ∙ (rows-record_resets r.reset_done _
                ∙ rows-finish_backfills now r.backfilled h.subscriptions)))

row-stamp_new : (now : ℤ) (s : Subscription) → row (stamp_new now s) ≡ row s
row-stamp_new now s = ground arith

pub rows-collect_work :
    (now : ℤ) (h : StreamHub) → rows (collect_work now h).0.subscriptions ≡ rows h.subscriptions
unfolding collect_work
rows-collect_work now h = rows-map (stamp_new now) h.subscriptions (row-stamp_new now)

length-erase :
    (id : ℕ) (ss : List Subscription) (s : Subscription)
    → find_subscription id ss ≡ some s
    → length ss ≡ suc (length (erase_subscription id ss))
unfolding erase_subscription find_subscription
length-erase id [] s h = ground arith
length-erase id (x ∷ ss) s h = ground (arith, length-erase id ss s)

erase-Descending :
    (id b : ℕ) (ss : List Subscription)
    → Descending b (rows ss)
    → Descending b (rows (erase_subscription id ss))
erase-Descending id b ss h = rw (rows-erase id ss) (erase_row-Descending id b (rows ss) h)

remove_one-Accounted :
    (id n : ℕ) (h : StreamHub) (s : Subscription)
    → find_subscription id h.subscriptions ≡ some s
    → Accounted h n
    → Accounted (remove_one id h) n
unfolding remove_one
remove_one-Accounted id n h s there ok = (
  erase-Descending id h.next_id h.subscriptions ok.0,
  omega (arith, ok.1, length-erase id h.subscriptions s there),
)

pub remove_failed-Accounted :
    (ids : List ℕ) (n : ℕ) (h : StreamHub) → Accounted h n → Accounted (remove_failed ids h).0 n
remove_failed-Accounted [] n h ok = unfold remove_failed in ok
remove_failed-Accounted (id ∷ ids) n h ok =
    elim (Option-cases (find_subscription id h.subscriptions)) [
      | inl gone ↦ rw (remove_failed-none id ids h gone) (remove_failed-Accounted ids n h ok)
      | inr (s, there) ↦
          rw (remove_failed-some id ids h s there) (
            remove_failed-Accounted ids n (remove_one id h)
              (remove_one-Accounted id n h s there ok))
    ]

commit-Accounted :
    (now : ℤ) (r : Round) (n : ℕ) (h : StreamHub) → Accounted h n → Accounted (commit now r h).0 n
unfolding commit commit_updates
commit-Accounted now r n h ok =
    let same = rows-commit_updates now r h in
    remove_failed-Accounted r.failed n (commit_updates now r h)
      (keep_Accounted n h (commit_updates now r h) same refl refl refl ok)

-- A locked block keeps the accounts.
HubStep-Accounted :
    {x y : HubSystem} → HubStep x y → Accounted x.hub x.taken → Accounted y.hub y.taken
unfolding collect_work register drop_subscription set_last_pushed_state begin_draining take_all
HubStep-Accounted (HubStep.registers h n player_id room_id sink options) ok =
    ((omega arith, ok.0), omega (arith, ok.1))
HubStep-Accounted (HubStep.drops h n id s there) ok = (
  erase-Descending id h.next_id h.subscriptions ok.0,
  omega (arith, ok.1, length-erase id h.subscriptions s there),
)
HubStep-Accounted (HubStep.collects h n now) ok =
    keep_Accounted n h (collect_work now h).0 (rows-collect_work now h) refl refl refl ok
HubStep-Accounted (HubStep.polls h n) ok = ok
HubStep-Accounted (HubStep.pushes h n room_id r terminal) ok = ground (arith, ok)
HubStep-Accounted (HubStep.commits h n now r) ok = commit-Accounted now r n h ok
HubStep-Accounted (HubStep.drains h n) ok = ok
HubStep-Accounted (HubStep.takes_all h n) ok = (tt, omega (arith, ok.1))

-- Whatever locked blocks the threads run, and in whatever order, no two subscriptions in the table have the
-- same id, every id in it is below the next one to be given out, and the number of subscriptions created is the number in the table,
-- plus those counted as closed by a failed write, plus those counted as closed otherwise, plus those that
-- the closing of the whole hub took, which no counter of the hub counts.
pub HubReach-Accounted :
    (interval : ℤ) (x : HubSystem) → HubReach (at (new_hub interval) 0) x → Accounted x.hub x.taken
HubReach-Accounted interval x HubReach.here = (tt, refl)
HubReach-Accounted interval x (HubReach.later path step) =
    HubStep-Accounted step (HubReach-Accounted interval _ path)
