-- ===== src/Gateway/Stream/Commit.antt =====
-- src/gateway/stream_hub.cpp: the fourth phase of `StreamHub::Tick`, which writes the results of the round
-- into the table under the lock and removes the subscriptions whose connection is gone.
use realtime_game_backend.Base.{
  ℕ, suc, ◌+◌, ◌≡◌, refl, true, false, List, [], ◌∷◌, Option, some, none,
}
use realtime_game_backend.Base.Int.{ℤ}
use realtime_game_backend.Base.Bytes.{Bytes}
use realtime_game_backend.Base.Dict.{Dict, find, assign}
use realtime_game_backend.Gateway.Stream.State.{
  StreamHub, Subscription, find_subscription, erase_subscription, update_subscription,
}

-- The local variables that the phase reads.
pub record Round : Type 0 where
  pub backfilled : List (ℕ × ℕ)
  pub backfilled_frames : ℕ
  pub reset_done : List (ℕ × Bytes)
  pub backfill_pending_kept : List ℕ
  pub ready : List ℕ
  pub beaten : List ℕ
  pub failed : List ℕ

abbrev pub empty_round : Round
empty_round = record {
  backfilled = [];
  backfilled_frames = 0;
  reset_done = [];
  backfill_pending_kept = [];
  ready = [];
  beaten = [];
  failed = [];
}

abbrev pub finish_backfill : ℤ → ℕ → Subscription → Subscription
finish_backfill now frames s = record s {
  backfill_pending = false;
  backfill_from = none;
  backfill_done = true;
  backfilled_frames = frames;
  last_heartbeat_ms = now;
}

abbrev pub record_reset : Bytes → Subscription → Subscription
record_reset reason s = record s { reset_sent = true; reset_reason = reason }

abbrev pub beat : ℤ → Subscription → Subscription
beat now s = record s { last_heartbeat_ms = now }

abbrev pub make_ready : ℤ → Subscription → Subscription
make_ready now s = record s { ready_sent = true; last_heartbeat_ms = now }

unfoldable pub finish_backfills : ℤ → List (ℕ × ℕ) → List Subscription → List Subscription
unfolding update_subscription
finish_backfills now [] ss = ss
finish_backfills now ((id, frames) ∷ rest) ss =
    finish_backfills now rest (update_subscription id (finish_backfill now frames) ss)

unfoldable pub record_resets : List (ℕ × Bytes) → List Subscription → List Subscription
unfolding update_subscription
record_resets [] ss = ss
record_resets ((id, reason) ∷ rest) ss =
    record_resets rest (update_subscription id (record_reset reason) ss)

abbrev pub or_zero : Option ℕ → ℕ
or_zero none = 0
or_zero (some n) = n

-- ++reset_counts_[reason]
unfoldable pub count_resets : List (ℕ × Bytes) → Dict ℕ → Dict ℕ
unfolding find assign
count_resets [] counts = counts
count_resets ((id, reason) ∷ rest) counts =
    count_resets rest (assign reason (suc (or_zero (find reason counts))) counts)

unfoldable pub update_each :
    (Subscription → Subscription) → List ℕ → List Subscription → List Subscription
unfolding update_subscription
update_each f [] ss = ss
update_each f (id ∷ ids) ss = update_each f ids (update_subscription id f ss)

-- ResetEventCount
unfoldable pub reset_event_count : Bytes → StreamHub → ℕ
unfolding find
reset_event_count reason h = or_zero (find reason h.reset_counts)

-- What the loops before the last make of the table.
unfoldable pub commit_updates : ℤ → Round → StreamHub → StreamHub
unfolding finish_backfills record_resets count_resets update_each
commit_updates now r h =
    let kept =
      update_each (beat now) r.backfill_pending_kept
        (record_resets r.reset_done (finish_backfills now r.backfilled h.subscriptions)) in
    record h {
      subscriptions = update_each (beat now) r.beaten (update_each (make_ready now) r.ready kept);
      backfilled_frame_count = h.backfilled_frame_count + r.backfilled_frames;
      reset_counts = count_resets r.reset_done h.reset_counts;
    }

unfoldable pub remove_one : ℕ → StreamHub → StreamHub
unfolding erase_subscription
remove_one id h = record h {
  subscriptions = erase_subscription id h.subscriptions;
  closed_write_failed_total = suc h.closed_write_failed_total;
}

-- The loop over `failed`, with the subscriptions that it removes.
unfoldable pub remove_failed : List ℕ → StreamHub → StreamHub × List Subscription
unfolding find_subscription remove_one
remove_failed [] h = (h, [])
remove_failed (id ∷ ids) h =
    let rest = remove_failed ids h in
    let rest' = remove_failed ids (remove_one id h) in
    elim (find_subscription id h.subscriptions) [ none ↦ rest | some s ↦ (rest'.0, s ∷ rest'.1) ]

unfoldable pub commit : ℤ → Round → StreamHub → StreamHub × List Subscription
unfolding commit_updates remove_failed
commit now r h = remove_failed r.failed (commit_updates now r h)

pub remove_failed-none :
    (id : ℕ) (ids : List ℕ) (h : StreamHub)
    → find_subscription id h.subscriptions ≡ none
    → remove_failed (id ∷ ids) h ≡ remove_failed ids h
unfolding remove_failed
remove_failed-none id ids h gone = rw (remove_failed, gone) refl

pub remove_failed-some :
    (id : ℕ) (ids : List ℕ) (h : StreamHub) (s : Subscription)
    → find_subscription id h.subscriptions ≡ some s
    → remove_failed (id ∷ ids) h
      ≡ ((remove_failed ids (remove_one id h)).0, s ∷ (remove_failed ids (remove_one id h)).1)
unfolding remove_failed
remove_failed-some id ids h s there = rw (remove_failed, there) refl
