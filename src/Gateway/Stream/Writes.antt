-- ===== src/Gateway/Stream/Writes.antt =====
-- src/gateway/stream_hub.cpp: which connections a round of `Tick` writes to.
use realtime_game_backend.Base.{
  ℕ, subst, ◌≡◌, refl, ap, ◌∙◌, sym, Bool, true, false, List, [], ◌∷◌, ◌++◌, map, Option, some,
  none, nat_eq, arith, inl, inr, Bool-cases, Option-cases, ◌||◌, ◌&&◌,
}
use realtime_game_backend.Base.Int.{ℤ}
use realtime_game_backend.Gateway.Stream.State.{Subscription, find_subscription, is_zero}
use realtime_game_backend.Gateway.Stream.Push.{SinkRef}
use realtime_game_backend.Gateway.Stream.Collect.{
  RoundWork, ReadyTarget, collect_each, collect_one, collect_live, collect_backfill,
  is_heartbeat_due, stamp_new,
}
use realtime_game_backend.Gateway.Stream.Table.{row_of}
use realtime_game_backend.Gateway.Stream.Refinement.{is_among}

is_among-append : (id : ℕ) (a b : List ℕ) → is_among id (a ++ b) ≡ (is_among id a || is_among id b)
is_among-append id [] b = refl
is_among-append id (x ∷ a) b = ground (arith, is_among-append id a b)

pub is_among-last :
    (id : ℕ) (a b c d : List ℕ)
    → (is_among id c || is_among id d) ≡ true
    → is_among id (a ++ (b ++ (c ++ d))) ≡ true
is_among-last id a b c d h =
    let outer = is_among-append id a (b ++ (c ++ d)) in
    let middle = is_among-append id b (c ++ d) in
    let inner = is_among-append id c d in ground (arith, outer, middle, inner)

pub row_of-none : (o : Option Subscription) → row_of o ≡ none → o ≡ none
row_of-none none h = refl
row_of-none (some s) h = ground arith

-- The sinks that a list of writes is for, and those of the players that are told that their session is ready.
abbrev pub has_ref : ℕ → ℕ → List SinkRef → Bool
has_ref id n [] = false
has_ref id n (t ∷ ts) = (nat_eq t.id id && nat_eq t.sink n) || has_ref id n ts

abbrev pub has_ready : ℕ → ℕ → List ReadyTarget → Bool
has_ready id n [] = false
has_ready id n (t ∷ ts) = (nat_eq t.id id && nat_eq t.sink n) || has_ready id n ts

has_ref-append :
    (id n : ℕ) (a b : List SinkRef) → has_ref id n (a ++ b) ≡ (has_ref id n a || has_ref id n b)
has_ref-append id n [] b = refl
has_ref-append id n (x ∷ a) b = ground (arith, has_ref-append id n a b)

has_ready-append :
    (id n : ℕ) (a b : List ReadyTarget)
    → has_ready id n (a ++ b) ≡ (has_ready id n a || has_ready id n b)
has_ready-append id n [] b = refl
has_ready-append id n (x ∷ a) b = ground (arith, has_ready-append id n a b)

-- A round will write to the sink, at the latest with a heartbeat.
abbrev pub will_write : ℕ → ℕ → RoundWork → Bool
will_write id n c = has_ref id n c.need_heartbeat || has_ready id n c.need_ready

collect_backfill-keeps :
    (interval now : ℤ) (s : Subscription) (sink : ℕ) (c : RoundWork) (id n : ℕ)
    → will_write id n c ≡ true
    → will_write id n (collect_backfill interval now s sink c) ≡ true
unfolding collect_backfill
collect_backfill-keeps interval now s sink c id n h =
    let longer = has_ref-append id n c.need_heartbeat (record { id = s.id; sink = sink } ∷ []) in
    ground (arith, longer)

collect_live-keeps :
    (interval now : ℤ) (s : Subscription) (sink : ℕ) (c : RoundWork) (id n : ℕ)
    → will_write id n c ≡ true
    → will_write id n (collect_live interval now s sink c) ≡ true
unfolding collect_live
collect_live-keeps interval now s sink c id n h =
    let longer = has_ref-append id n c.need_heartbeat (record { id = s.id; sink = sink } ∷ []) in
    let more =
      has_ready-append id n c.need_ready
        (record { id = s.id; sink = sink; player_id = s.player_id; room_id = s.room_id } ∷ []) in
    ground (arith, longer, more)

collect_one-keeps :
    (interval now : ℤ) (s : Subscription) (c : RoundWork) (id n : ℕ)
    → will_write id n c ≡ true
    → will_write id n (collect_one interval now s c) ≡ true
unfolding collect_one
collect_one-keeps interval now s c id n h = elim (Option-cases s.sink) [
  | inl none_there ↦ rw (collect_one, none_there) h
  | inr (sink, there) ↦
      let pending = collect_backfill-keeps interval now s sink c id n h in
      let live = collect_live-keeps interval now s sink c id n h in
      rw (collect_one, there) (ground (arith, pending, live))
]

collect_backfill-adds :
    (interval now : ℤ) (s : Subscription) (n : ℕ) (c : RoundWork)
    → is_heartbeat_due interval now s ≡ true
    → will_write s.id n (collect_backfill interval now s n c) ≡ true
unfolding collect_backfill
collect_backfill-adds interval now s n c due =
    let longer = has_ref-append s.id n c.need_heartbeat (record { id = s.id; sink = n } ∷ []) in
    rw (collect_backfill, due) (ground (arith, longer))

collect_live-adds :
    (interval now : ℤ) (s : Subscription) (n : ℕ) (c : RoundWork)
    → is_heartbeat_due interval now s ≡ true
    → will_write s.id n (collect_live interval now s n c) ≡ true
unfolding collect_live
collect_live-adds interval now s n c due =
    let longer = has_ref-append s.id n c.need_heartbeat (record { id = s.id; sink = n } ∷ []) in
    let more =
      has_ready-append s.id n c.need_ready
        (record { id = s.id; sink = n; player_id = s.player_id; room_id = s.room_id } ∷ []) in
    ground (arith, longer, more)

collect_one-adds :
    (interval now : ℤ) (s : Subscription) (c : RoundWork) (n : ℕ)
    → s.sink ≡ some n
    → is_heartbeat_due interval now s ≡ true
    → will_write s.id n (collect_one interval now s c) ≡ true
unfolding collect_one
collect_one-adds interval now s c n sink due =
    let pending = collect_backfill-adds interval now s n c due in
    let live = collect_live-adds interval now s n c due in
    rw (collect_one, sink) (ground (arith, pending, live))

collect_each-keeps :
    (interval now : ℤ) (ss : List Subscription) (c : RoundWork) (id n : ℕ)
    → will_write id n c ≡ true
    → will_write id n (collect_each interval now ss c) ≡ true
unfolding collect_each
collect_each-keeps interval now [] c id n h = h
collect_each-keeps interval now (s ∷ ss) c id n h =
    collect_each-keeps interval now ss (collect_one interval now s c) id n
      (collect_one-keeps interval now s c id n h)

stamp_new-old : (now : ℤ) (s : Subscription) → is_zero s.created_ms ≡ false → stamp_new now s ≡ s
stamp_new-old now s old = rw old refl

find-head :
    (id : ℕ) (x : Subscription) (ss : List Subscription) (s : Subscription)
    → find_subscription id (x ∷ ss) ≡ some s
    → nat_eq x.id id ≡ true
    → x ≡ s
unfolding find_subscription
find-head id x ss s there e = ground arith

find-tail :
    (id : ℕ) (x : Subscription) (ss : List Subscription) (s : Subscription)
    → find_subscription id (x ∷ ss) ≡ some s
    → nat_eq x.id id ≡ false
    → find_subscription id ss ≡ some s
unfolding find_subscription
find-tail id x ss s there e = ground arith

-- Every subscription whose heartbeat is due is written to.
pub collect_each-adds :
    (interval now : ℤ) (ss : List Subscription) (c : RoundWork) (id n : ℕ) (s : Subscription)
    → find_subscription id ss ≡ some s
    → is_zero s.created_ms ≡ false
    → s.sink ≡ some n
    → is_heartbeat_due interval now s ≡ true
    → will_write id n (collect_each interval now (map (stamp_new now) ss) c) ≡ true
unfolding collect_each
collect_each-adds interval now [] c id n s there old sink due =
    absurd (unfold find_subscription in ground arith)
collect_each-adds interval now (x ∷ ss) c id n s there old sink due =
    elim (Bool-cases (nat_eq x.id id)) [
      | inl e ↦
          let same : s ≡ x = sym (find-head id x ss s there e) in
          let stamped : s ≡ stamp_new now x =
            sym (stamp_new-old now s old) ∙ ap (λ y. stamp_new now y) same in
          let named : s.id ≡ id = ap (λ y. y.id) same ∙ ground arith in
          let adds = collect_one-adds interval now s c n sink due in
          let written =
            subst (λ y. will_write id n (collect_one interval now y c) ≡ true) stamped
              (subst (λ k. will_write k n (collect_one interval now s c) ≡ true) named adds) in
          collect_each-keeps interval now (map (stamp_new now) ss)
            (collect_one interval now (stamp_new now x) c) id n written
      | inr e ↦
          collect_each-adds interval now ss (collect_one interval now (stamp_new now x) c) id n s
            (find-tail id x ss s there e) old sink due
    ]
