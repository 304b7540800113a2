-- ===== src/Room/Battle/Timeline.antt =====
-- The snapshot history of battle_room.cpp: it is never empty nor longer than the limit, its frames
-- follow one another with none left out, and the last is the room's own frame.
use realtime_game_backend.Base.{
  ℕ, zero, suc, ◌+◌, ◌≤◌, ◌<◌, ◌≡◌, refl, sym, ◌∙◌, ap, ◌⊎◌, inl, inr, List, [], ◌∷◌, ◌++◌, arith,
  Bool, true, false, Bool-cases, some, length, modify, ◌%◌, leb, &&-parts, ◌&&◌,
}
use realtime_game_backend.Base.Int.{ℤ, pos, ◌+ℤ◌, leb_ℤ}
use realtime_game_backend.Base.Bytes.{Bytes}
use realtime_game_backend.Room.Types.{
  RoomPhase, RoomSnapshot, PlayerSnapshot, max_snapshot_history, max_frames,
}
use realtime_game_backend.Room.Battle.State.{
  BattleRoom, make_room, snapshot, trim, push_snapshot, finish, abort, has_ended, index_of,
  index_from,
}
use realtime_game_backend.Room.Battle.Commands.{
  admit, change_presence, connect, set_online, all_joined, is_connected, is_online,
}
use realtime_game_backend.Room.Battle.Frames.{
  alive, hit, settle_frame, advance_one_frame, resolve_attacks, resolve_attack,
}
use realtime_game_backend.Room.Battle.Calls.{Call, run}
use realtime_game_backend.Room.Battle.Preserved.{Preserved, run_rule}

-- A snapshot has the frame of the one before it or the next.
abbrev pub Next : ℤ → ℤ → Type 0
Next f g = (g ≡ f) ⊎ (g ≡ f +ℤ pos 1)

-- The frames of a history that ends at the frame `f`.
abbrev pub Linked : List RoomSnapshot → ℤ → Type 0
Linked [] f = ⊥
Linked (s ∷ []) f = s.frame ≡ f
Linked (s ∷ t ∷ rest) f = Next s.frame t.frame × Linked (t ∷ rest) f

pub record IsTimeline (r : BattleRoom) : Type 0 where
  pub linked : Linked r.history r.frame
  pub bounded : length r.history ≤ max_snapshot_history
  pub not_started : (r.phase ≡ RoomPhase.created) ⊎ (r.phase ≡ RoomPhase.waiting) → r.frame ≡ pos 0
  pub started : r.phase ≡ RoomPhase.playing → all_joined r.players ≡ true

Linked-append :
    (hs : List RoomSnapshot) (s : RoomSnapshot) (f : ℤ)
    → Linked hs f
    → Next f s.frame
    → Linked (hs ++ s ∷ []) s.frame
Linked-append [] s f l n = absurd l
Linked-append (h ∷ []) s f l n = (rw l n, refl)
Linked-append (h ∷ t ∷ rest) s f l n = (l.0, Linked-append (t ∷ rest) s f l.1 n)

Linked-trim : (hs : List RoomSnapshot) (f : ℤ) → Linked hs f → Linked (trim hs) f
unfolding trim
Linked-trim [] f l = l
Linked-trim (h ∷ []) f l = l
Linked-trim (h ∷ t ∷ rest) f l = ground (arith, Linked-trim (t ∷ rest) f l.1)

trim_bounded : (hs : List RoomSnapshot) → length (trim hs) ≤ max_snapshot_history
unfolding trim
trim_bounded [] = omega arith
trim_bounded (h ∷ rest) = ground (arith, trim_bounded rest)

-- Pushing a snapshot of a room whose frame is the last one or the next.
push-Linked :
    (r : BattleRoom) (f : ℤ)
    → Linked r.history f
    → Next f r.frame
    → Linked (push_snapshot r).history r.frame
      × (length (push_snapshot r).history ≤ max_snapshot_history)
unfolding push_snapshot
push-Linked r f l n = (
  Linked-trim _ r.frame (Linked-append r.history (snapshot r) f l n),
  trim_bounded (r.history ++ snapshot r ∷ []),
)

all_joined-modify :
    (ps : List PlayerSnapshot) (i : ℕ) (f : PlayerSnapshot → PlayerSnapshot)
    → ((p : PlayerSnapshot) → (f p).connected ≡ p.connected)
    → all_joined (modify ps i f) ≡ all_joined ps
unfolding all_joined
all_joined-modify [] i f keep = refl
all_joined-modify (p ∷ ps) zero f keep = ap (λ (b : Bool). b && all_joined ps) (keep p)
all_joined-modify (p ∷ ps) (suc i) f keep =
    ap (λ (b : Bool). p.connected && b) (all_joined-modify ps i f keep)

connected-hit : (p : PlayerSnapshot) → (hit p).connected ≡ p.connected
unfolding hit
connected-hit p = ground arith

-- What the loop over the attacks leaves as it was.
pub record SameBut (q r : BattleRoom) : Type 0 where
  pub frame : q.frame ≡ r.frame
  pub phase : q.phase ≡ r.phase
  pub history : q.history ≡ r.history
  pub joined : all_joined q.players ≡ all_joined r.players

resolve_attack-SameBut : (i : ℕ) (r : BattleRoom) → SameBut (resolve_attack i r) r
unfolding resolve_attack
resolve_attack-SameBut i r =
    ground (arith, all_joined-modify r.players ((i + 1) % length r.players) hit connected-hit)

resolve_attacks-SameBut : (n i : ℕ) (r : BattleRoom) → SameBut (resolve_attacks n i r) r
unfolding resolve_attacks
resolve_attacks-SameBut zero i r = record {
  frame = refl;
  phase = refl;
  history = refl;
  joined = refl;
}
resolve_attacks-SameBut (suc n) i r =
    ground
      (arith, resolve_attack-SameBut i r, resolve_attacks-SameBut n (i + 1) (resolve_attack i r))

-- A push in a phase that is not before the start of the game.
pushed-IsTimeline :
    (r : BattleRoom) (f : ℤ)
    → Linked r.history f
    → Next f r.frame
    → ((r.phase ≡ RoomPhase.created) ⊎ (r.phase ≡ RoomPhase.waiting) → r.frame ≡ pos 0)
    → (r.phase ≡ RoomPhase.playing → all_joined r.players ≡ true)
    → IsTimeline (push_snapshot r)
unfolding push_snapshot
pushed-IsTimeline r f l n before j =
    let (linked, bounded) = push-Linked r f l n in
    record { linked = linked; bounded = bounded; not_started = before; started = j }

settle_frame-IsTimeline :
    (now : ℤ) (r : BattleRoom) (f : ℤ)
    → r.phase ≡ RoomPhase.playing
    → Linked r.history f
    → Next f r.frame
    → all_joined r.players ≡ true
    → IsTimeline (settle_frame now r)
unfolding settle_frame finish
settle_frame-IsTimeline now r f p l n j = elim (Bool-cases (leb (length (alive r.players)) 1)) [
  | inl few ↦ rw few (pushed-IsTimeline _ f l n (ground arith) (ground arith))
  | inr many ↦ elim (Bool-cases (leb_ℤ max_frames r.frame)) [
    | inl late ↦ rw (many, late) (pushed-IsTimeline _ f l n (ground arith) (ground arith))
    | inr early ↦ rw (many, early) (pushed-IsTimeline r f l n (ground arith) (λ _. j))
  ]
]

advance_one_frame-IsTimeline :
    (now : ℤ) (r : BattleRoom)
    → r.phase ≡ RoomPhase.playing
    → IsTimeline r
    → IsTimeline (advance_one_frame now r)
unfolding advance_one_frame
advance_one_frame-IsTimeline now r p v =
    let next = record r { frame = r.frame +ℤ pos 1 } in
    let kept = resolve_attacks-SameBut (length r.players) 0 next in
    settle_frame-IsTimeline now _ r.frame (kept.phase ∙ p) (rw kept.history v.linked)
      (inr kept.frame) (kept.joined ∙ v.started p)

index_bounds :
    (k : ℕ) (ps : List PlayerSnapshot) (id : Bytes) (j : ℕ)
    → index_from k ps id ≡ some j
    → (k ≤ j) × (j < k + length ps)
unfolding index_from
index_bounds k [] id j e = cc
index_bounds k (p ∷ ps) id j e = ground (arith, index_bounds (suc k) ps id j)

connected_at :
    (ps : List PlayerSnapshot) (i : ℕ)
    → all_joined ps ≡ true
    → i < length ps
    → is_connected ps i ≡ true
unfolding all_joined
connected_at [] i a h = absurd (omega arith)
connected_at (p ∷ ps) zero a h = (&&-parts p.connected (all_joined ps) a).0
connected_at (p ∷ ps) (suc i) a h =
    connected_at ps i (&&-parts p.connected (all_joined ps) a).1 (omega arith)

-- Whom `Join` admits finds the game not started.
not_started_of :
    (id : Bytes) (i : ℕ) (r : BattleRoom)
    → index_of r id ≡ some i
    → has_ended r.phase ≡ false
    → is_connected r.players i ≡ false
    → IsTimeline r
    → (r.phase ≡ RoomPhase.created) ⊎ (r.phase ≡ RoomPhase.waiting)
unfolding index_of
not_started_of id i r f e c v =
    ground (arith, v.started, connected_at r.players i, index_bounds 0 r.players id i f)

admit-IsTimeline :
    (id : Bytes) (i : ℕ) (now : ℤ) (r : BattleRoom)
    → index_of r id ≡ some i
    → has_ended r.phase ≡ false
    → is_connected r.players i ≡ false
    → IsTimeline r
    → IsTimeline (admit i now r)
unfolding admit
admit-IsTimeline id i now r f e c v =
    let zero_frame : r.frame ≡ pos 0 = v.not_started (not_started_of id i r f e c v) in
    elim (Bool-cases (all_joined (modify r.players i connect))) [
      | inl all ↦
          rw all
            (pushed-IsTimeline _ r.frame v.linked (inl (sym zero_frame)) (λ _. refl) (λ _. all))
      | inr some_missing ↦ rw some_missing (
          pushed-IsTimeline _ r.frame v.linked (inl refl) (λ _. zero_frame)
            (ground (arith, not_started_of id i r f e c v)))
    ]

change_presence-IsTimeline :
    (i : ℕ) (online : Bool) (now : ℤ) (r : BattleRoom)
    → IsTimeline r
    → IsTimeline (change_presence i online now r)
unfolding change_presence
change_presence-IsTimeline i true now r v = record {
  linked = v.linked;
  bounded = v.bounded;
  not_started = v.not_started;
  started = λ p. rw (all_joined-modify r.players i (set_online true) (λ q. refl)) (v.started p);
}
change_presence-IsTimeline i false now r v = elim (Bool-cases (is_online r.runtime i)) [
  | inl up ↦ rw up (
      pushed-IsTimeline _ r.frame v.linked (inl refl) v.not_started
        (λ p. all_joined-modify r.players i (set_online false) (λ q. refl) ∙ v.started p))
  | inr down ↦ rw down v
]

pub timelines : Preserved IsTimeline
unfolding finish abort
timelines = record {
  clock = λ t r v. record {
    linked = v.linked;
    bounded = v.bounded;
    not_started = v.not_started;
    started = v.started;
  };
  frame = advance_one_frame-IsTimeline;
  disconnect =
      λ i now r p v. pushed-IsTimeline _ r.frame v.linked (inl refl) (ground arith) (ground arith);
  stopped =
      λ now r e v. pushed-IsTimeline _ r.frame v.linked (inl refl) (ground arith) (ground arith);
  admitted = admit-IsTimeline;
  pending = λ i r p v. record {
    linked = v.linked;
    bounded = v.bounded;
    not_started = v.not_started;
    started = v.started;
  };
  presence = λ i online now r e v. change_presence-IsTimeline i online now r v;
  persisted = λ r p v. record {
    linked = v.linked;
    bounded = v.bounded;
    not_started = ground arith;
    started = ground arith;
  };
  failed = λ now r v. record {
    linked = v.linked;
    bounded = v.bounded;
    not_started = v.not_started;
    started = v.started;
  };
}

pub make_room-IsTimeline :
    (room_id match_id : Bytes) (ids : List Bytes) (now : ℤ)
    → IsTimeline (make_room room_id match_id ids now)
unfolding make_room push_snapshot trim
make_room-IsTimeline room_id match_id ids now = record {
  linked = refl;
  bounded = omega arith;
  not_started = λ _. refl;
  started = ground arith;
}

-- In every room that the constructor makes, after any calls, the history is not empty, has at most
-- `max_snapshot_history` snapshots, each of which has the frame of the one before it or the next
-- frame, and ends at the room's frame; a game that has not started is at frame 0, and while the
-- game is played all players have joined.
pub run-IsTimeline :
    (room_id match_id : Bytes) (ids : List Bytes) (now : ℤ) (cs : List Call)
    → IsTimeline (run (make_room room_id match_id ids now) cs)
run-IsTimeline room_id match_id ids now cs =
    run_rule timelines _ cs (make_room-IsTimeline room_id match_id ids now)
