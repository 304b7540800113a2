-- ===== src/Room/Battle/Resume.antt =====
-- What `SnapshotsAfter` and `SnapshotFrameRange` of battle_room.cpp promise to a client that
-- reconnects: inside the window it gets every frame that it missed, once and in order.
use realtime_game_backend.Base.{
  ◌≡◌, refl, ◌∙◌, ap₂, ◌⊎◌, inl, inr, List, [], ◌∷◌, arith, true, false, Bool-cases, if◌then◌else◌,
}
use realtime_game_backend.Base.Int.{
  ℤ, pos, ◌+ℤ◌, ◌≤ℤ◌, ◌<ℤ◌, leb_ℤ, ltb_ℤ, int_laws, +ℤ_parts, parts_of_eq, eq_of_parts, leb_ℤ→le,
  leb_ℤ→gt,
}
use realtime_game_backend.Room.Types.{RoomSnapshot}
use realtime_game_backend.Room.Battle.State.{BattleRoom}
use realtime_game_backend.Room.Battle.Results.{
  widen, snapshot_frame_range, eq_frame, collect, collect_after, backwards, snapshots_after,
}
use realtime_game_backend.Room.Battle.Timeline.{Next, Linked, IsTimeline}

-- One snapshot for each frame after `since`, in order, up to `last`.
abbrev pub Consecutive : ℤ → List RoomSnapshot → ℤ → Type 0
Consecutive since [] last = since ≡ last
Consecutive since (s ∷ rest) last =
    (s.frame ≡ since +ℤ pos 1) × Consecutive (since +ℤ pos 1) rest last

-- The same of a list that is read from its back to its front.
abbrev Descending : ℤ → List RoomSnapshot → ℤ → Type 0
Descending since [] last = since ≡ last
Descending since (s ∷ out) last =
    (g : ℤ) × (s.frame ≡ last) × (last ≡ g +ℤ pos 1) × Descending since out g

Descending-le :
    (since : ℤ) (out : List RoomSnapshot) (last : ℤ) → Descending since out last → since ≤ℤ last
Descending-le since [] last d = rw d (omega arith)
Descending-le since (s ∷ out) last (g, e, f, d) =
    rw f (omega (int_laws, Descending-le since out g d))

backwards-Consecutive :
    (since : ℤ) (out acc : List RoomSnapshot) (middle last : ℤ)
    → Descending since out middle
    → Consecutive middle acc last
    → Consecutive since (backwards acc out) last
backwards-Consecutive since [] acc middle last d c = rw d c
backwards-Consecutive since (s ∷ out) acc middle last (g, e, f, d) c =
    backwards-Consecutive since out (s ∷ acc) g last d (e ∙ f, rw f at c)

-- What the loop has collected once it has come to the frame `f`.
abbrev Collected : ℤ → List RoomSnapshot → ℤ → Type 0
Collected since out f = ((out ≡ []) × (f ≤ℤ since)) ⊎ ((since <ℤ f) × Descending since out f)

same_frame : (f g h : ℤ) → f ≡ h → g ≡ h → eq_frame f g ≡ true
same_frame f g h e k = rw (e, k) (ground arith)

next_frame : (f g h : ℤ) → f ≡ h → g ≡ h +ℤ pos 1 → eq_frame f g ≡ false
next_frame f g h e k = rw (e, k) (ground (arith, +ℤ_parts h (pos 1)))

collect-Descending :
    (since : ℤ) (s : RoomSnapshot) (out : List RoomSnapshot) (f : ℤ)
    → since <ℤ f
    → Descending since out f
    → Next f s.frame
    → Descending since (collect s out) s.frame
unfolding collect
collect-Descending since s [] f h d n = absurd (omega (arith, parts_of_eq since f d))
collect-Descending since s (b ∷ out) f h (g, e, k, d) (inl same) =
    rw (same_frame b.frame s.frame f e same) (g, refl, same ∙ k, d)
collect-Descending since s (b ∷ out) f h (g, e, k, d) (inr after) =
    rw (next_frame b.frame s.frame f e after) (f, refl, after, (g, e, k, d))

Next-le : (f g : ℤ) → Next f g → f ≤ℤ g
Next-le f g (inl e) = rw e (omega arith)
Next-le f g (inr e) = rw e (omega int_laws)

-- The first frame beyond `since` is the one after it.
enters : (since f g : ℤ) → f ≤ℤ since → since <ℤ g → Next f g → g ≡ since +ℤ pos 1
enters since f g h k (inl e) = absurd (omega (arith, parts_of_eq g f e))
enters since f g h k (inr e) = omega (int_laws, parts_of_eq g (f +ℤ pos 1) e)

collect-Collected :
    (since : ℤ) (s : RoomSnapshot) (out : List RoomSnapshot) (f : ℤ)
    → Collected since out f
    → Next f s.frame
    → Collected since (if leb_ℤ s.frame since then out else collect s out) s.frame
unfolding collect
collect-Collected since s out f c n = elim (Bool-cases (leb_ℤ s.frame since)) [
  | inl old ↦ rw old (elim c [
    | inl (e, h) ↦ inl (e, leb_ℤ→le s.frame since old)
    | inr (h, d) ↦ absurd (omega (arith, Next-le f s.frame n, leb_ℤ→le s.frame since old))
  ])
  | inr new ↦ rw new (elim c [
    | inl (e, h) ↦ inr (
      leb_ℤ→gt s.frame since new,
      rw e (since, refl, enters since f s.frame h (leb_ℤ→gt s.frame since new) n, refl),
    )
    | inr (h, d) ↦ inr (leb_ℤ→gt s.frame since new, collect-Descending since s out f h d n)
  ])
]

collect_after-Collected :
    (since last : ℤ) (s : RoomSnapshot) (rest out : List RoomSnapshot)
    → Linked (s ∷ rest) last
    → Collected since out s.frame
    → Collected since (collect_after since rest out) last
unfolding collect_after
collect_after-Collected since last s [] out l c = rw (← l) c
collect_after-Collected since last s (t ∷ rest) out (n, l) c =
    collect_after-Collected since last t rest _ l (collect-Collected since t out s.frame c n)

Collected-Consecutive :
    (since last : ℤ) (out : List RoomSnapshot)
    → since ≤ℤ last
    → Collected since out last
    → Consecutive since (backwards [] out) last
Collected-Consecutive since last out h (inl (e, k)) = rw e (omega (arith, eq_of_parts since last))
Collected-Consecutive since last out h (inr (k, d)) =
    backwards-Consecutive since out [] last last d refl

keeps_low : (low g : ℤ) → low ≤ℤ g → (if ltb_ℤ g low then g else low) ≡ low
keeps_low low g h = ground arith

takes_new : (f g : ℤ) → Next f g → (if ltb_ℤ f g then g else f) ≡ g
takes_new f g (inl e) = ground arith
takes_new f g (inr e) = rw e (ground (arith, +ℤ_parts f (pos 1)))

-- The oldest frame of the window is that of the first snapshot, the newest that of the last.
widen_lem :
    (s : RoomSnapshot) (rest : List RoomSnapshot) (low last : ℤ)
    → low ≤ℤ s.frame
    → Linked (s ∷ rest) last
    → widen (record { oldest = low; newest = s.frame }) rest
      ≡ record { oldest = low; newest = last }
unfolding widen
widen_lem s [] low last h l = rw l
widen_lem s (t ∷ rest) low last h (n, l) =
    ap₂ (λ (a b : ℤ). widen (record { oldest = a; newest = b }) rest)
      (keeps_low low t.frame (omega (arith, Next-le s.frame t.frame n)))
      (takes_new s.frame t.frame n)
    ∙ widen_lem t rest low last (omega (arith, Next-le s.frame t.frame n)) l

snapshot_frame_range_lem :
    (s : RoomSnapshot) (rest : List RoomSnapshot) (last : ℤ)
    → Linked (s ∷ rest) last
    → snapshot_frame_range (s ∷ rest) ≡ record { oldest = s.frame; newest = last }
unfolding snapshot_frame_range
snapshot_frame_range_lem s rest last l = widen_lem s rest s.frame last (omega arith) l

snapshots_from :
    (since last : ℤ) (history : List RoomSnapshot)
    → Linked history last
    → (snapshot_frame_range history).oldest ≤ℤ since +ℤ pos 1
    → since ≤ℤ last
    → Consecutive since (backwards [] (collect_after since history [])) last
unfolding collect_after collect
snapshots_from since last [] l low high = absurd l
snapshots_from since last (s ∷ rest) l low high =
    Collected-Consecutive since last _ high (collect_after-Collected since last s rest _ l first)
  where
    start : s.frame ≤ℤ since +ℤ pos 1
    start = rw (snapshot_frame_range_lem s rest last l) at low

    first : Collected since (if leb_ℤ s.frame since then [] else collect s []) s.frame
    first = elim (Bool-cases (leb_ℤ s.frame since)) [
      | inl old ↦ rw old (inl (refl, leb_ℤ→le s.frame since old))
      | inr new ↦ rw new (
          inr (
            leb_ℤ→gt s.frame since new,
            (since, refl, omega (int_laws, start, leb_ℤ→gt s.frame since new), refl),
          ))
    ]

-- If `since` is neither ahead of the room nor so old that the window misses the frame after it,
-- then `snapshots_after since` has exactly one snapshot for each frame from `since + 1` to the
-- room's frame, in order.
pub snapshots_after-Consecutive :
    (since : ℤ) (r : BattleRoom)
    → IsTimeline r
    → (snapshot_frame_range r.history).oldest ≤ℤ since +ℤ pos 1
    → since ≤ℤ r.frame
    → Consecutive since (snapshots_after since r) r.frame
unfolding snapshots_after
snapshots_after-Consecutive since r v low high =
    snapshots_from since r.frame r.history v.linked low high
