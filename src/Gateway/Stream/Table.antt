-- ===== src/Gateway/Stream/Table.antt =====
-- src/gateway/stream_hub.cpp: what a change of the table of subscriptions does to its rows, the part of a
-- subscription that never changes.
use realtime_game_backend.Base.{
  ℕ, suc, ◌≤◌, ◌<◌, ◌≡◌, refl, ap, false, List, [], ◌∷◌, map, Option, some, none, if◌then◌else◌,
  nat_eq, length, arith, inl, inr, Bool-cases,
}
use realtime_game_backend.Base.Bytes.{Bytes}
use realtime_game_backend.Gateway.Stream.State.{
  Subscription, find_subscription, erase_subscription, update_subscription,
}

pub record Row : Type 0 where
  pub id : ℕ
  pub player_id : Bytes
  pub room_id : Bytes
  pub request_id : Bytes
  pub sink : Option ℕ

abbrev pub row : Subscription → Row
row s = record {
  id = s.id;
  player_id = s.player_id;
  room_id = s.room_id;
  request_id = s.request_id;
  sink = s.sink;
}

abbrev pub rows : List Subscription → List Row
rows [] = []
rows (s ∷ ss) = row s ∷ rows ss

abbrev pub row_of : Option Subscription → Option Row
row_of none = none
row_of (some s) = some (row s)

abbrev pub look : ℕ → List Row → Option Row
look id [] = none
look id (r ∷ rs) = if nat_eq r.id id then some r else look id rs

unfoldable pub erase_row : ℕ → List Row → List Row
erase_row id [] = []
erase_row id (r ∷ rs) = let rest = erase_row id rs in if nat_eq r.id id then rs else r ∷ rest

-- The ids fall from below a bound on, so no two rows have the same one.
abbrev pub Descending : ℕ → List Row → Type 0
Descending bound [] = Unit
Descending bound (r ∷ rs) = (r.id < bound) × Descending r.id rs

pub row_of-find :
    (id : ℕ) (ss : List Subscription) → row_of (find_subscription id ss) ≡ look id (rows ss)
unfolding find_subscription
row_of-find id [] = refl
row_of-find id (s ∷ ss) = ground (arith, row_of-find id ss)

pub rows-erase :
    (id : ℕ) (ss : List Subscription) → rows (erase_subscription id ss) ≡ erase_row id (rows ss)
unfolding erase_subscription erase_row
rows-erase id [] = refl
rows-erase id (s ∷ ss) = ground (arith, rows-erase id ss)

pub rows-update :
    (id : ℕ) (f : Subscription → Subscription) (ss : List Subscription)
    → ((s : Subscription) → row (f s) ≡ row s)
    → rows (update_subscription id f ss) ≡ rows ss
unfolding update_subscription
rows-update id f [] keep = refl
rows-update id f (s ∷ ss) keep = elim (Bool-cases (nat_eq s.id id)) [
  | inl e ↦ rw (e, keep s) refl
  | inr e ↦ rw (e, rows-update id f ss keep) refl
]

pub rows-map :
    (f : Subscription → Subscription) (ss : List Subscription)
    → ((s : Subscription) → row (f s) ≡ row s)
    → rows (map f ss) ≡ rows ss
rows-map f [] keep = refl
rows-map f (s ∷ ss) keep = rw (keep s, rows-map f ss keep) refl

pub length-rows : (ss : List Subscription) → length (rows ss) ≡ length ss
length-rows [] = refl
length-rows (s ∷ ss) = ap suc (length-rows ss)

pub Descending-weaken : (a b : ℕ) (rs : List Row) → a ≤ b → Descending a rs → Descending b rs
Descending-weaken a b [] le h = tt
Descending-weaken a b (r ∷ rs) le h = (omega arith, h.1)

pub erase_row-Descending :
    (id b : ℕ) (rs : List Row) → Descending b rs → Descending b (erase_row id rs)
unfolding erase_row
erase_row-Descending id b [] h = tt
erase_row-Descending id b (r ∷ rs) h =
    let rest = erase_row-Descending id r.id rs h.1 in
    let weak = Descending-weaken r.id b rs (omega (arith, h.0)) h.1 in
    elim (Bool-cases (nat_eq r.id id)) [ inl e ↦ rw e weak | inr e ↦ rw e (h.0, rest) ]

pub look-above : (id b : ℕ) (rs : List Row) → Descending b rs → b ≤ id → look id rs ≡ none
look-above id b [] h le = refl
look-above id b (r ∷ rs) h le =
    let other : nat_eq r.id id ≡ false = ground (arith, h.0) in
    rw other (look-above id r.id rs h.1 (omega (arith, h.0)))

pub look-erase_row :
    (id j b : ℕ) (rs : List Row)
    → Descending b rs
    → look j (erase_row id rs) ≡ (if nat_eq id j then none else look j rs)
unfolding erase_row
look-erase_row id j b [] h = ground arith
look-erase_row id j b (r ∷ rs) h =
    let rest = look-erase_row id j r.id rs h.1 in
    let gone : (r.id ≤ j) → look j rs ≡ none = look-above j r.id rs h.1 in ground arith

pub length-erase_row :
    (id : ℕ) (rs : List Row) (r : Row)
    → look id rs ≡ some r
    → length rs ≡ suc (length (erase_row id rs))
unfolding erase_row
length-erase_row id [] r h = ground arith
length-erase_row id (x ∷ rs) r h = ground (arith, length-erase_row id rs r)
