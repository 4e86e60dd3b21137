-- ===== src/Hlc/Monotone.antt =====
-- The clock never goes back, whatever the physical clock and the peers do.
use acp_kv.Prelude.{
  ℕ, suc, ℤ, pos, ◌≡◌, refl, ◌+◌, ◌<◌, ◌≤◌, ◌^◌, none, List, [], ◌∷◌, All, length, arith, pos_part,
  neg_part, add64_parts, subst, ◌⊎◌, inl, inr, ◌≤ℤ◌,
}
use acp_kv.Hlc.{Hlc, Clock, reading, now_hlc, merge, advance, update, happens_before}
use acp_kv.Hlc.Order.{Before, Before-trans}

-- `a` can be incremented `n` times without wrapping.
abbrev pub Room : ℕ → ℤ → Type 0
Room n a = (pos_part a + n < 2 ^ 63) × (neg_part a ≤ 2 ^ 63)

-- `Now` returns a timestamp that is after the clock's previous reading and not behind the physical
-- clock, and leaves the clock at that timestamp. The logical part must be below the largest int64.
pub now_hlc-Before :
    (now : ℤ) (c : Clock)
    → Room 1 c.logical
    → ((now_hlc now c).0 ≡ reading (now_hlc now c).1)
      × Before (reading c) (now_hlc now c).0
      × (now ≤ℤ (now_hlc now c).0.physical)
unfolding now_hlc happens_before
now_hlc-Before now c room = (refl, ground (arith, add64_parts c.logical (pos 1)), ground arith)

merge-Before :
    (remote : Hlc) (c : Clock)
    → Room 1 c.logical
    → Room 1 remote.logical
    → Before (reading c) (reading (merge remote c)) × Before remote (reading (merge remote c))
unfolding merge happens_before
merge-Before remote c room room' =
    ground (arith, add64_parts c.logical (pos 1), add64_parts remote.logical (pos 1))

advance-Before :
    (now : ℤ) (h : Hlc) (c : Clock) → Before h (reading c) → Before h (reading (advance now c))
unfolding advance happens_before
advance-Before now h c p = ground arith

-- An accepted `Update` leaves the clock after its previous reading and after the remote timestamp,
-- so that every later timestamp is after both. The logical parts must be below the largest int64.
pub update-Before :
    (now : ℤ) (remote : Hlc) (c : Clock)
    → Room 1 c.logical
    → Room 1 remote.logical
    → (update now remote c).0 ≡ none
    → Before (reading c) (reading (update now remote c).1)
      × Before remote (reading (update now remote c).1)
unfolding update
update-Before now remote c room room' accepted = ground (
  arith,
  advance-Before now (reading c) (merge remote c),
  advance-Before now remote (merge remote c),
  merge-Before remote c,
)

-- What happens to a clock: calls of `Now` and of `Update`, each with the physical time it reads.
pub data Event : Type 0 where
  stamp : ℤ → Event
  receive : ℤ → Hlc → Event

unfoldable pub issued : Clock → List Event → List Hlc
issued c [] = []
issued c (stamp now ∷ es) = (now_hlc now c).0 ∷ issued (now_hlc now c).1 es
issued c (receive now remote ∷ es) = issued (update now remote c).1 es

-- Each timestamp is after the one before it, the first after `h`.
abbrev pub IsIncreasing : Hlc → List Hlc → Type 0
IsIncreasing h [] = Unit
IsIncreasing h (t ∷ ts) = Before h t × IsIncreasing t ts

abbrev pub RoomFor : ℕ → Event → Type 0
RoomFor n (stamp now) = Unit
RoomFor n (receive now remote) = Room n remote.logical

IsIncreasing-Before :
    (h g : Hlc) (ts : List Hlc) → Before h g → IsIncreasing g ts → IsIncreasing h ts
IsIncreasing-Before h g [] p q = tt
IsIncreasing-Before h g (t ∷ ts) p q = (Before-trans h g t p q.0, q.1)

pub Room-now_hlc :
    (n : ℕ) (now : ℤ) (c : Clock) → Room (suc n) c.logical → Room n (now_hlc now c).1.logical
unfolding now_hlc
Room-now_hlc n now c room = ground (arith, add64_parts c.logical (pos 1))

pub Room-update :
    (n : ℕ) (now : ℤ) (remote : Hlc) (c : Clock)
    → Room (suc n) c.logical
    → Room (suc n) remote.logical
    → Room n (update now remote c).1.logical
unfolding update
Room-update n now remote c room room' =
    ground (arith, add64_parts c.logical (pos 1), add64_parts remote.logical (pos 1))

All-RoomFor : (n : ℕ) (es : List Event) → All (RoomFor (suc n)) es → All (RoomFor n) es
All-RoomFor n [] h = tt
All-RoomFor n (stamp now ∷ es) h = (tt, All-RoomFor n es h.1)
All-RoomFor n (receive now remote ∷ es) h = ((omega arith, h.0.1), All-RoomFor n es h.1)

-- A refused `Update` leaves the clock as it was.
pub update_cases :
    (now : ℤ) (remote : Hlc) (c : Clock)
    → ((update now remote c).0 ≡ none) ⊎ ((update now remote c).1 ≡ c)
unfolding update
update_cases now remote c = ground arith

IsIncreasing-update :
    (now : ℤ) (remote : Hlc) (c : Clock) (ts : List Hlc)
    → Room 1 c.logical
    → Room 1 remote.logical
    → IsIncreasing (reading (update now remote c).1) ts
    → IsIncreasing (reading c) ts
IsIncreasing-update now remote c ts room room' h = elim (update_cases now remote c) [
  | inl ok ↦
      IsIncreasing-Before (reading c) (reading (update now remote c).1) ts
        (update-Before now remote c room room' ok).0 h
  | inr same ↦ subst (λ d. IsIncreasing (reading d) ts) same h
]

-- The timestamps that a clock issues over any sequence of `Now` and `Update` calls, accepted or
-- refused, at any readings of the physical clock, are strictly increasing. The logical parts, the
-- clock's and the remote ones, must have room for one increment for each call.
pub issued-IsIncreasing :
    (c : Clock) (es : List Event)
    → Room (length es) c.logical
    → All (RoomFor (length es)) es
    → IsIncreasing (reading c) (issued c es)
unfolding issued now_hlc
issued-IsIncreasing c [] room rooms = tt
issued-IsIncreasing c (stamp now ∷ es) room rooms = (
  (now_hlc-Before now c (omega arith, room.1)).1,
  issued-IsIncreasing (now_hlc now c).1 es (Room-now_hlc (length es) now c room)
      (All-RoomFor (length es) es rooms.1),
)
issued-IsIncreasing c (receive now remote ∷ es) room rooms =
    IsIncreasing-update now remote c (issued (update now remote c).1 es) (omega arith, room.1)
      (omega arith, rooms.0.1)
      (issued-IsIncreasing (update now remote c).1 es
        (Room-update (length es) now remote c room rooms.0) (All-RoomFor (length es) es rooms.1))
