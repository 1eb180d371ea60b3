-- ===== src/Store/Ledger.antt =====
-- reserve.go: the reservation ledger. The decisions on the list, and the methods that only keep it.
pub mod Search
pub mod Run
use diskqueue.Base.{
  ℕ, zero, suc, ◌+◌, ◌≤◌, ◌<◌, Bool, true, false, not, ◌&&◌, ◌||◌, Option, none, some, List, [],
  ◌∷◌, ◌++◌, ◌==◌, ltb, leb, if◌then◌else◌, length, get_elem?,
}
use diskqueue.Store.State.{Store, Reservation}
use diskqueue.Store.Action.{M, gets, modify, ◌>>=◌, ◌>>◌}
use diskqueue.Store.Segments.{search_loop}

-- `dropRetired` on the list: the leading entries that the commit cursor has passed go.
unfoldable pub retire : ℕ → List Reservation → List Reservation
retire commit [] = []
retire commit (r ∷ rs) = let rest = retire commit rs in if leb r.end commit then rest else r ∷ rs

-- A test of the entry at an index.
abbrev pub at_entry : List Reservation → ℕ → (Reservation → Bool) → Bool
at_entry rs i p = elim (get_elem? rs i) [ none ↦ false | some r ↦ p r ]

-- `findReserved`: the index of the entry that ends at `end`, by bisection.
unfoldable pub find_reserved : ℕ → List Reservation → Option ℕ
unfolding search_loop
find_reserved end rs =
    let n = length rs in
    let i = search_loop (suc n) (λ i. at_entry rs i (λ r. not (ltb r.end end))) 0 n in
    if at_entry rs i (λ r. r.end == end) then some i else none

-- The walk of `ackedRunEnd` from `at`.
unfoldable pub acked_run : ℕ → List Reservation → ℕ
acked_run at [] = at
acked_run at (r ∷ rs) =
    let more = acked_run r.end rs in if r.acked && r.start == at then more else at

-- `s.reserved[i].acked = true`.
abbrev pub mark_acked : ℕ → List Reservation → List Reservation
mark_acked i [] = []
mark_acked zero (r ∷ rs) = record r { acked = true } ∷ rs
mark_acked (suc i) (r ∷ rs) = r ∷ mark_acked i rs

unfoldable pub drop_retired : M (Unit {0})
drop_retired = modify (λ s. record s { reserved = retire s.commit_off s.reserved })

-- `append(s.reserved, r)`.
unfoldable pub push_reserved : Reservation → M (Unit {0})
push_reserved r = modify (λ s. record s { reserved = s.reserved ++ (r ∷ []) })

unfoldable pub track_reserve : M (Unit {0})
track_reserve = do
  drop_retired
  s ← gets (λ s. s)
  push_reserved (record {
    start = s.last_frame_at;
    end = s.last_frame_end;
    acked = false;
    corrupt = false;
    written = 0;
  })

unfoldable pub acked_run_end : Store → ℕ
unfolding acked_run
acked_run_end s = acked_run s.commit_off s.reserved
