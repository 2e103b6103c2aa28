-- ===== src/Query/Pmtu/Bounds.antt =====
-- The binary search of PMTUBoundingHandler (dnsviz/query.py): its bounds are set where they are
-- used, and each probe halves the interval between them.
use dnsviz.Base.{Option, some, ◌≡◌, true, is_some}
use dnsviz.Base.Int.{ℤ, pos, ◌+ℤ◌, ◌-ℤ◌, ◌≤ℤ◌, int_laws}
use dnsviz.Query.Types.{Context}
use dnsviz.Query.Pmtu.{Pmtu, State, using_tcp, tcp_minus_one, pickle, midpoint}

abbrev pub IsCentred : Option ℤ → Option ℤ → ℤ → Type 0
IsCentred (some l) (some u) x = x ≡ midpoint l u
IsCentred _ _ x = ⊥

-- What each state can rely on. In PICKLE the payload of the request is the middle of the bounds.
abbrev pub Inv : State → Pmtu → Context → Type 0
Inv using_tcp p c = (is_some p.lower_bound ≡ true) × (is_some p.water_mark ≡ true)
Inv tcp_minus_one p c = (is_some p.lower_bound ≡ true) × (is_some p.water_mark ≡ true)
Inv pickle p c =
    IsCentred p.lower_bound p.upper_bound c.request.payload × (is_some p.water_mark ≡ true)
Inv _ p c = Unit

pub midpoint_bounds : (l u : ℤ) → l ≤ℤ u → (l ≤ℤ midpoint l u) × (midpoint l u ≤ℤ u)
unfolding midpoint
midpoint_bounds l u h = (omega int_laws, omega int_laws)

-- The lower half, after a timeout.
pub lower_half :
    (l u : ℤ)
    → pos 2 ≤ℤ u -ℤ l
    → let v = midpoint l u -ℤ pos 1 in (l ≤ℤ v) × (v ≤ℤ u) × ((v -ℤ l) +ℤ (v -ℤ l) ≤ℤ u -ℤ l)
unfolding midpoint
lower_half l u h = (omega int_laws, omega int_laws, omega int_laws)

pub upper_half :
    (l u : ℤ)
    → pos 2 ≤ℤ u -ℤ l
    → let v = midpoint l u in (l ≤ℤ v) × (v ≤ℤ u) × ((u -ℤ v) +ℤ (u -ℤ v) ≤ℤ u -ℤ l)
unfolding midpoint
upper_half l u h = (omega int_laws, omega int_laws, omega int_laws)
