-- ===== src/Denial/Nsec3/Next.antt =====
-- `_get_next_closest_encloser` of NSEC3Status and `_next_closest_encloser` of NSECStatusWildcard, in
-- dnsviz/analysis/status.py.
use dnsviz.Base.{suc, ◌+◌, ◌-◌, ◌≤◌, List, [], ◌∷◌, ◌++◌, ◌≡◌, refl, arith, length, drop}
use dnsviz.Dns.Message.{Bytes, DomainName}
use dnsviz.Denial.Status.{next_closest_encloser}
use dnsviz.Denial.Nsec3.{get_next_closest_encloser}

length_bound : (front : List Bytes) (rest : DomainName) → length rest ≤ length (front ++ rest)
length_bound [] rest = ground arith
length_bound (l ∷ front) rest = ground (arith, length_bound front rest)

drop_front :
    (front : List Bytes) (rest : DomainName)
    → drop (length (front ++ rest) - length rest) (front ++ rest) ≡ rest
drop_front [] rest = let z : length rest - length rest ≡ 0 = omega arith in rw z refl
drop_front (l ∷ front) rest =
    let z : suc (length (front ++ rest)) - length rest
        ≡ suc (length (front ++ rest) - length rest) =
      omega (arith, length_bound front rest) in
    rw z (drop_front front rest)

-- For a name below an encloser, the NSEC3 statuses take the name one label below the encloser. So does
-- the NSEC wildcard status for the wildcard of the encloser, whatever the wildcard's first label.
pub get_next_closest_encloser-next :
    (front : List Bytes) (label star : Bytes) (encloser : DomainName)
    → (get_next_closest_encloser (front ++ (label ∷ encloser)) encloser ≡ label ∷ encloser)
      × (next_closest_encloser (front ++ (label ∷ encloser)) (star ∷ encloser) ≡ label ∷ encloser)
unfolding get_next_closest_encloser next_closest_encloser
get_next_closest_encloser-next front label star encloser =
    let one : length encloser + 1 ≡ suc (length encloser) = omega arith in
    (rw one (drop_front front (label ∷ encloser)), drop_front front (label ∷ encloser))
