-- ===== src/Denial/Wildcard.antt =====
-- dnsviz/analysis/status.py: NSECStatus._get_wildcard, the wildcard at the closest encloser that the
-- NSEC record covering a name shows.
pub mod Encloser
use dnsviz.Base.{
  ℕ, zero, suc, ◌-◌, ◌+◌, ◌≤◌, ◌<◌, List, [], ◌∷◌, ◌++◌, reverse, Bool, true, false, ◌||◌, ◌&&◌,
  if◌then◌else◌, leb, length, drop, bytes_eq, map, ◌==◌, ◌≡◌, refl, ap, arith, Bool-cases, inl, inr,
}
use dnsviz.Dns.Message.{Bytes, DomainName}

-- `label.lower()`, on ASCII
abbrev pub lower : Bytes → Bytes
lower = map (λ c. if leb 65 c && leb c 90 then c + 32 else c)

-- `i < len(name) and name[-(i + 1)].lower() == label.lower()`, for the labels from the i-th last on
abbrev pub agrees : Bytes → List Bytes → Bool
agrees label [] = false
agrees label (m ∷ ms) = bytes_eq (lower m) (lower label)

-- The last value of `i`, with the labels of the three names left, from the root down.
unfoldable pub last_index : ℕ → (qname covering next : List Bytes) → ℕ
last_index i [] cs ns = i - 1
last_index i (q ∷ qs) cs ns =
    if agrees q cs || agrees q ns then last_index (suc i) qs (drop 1 cs) (drop 1 ns) else i

-- `qname[-i:]`, which is the whole name for 0
abbrev pub last_labels : ℕ → DomainName → DomainName
last_labels zero q = q
last_labels (suc n) q = drop (length q - suc n) q

-- The label `*` is the byte 42.
unfoldable pub get_wildcard : (qname owner next : DomainName) → DomainName
unfolding last_index
get_wildcard qname owner next =
    (42 ∷ []) ∷ last_labels (last_index 0 (reverse qname) (reverse owner) (reverse next)) qname
