-- ===== src/Analysis/Cnames.antt =====
-- dnsviz/analysis/offline.py: OfflineDomainNameAnalysis._detect_cname_loop and _populate_cname_status. Names and the analyses of
-- names are numbered.
pub mod Loops
use dnsviz.Base.{
  ℕ, zero, suc, List, [], ◌∷◌, ◌++◌, Option, none, some, Bool, true, false, ◌&&◌, ◌==◌,
  if◌then◌else◌, elem, any, not,
}

-- The targets of a name, with the analyses of those that were analysed.
abbrev pub Targets : Type 0
Targets = List (ℕ × Option ℕ)

-- `cname_targets` of each analysis, in one table by the analysis and the name.
abbrev pub CnameTargets : Type 0
CnameTargets = List ((ℕ × ℕ) × Targets)

abbrev pub targets_of : CnameTargets → (analysis name : ℕ) → Option Targets
targets_of [] a n = none
targets_of (((b, m), ts) ∷ rest) a n = if a == b && n == m then some ts else targets_of rest a n

-- The loop over the targets, until CNAMELoopDetected is raised.
abbrev pub follow_targets : (ℕ → ℕ → Option Bool) → Targets → Option Bool
follow_targets detect [] = some false
follow_targets detect ((t, none) ∷ ts) = follow_targets detect ts
follow_targets detect ((t, some a) ∷ ts) = elim (detect a t) [
  | none ↦ none
  | some true ↦ some true
  | some false ↦ follow_targets detect ts
]

-- Whether CNAMELoopDetected is raised; none is out of fuel.
unfoldable pub detect_cname_loop :
    ℕ → CnameTargets → (analysis name : ℕ) → (trace : List ℕ) → Option Bool
detect_cname_loop zero table a n trace = none
detect_cname_loop (suc fuel) table a n trace = elim (targets_of table a n) [
  | none ↦ some false
  | some ts ↦ elim (elem n trace) [
    | true ↦ some true
    | false ↦ follow_targets (λ b t. detect_cname_loop fuel table b t (trace ++ n ∷ [])) ts
  ]
]

-- CNAMEWithOtherData among the warnings of an RRset, and CNAMELoop among its errors.
pub record CnameStatus : Type 0 where
  pub with_other_data : Bool
  pub in_loop : Bool

-- The types that exist are pairs of a name and a type; CNAME is 5.
unfoldable pub cname_status :
    (fuel : ℕ)
    → CnameTargets
    → (analysis : ℕ) → (yxrrset_proper : List (ℕ × ℕ)) → (name rdtype : ℕ) → Option CnameStatus
cname_status fuel table a yxrrset_proper name rdtype =
    if not (rdtype == 5)
    then some (record { with_other_data = false; in_loop = false })
    else elim (detect_cname_loop fuel table a name []) [
      | none ↦ none
      | some raised ↦ some (record {
        with_other_data = any (λ e. e.0 == name && not (e.1 == 5)) yxrrset_proper;
        in_loop = raised;
      })
    ]
