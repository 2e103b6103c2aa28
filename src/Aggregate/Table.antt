-- ===== src/Aggregate/Table.antt =====
-- The attribute `responses` of a DNSQuery (dnsviz/query.py): a dictionary from servers to dictionaries
-- from clients to responses. An address stands for its normalized text.
pub mod Laws
use dnsviz.Base.{
  ℕ, List, [], ◌∷◌, ◌++◌, Option, none, some, Bool, true, false, not, ◌&&◌, ◌==◌, if◌then◌else◌,
  lookup, is_some, map,
}

abbrev pub Address : Type 0
Address = ℕ

abbrev pub Table : Type 0 → Type 0
Table A = List (Address × List (Address × A))

abbrev pub Entries : Type 0 → Type 0
Entries A = List (Address × (Address × A))

-- The keys of a dictionary are different.
abbrev pub has_keys : {B : Type 0} → List (Address × B) → Bool
has_keys [] = true
has_keys ((k, b) ∷ bs) = not (is_some (lookup k bs)) && has_keys bs

module _ {A : Type 0} where
  -- `responses[server][client]`, none where a key is missing
  abbrev pub get : Address → Address → Table A → Option A
  get s c t = elim (lookup s t) [ none ↦ none | some cs ↦ lookup c cs ]

  -- The dictionaries of `add_response`: a new server has no clients; none is the ValueError of a client
  -- that is there.
  unfoldable pub add : Address → Address → A → Table A → Option (Table A)
  add s c r [] = some ((s, (c, r) ∷ []) ∷ [])
  add s c r ((u, cs) ∷ t) =
      let rest = add s c r t in
      if s == u
      then (elim (lookup c cs) [ some old ↦ none | none ↦ some ((u, cs ++ (c, r) ∷ []) ∷ t) ])
      else (elim rest [ none ↦ none | some t' ↦ some ((u, cs) ∷ t') ])

  abbrev pub all_keys : Table A → Bool
  all_keys [] = true
  all_keys ((s, cs) ∷ t) = has_keys cs && (not (is_some (lookup s t)) && all_keys t)

  -- The triples that a loop over the servers, and for each over its clients, goes through.
  abbrev pub of_server : Address → List (Address × A) → Entries A
  of_server s = map (λ e. (s, e))

  abbrev pub entries : Table A → Entries A
  entries [] = []
  entries ((s, cs) ∷ t) = of_server s cs ++ entries t

  abbrev pub get_entry : Address → Address → Entries A → Option A
  get_entry s c [] = none
  get_entry s c ((u, (d, r)) ∷ es) = if s == u && c == d then some r else get_entry s c es

  -- Adding one after the other.
  unfoldable pub add_entries : Entries A → Table A → Option (Table A)
  unfolding add
  add_entries [] t = some t
  add_entries ((s, (c, r)) ∷ es) t = elim (add s c r t) [
    | none ↦ none
    | some t' ↦ add_entries es t'
  ]
