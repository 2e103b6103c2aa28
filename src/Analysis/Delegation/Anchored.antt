-- ===== src/Analysis/Delegation/Anchored.antt =====
-- When a delegation is secure by dnsviz/analysis/offline.py: some responder has a chain from the DS
-- records to its DNSKEYs.
use dnsviz.Base.{
  ℕ, List, [], ◌∷◌, ◌++◌, none, some, Bool, true, false, ◌&&◌, ◌||◌, ◌==◌, ◌≡◌, refl, sym, ◌∙◌, inl,
  inr, ==_iff, if◌then◌else◌, elem, all, any, lookup, arith, Option-cases, Bool-cases,
}
use dnsviz.Aggregate.Table.{has_keys}
use dnsviz.Analysis.Delegation.{Seps, add_number, each, is_subset, note}

-- What a responder has shown: the algorithms.
abbrev pub Shown : Type 0
Shown = ℕ → ℕ → Bool

lookup-note :
    (ds : List ℕ) (q alg : ℕ) (seps : Seps) (r : ℕ)
    → has_keys seps ≡ true
    → lookup r (note ds q alg seps) ≡ (
        if r == q
        then (elim (lookup q seps) [
          | none ↦ none
          | some algs ↦
              (if is_subset ds (add_number alg algs) then none else some (add_number alg algs))
        ])
        else lookup r seps)
unfolding note
lookup-note ds q alg [] r h = ground arith
lookup-note ds q alg ((p, algs) ∷ seps) r h = elim (Bool-cases (q == p)) [
  | inl k ↦ ground (arith, h, k, ==_iff r q, ==_iff q p, ==_iff r p)
  | inr k ↦ ground (arith, h, k, lookup-note ds q alg seps r, ==_iff r q, ==_iff q p, ==_iff r p)
]

note_keys_lem :
    (ds : List ℕ) (q alg : ℕ) (seps : Seps)
    → has_keys seps ≡ true
    → has_keys (note ds q alg seps) ≡ true
unfolding note
note_keys_lem ds q alg [] h = refl
note_keys_lem ds q alg ((p, algs) ∷ seps) h = elim (Bool-cases (q == p)) [
  | inl k ↦ ground (arith, h, k)
  | inr k ↦
      ground (arith, h, k, note_keys_lem ds q alg seps, lookup-note ds q alg seps p, ==_iff q p)
]

elem_append : (a : ℕ) (xs : List ℕ) (x : ℕ) → elem a (xs ++ x ∷ []) ≡ (elem a xs || a == x)
elem_append a [] x = ground arith
elem_append a (y ∷ xs) x = ground (arith, elem_append a xs x)

elem_same : (a x : ℕ) (xs : List ℕ) → elem x xs ≡ true → a == x ≡ true → elem a xs ≡ true
elem_same a x xs h k = ground (arith, h, k, ==_iff a x)

elem_add : (a x : ℕ) (xs : List ℕ) → elem a (add_number x xs) ≡ (elem a xs || a == x)
elem_add a x xs = elim (Bool-cases (elem x xs)) [
  | inl k ↦ ground (arith, k, elem_same a x xs k)
  | inr k ↦ rw k (elem_append a xs x)
]

pub all_ext : (p q : ℕ → Bool) (xs : List ℕ) → ((a : ℕ) → p a ≡ q a) → all p xs ≡ all q xs
all_ext p q [] h = refl
all_ext p q (x ∷ xs) h = ground (arith, h x, all_ext p q xs h)

-- The algorithms of a responder before it is deleted are those that it has shown; it is deleted once
-- it has shown all the algorithms of the DS records.
pub record Tracks (ds resp : List ℕ) (c : Shown) (seps : Seps) : Type 0 where
  pub keyed : has_keys seps ≡ true
  pub deleted : (r : ℕ) → elem r resp ≡ true → lookup r seps ≡ none → all (c r) ds ≡ true
  pub kept : (r : ℕ) (algs : List ℕ) → lookup r seps ≡ some algs → (a : ℕ) → elem a algs ≡ c r a
  pub lacking : (r : ℕ) (algs : List ℕ) → lookup r seps ≡ some algs → is_subset ds algs ≡ false

abbrev pub and_shows : Shown → Shown → Shown
and_shows c e r a = c r a || e r a

abbrev pub event : ℕ → ℕ → Shown
event q alg r a = r == q && a == alg

module _ (ds resp : List ℕ) where
  all_more : (p q : ℕ → Bool) (xs : List ℕ) → all p xs ≡ true → all (λ a. p a || q a) xs ≡ true
  all_more p q [] h = refl
  all_more p q (x ∷ xs) h = ground (arith, h, all_more p q xs)

  grown_shows :
      (q alg r : ℕ) (c : Shown) (algs : List ℕ)
      → (r == q) ≡ true
      → ((a : ℕ) → elem a algs ≡ c r a)
      → (a : ℕ) → elem a (add_number alg algs) ≡ and_shows c (event q alg) r a
  grown_shows q alg r c algs k h a = ground (arith, k, h a, elem_add a alg algs)

  module _ (q alg : ℕ) (c : Shown) (seps : Seps) (t : Tracks ds resp c seps) where
    lookup_noted :
        (r : ℕ) (algs : List ℕ)
        → (r == q) ≡ true
        → lookup r seps ≡ some algs
        → lookup r (note ds q alg seps)
          ≡ (if is_subset ds (add_number alg algs) then none else some (add_number alg algs))
    lookup_noted r algs k n = ground (arith, k, n, lookup-note ds q alg seps r t.keyed, ==_iff r q)

    lookup_gone :
        (r : ℕ) → (r == q) ≡ true → lookup r seps ≡ none → lookup r (note ds q alg seps) ≡ none
    lookup_gone r k n = ground (arith, k, n, lookup-note ds q alg seps r t.keyed, ==_iff r q)

    lookup_other : (r : ℕ) → (r == q) ≡ false → lookup r (note ds q alg seps) ≡ lookup r seps
    lookup_other r k = ground (arith, k, lookup-note ds q alg seps r t.keyed)

    deleted_note :
        (r : ℕ)
        → elem r resp ≡ true
        → lookup r (note ds q alg seps) ≡ none
        → all (and_shows c (event q alg) r) ds ≡ true
    deleted_note r e n = elim (Bool-cases (r == q)) [
      | inl k ↦ elim (Option-cases (lookup r seps)) [
        | inl m ↦ all_more (c r) (event q alg r) ds (t.deleted r e m)
        | inr (algs, m) ↦
            let full : is_subset ds (add_number alg algs) ≡ true =
              ground (arith, n, lookup_noted r algs k m) in
            sym (all_ext _ _ ds (grown_shows q alg r c algs k (t.kept r algs m))) ∙ full
      ]
      | inr k ↦ all_more (c r) (event q alg r) ds (t.deleted r e (sym (lookup_other r k) ∙ n))
    ]

    kept_note :
        (r : ℕ) (algs : List ℕ)
        → lookup r (note ds q alg seps) ≡ some algs
        → (a : ℕ) → elem a algs ≡ (and_shows c (event q alg) r a)
    kept_note r algs e a = elim (Bool-cases (r == q)) [
      | inl k ↦ elim (Option-cases (lookup r seps)) [
        | inl m ↦ ground (arith, e, lookup_gone r k m)
        | inr (old, m) ↦
            ground
              (arith, e, lookup_noted r old k m, grown_shows q alg r c old k (t.kept r old m) a)
      ]
      | inr k ↦ ground (arith, k, t.kept r algs (sym (lookup_other r k) ∙ e) a)
    ]

    lacking_note :
        (r : ℕ) (algs : List ℕ)
        → lookup r (note ds q alg seps) ≡ some algs
        → is_subset ds algs ≡ false
    lacking_note r algs e = elim (Bool-cases (r == q)) [
      | inl k ↦ elim (Option-cases (lookup r seps)) [
        | inl m ↦ ground (arith, e, lookup_gone r k m)
        | inr (old, m) ↦ ground (arith, e, lookup_noted r old k m)
      ]
      | inr k ↦ t.lacking r algs (sym (lookup_other r k) ∙ e)
    ]

    pub Tracks-note : Tracks ds resp (and_shows c (event q alg)) (note ds q alg seps)
    Tracks-note = record {
      keyed = note_keys_lem ds q alg seps t.keyed;
      deleted = deleted_note;
      kept = kept_note;
      lacking = lacking_note;
    }

  pub Tracks-ext :
      (c e : Shown) (seps : Seps)
      → ((r a : ℕ) → c r a ≡ e r a)
      → Tracks ds resp c seps
      → Tracks ds resp e seps
  Tracks-ext c e seps h t = record {
    keyed = t.keyed;
    deleted = λ r k n. sym (all_ext (c r) (e r) ds (h r)) ∙ t.deleted r k n;
    kept = λ r algs n a. t.kept r algs n a ∙ h r a;
    lacking = t.lacking;
  }

  -- A loop whose body shows something for each element.
  pub Tracks-each :
      {A : Type 0} (f : A → Seps → Seps) (shows : A → Shown)
      → ((x : A) (c : Shown) (seps : Seps)
          → Tracks ds resp c seps
          → Tracks ds resp (and_shows c (shows x)) (f x seps))
      → (xs : List A) (c : Shown) (seps : Seps) → Tracks ds resp c seps
      → Tracks ds resp (and_shows c (λ r a. any (λ x. shows x r a) xs)) (each f xs seps)
  Tracks-each f shows body [] c seps t = Tracks-ext c _ seps (λ r a. ground arith) t
  Tracks-each f shows body (x ∷ xs) c seps t =
      Tracks-ext _ _ _ (λ r a. ground arith) (Tracks-each f shows body xs _ _ (body x c seps t))

  -- A body that is run under a condition.
  pub Tracks-if :
      (b : Bool) (shows : Shown) (c : Shown) (seps seps' : Seps)
      → Tracks ds resp c seps
      → Tracks ds resp (and_shows c shows) seps'
      → Tracks ds resp (and_shows c (λ r a. b && shows r a)) (if b then seps' else seps)
  Tracks-if true shows c seps seps' t u = u
  Tracks-if false shows c seps seps' t u = Tracks-ext c _ seps (λ r a. ground arith) t
