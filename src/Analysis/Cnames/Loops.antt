-- ===== src/Analysis/Cnames/Loops.antt =====
-- The loops of CNAME records that _detect_cname_loop of dnsviz/analysis/offline.py finds, and how many
-- calls it needs.
use mathlib.Core.List.{Memᴰ}
use mathlib.Core.List.Memᴰ
use dnsviz.Base.{
  ℕ, List, [], ◌∷◌, ◌++◌, Option, none, some, Bool, true, false, not, ◌||◌, ◌==◌, ==_iff, ◌≡◌, ◌<◌,
  ◌≤◌, ◌⊎◌, inl, inr, refl, ◌∙◌, sym, ap, elem, select, map, length, arith, is_some, Bool-cases,
  Option-cases, ◌↔◌, zero, suc,
}
use dnsviz.Analysis.Cnames.{CnameTargets, Targets, detect_cname_loop, follow_targets, targets_of}

-- Following the targets from a name, after the names of the trace, comes to a name a second time.
pub data Loops (table : CnameTargets) : ℕ → ℕ → List ℕ → Type 0 where
  again :
      {a n : ℕ} {trace : List ℕ}
      → is_some (targets_of table a n) ≡ true
      → elem n trace ≡ true
      → Loops table a n trace
  onward :
      {a n b t : ℕ} {trace : List ℕ} (ts : Targets)
      → targets_of table a n ≡ some ts
      → Memᴰ (t, some b) ts
      → Loops table b t (trace ++ n ∷ [])
      → Loops table a n trace

-- The names with targets.
abbrev pub names_of : CnameTargets → List ℕ
names_of = map (λ (e : (ℕ × ℕ) × Targets). e.0.1)

-- How many of them the trace does not have.
abbrev unseen : List ℕ → List ℕ → ℕ
unseen trace ns = length (select (λ m. not (elem m trace)) ns)

elem-append : (m : ℕ) (xs : List ℕ) (n : ℕ) → elem m (xs ++ n ∷ []) ≡ (elem m xs || m == n)
elem-append m [] n = ground arith
elem-append m (x ∷ xs) n = ground (arith, elem-append m xs n)

unseen-append :
    (trace : List ℕ) (n : ℕ) (ns : List ℕ) → unseen (trace ++ n ∷ []) ns ≤ unseen trace ns
unseen-append trace n [] = ground arith
unseen-append trace n (m ∷ ns) = ground (arith, elem-append m trace n, unseen-append trace n ns)

unseen-fewer :
    (trace : List ℕ) (n : ℕ) (ns : List ℕ)
    → elem n ns ≡ true
    → elem n trace ≡ false
    → unseen (trace ++ n ∷ []) ns < unseen trace ns
unseen-fewer trace n [] h k = ground (arith, h)
unseen-fewer trace n (m ∷ ns) h k = elim (Bool-cases (n == m)) [
  | inl q ↦
      let e : elem m trace ≡ false = ap (λ x. elem x trace) (sym ((==_iff n m).0 q)) ∙ k in
      ground (arith, q, e, elem-append m trace n, unseen-append trace n ns)
  | inr q ↦ ground (arith, elem-append m trace n, unseen-fewer trace n ns (ground (arith, h, q)) k)
]

targets_of-elem :
    (table : CnameTargets) (a n : ℕ) (ts : Targets)
    → targets_of table a n ≡ some ts
    → elem n (names_of table) ≡ true
targets_of-elem [] a n ts h = ground (arith, h)
targets_of-elem (((b, m), us) ∷ rest) a n ts h = ground (arith, h, targets_of-elem rest a n ts)

-- A result of the test, which is right about the loops.
IsRight : Type 0 → Option Bool → Type 0
IsRight P o = (b : Bool) × (o ≡ some b) × ((b ≡ true) ↔ P)

abbrev targets_or : Option Targets → Targets
targets_or none = []
targets_or (some ts) = ts

targets_same : (ts us : Targets) → some ts ≡ some us → ts ≡ us
targets_same ts us e = ap targets_or e

abbrev value_or : ℕ → Option ℕ → ℕ
value_or d none = d
value_or d (some b) = b

module _ (table : CnameTargets) (trace : List ℕ) where
  -- From one of the targets there is a loop.
  abbrev LoopsOn : Targets → Type 0
  LoopsOn [] = ⊥
  LoopsOn ((t, none) ∷ ts) = LoopsOn ts
  LoopsOn ((t, some b) ∷ ts) = Loops table b t trace ⊎ LoopsOn ts

  LoopsOn-Memᴰ : (t b : ℕ) (ts : Targets) → Memᴰ (t, some b) ts → Loops table b t trace → LoopsOn ts
  LoopsOn-Memᴰ t b [] m l = ground (arith, Memᴰ.not-nil m)
  LoopsOn-Memᴰ t b ((u, none) ∷ ts) m l = elim (Memᴰ.cases_cons m) [
    | inl e ↦ ground (arith, ap (λ (x : ℕ × Option ℕ). is_some x.1) e)
    | inr k ↦ LoopsOn-Memᴰ t b ts k l
  ]
  LoopsOn-Memᴰ t b ((u, some c) ∷ ts) m l = elim (Memᴰ.cases_cons m) [
    | inl e ↦
        let same_target : u ≡ t = sym (ap (λ (x : ℕ × Option ℕ). x.0) e) in
        let same_analysis : c ≡ b = sym (ap (λ (x : ℕ × Option ℕ). value_or b x.1) e) in
        inl (rw (same_target, same_analysis) l)
    | inr k ↦ inr (LoopsOn-Memᴰ t b ts k l)
  ]

  LoopsOn-onward :
      (ts : Targets) → LoopsOn ts → (t b : ℕ) × Memᴰ (t, some b) ts × Loops table b t trace
  LoopsOn-onward [] l = elim l [ ]
  LoopsOn-onward ((t, none) ∷ ts) l =
      let (u, b, m, k) = LoopsOn-onward ts l in (u, b, Memᴰ.tail m, k)
  LoopsOn-onward ((t, some b) ∷ ts) l = elim l [
    | inl k ↦ (t, b, Memᴰ.head refl, k)
    | inr k ↦ let (u, c, m, j) = LoopsOn-onward ts k in (u, c, Memᴰ.tail m, j)
  ]

  onward-IsRight :
      (detect : ℕ → ℕ → Option Bool) (a t : ℕ) (b : Bool)
      → detect a t ≡ some b
      → ((b ≡ true) ↔ Loops table a t trace)
      → (ts : Targets) → IsRight (LoopsOn ts) (follow_targets detect ts)
      → IsRight (Loops table a t trace ⊎ LoopsOn ts) (follow_targets detect ((t, some a) ∷ ts))
  unfolding IsRight
  onward-IsRight detect a t true e iff ts rest =
      rw (e, follow_targets) (true, refl, (λ x. inl (iff.0 refl), λ x. refl))
  onward-IsRight detect a t false e iff ts (c, q, ok) =
      rw (e, follow_targets)
        (
          c,
          q,
          (λ h. inr (ok.0 h), λ x. elim x [ inl k ↦ ground (arith, iff.1 k) | inr k ↦ ok.1 k ]),
        )

  follow_targets-IsRight :
      (detect : ℕ → ℕ → Option Bool)
      → ((b t : ℕ) → IsRight (Loops table b t trace) (detect b t))
      → (ts : Targets) → IsRight (LoopsOn ts) (follow_targets detect ts)
  unfolding IsRight
  follow_targets-IsRight detect right [] = (false, refl, (λ h. ground (arith, h), λ x. elim x [ ]))
  follow_targets-IsRight detect right ((t, none) ∷ ts) = follow_targets-IsRight detect right ts
  follow_targets-IsRight detect right ((t, some a) ∷ ts) =
      let (b, e, iff) = right a t in
      onward-IsRight detect a t b e iff ts (follow_targets-IsRight detect right ts)

module _ (table : CnameTargets) where
  no_targets : (a n : ℕ) (trace : List ℕ) → targets_of table a n ≡ none → Loops table a n trace → ⊥
  no_targets a n trace h (again k q) = ground (arith, h, k)
  no_targets a n trace h (onward ts e m l) = ground (arith, ap is_some (sym h ∙ e))

  Loops-LoopsOn :
      (a n : ℕ) (trace : List ℕ) (ts : Targets)
      → targets_of table a n ≡ some ts
      → elem n trace ≡ false
      → Loops table a n trace
      → LoopsOn table (trace ++ n ∷ []) ts
  Loops-LoopsOn a n trace ts h q (again k p) = ground (arith, q, p)
  Loops-LoopsOn a n trace ts h q (onward {b = b} {t} us e m l) =
      LoopsOn-Memᴰ table (trace ++ n ∷ []) t b ts (rw (targets_same us ts (sym e ∙ h)) at m) l

  detect_lem :
      (fuel : ℕ) (a n : ℕ) (trace : List ℕ)
      → unseen trace (names_of table) < fuel
      → IsRight (Loops table a n trace) (detect_cname_loop fuel table a n trace)
  unfolding detect_cname_loop IsRight
  detect_lem zero a n trace h = ground (arith, h)
  detect_lem (suc fuel) a n trace h = elim (Option-cases (targets_of table a n)) [
    | inl absent ↦
        rw (absent, detect_cname_loop)
          (false, refl, (λ h. ground (arith, h), λ l. elim (no_targets a n trace absent l) [ ]))
    | inr (ts, found) ↦ elim (Bool-cases (elem n trace)) [
      | inl q ↦
          rw (found, q, detect_cname_loop) (true, refl, (λ x. again (rw found refl) q, λ x. refl))
      | inr q ↦
          let (b, e, iff) =
            follow_targets-IsRight table (trace ++ n ∷ [])
              (λ c t. detect_cname_loop fuel table c t (trace ++ n ∷ []))
              (λ c t. detect_lem fuel c t (trace ++ n ∷ []) (
                ground (
                  arith,
                  h,
                  unseen-fewer trace n (names_of table) (targets_of-elem table a n ts found) q,
                )))
              ts in
          rw (found, q, detect_cname_loop)
            (
              b,
              e,
              (
                λ h.
                    let (t, c, m, k) = LoopsOn-onward table (trace ++ n ∷ []) ts (iff.0 h) in
                    onward ts found m k,
                λ l. iff.1 (Loops-LoopsOn a n trace ts found q l),
              ),
            )
    ]
  ]

unseen-bounds : (trace ns : List ℕ) → unseen trace ns ≤ length ns
unseen-bounds trace [] = ground arith
unseen-bounds trace (n ∷ ns) = ground (arith, unseen-bounds trace ns)

-- With more fuel than there are entries of names with targets, the test ends. It raises
-- CNAMELoopDetected exactly when following the targets from the name comes to a name a second time.
pub detect_cname_loop-Loops :
    (table : CnameTargets) (fuel analysis name : ℕ)
    → length (names_of table) < fuel
    → (raised : Bool) × (detect_cname_loop fuel table analysis name [] ≡ some raised)
      × ((raised ≡ true) ↔ Loops table analysis name [])
unfolding IsRight
detect_cname_loop-Loops table fuel analysis name h =
    detect_lem table fuel analysis name [] (ground (arith, h, unseen-bounds [] (names_of table)))
