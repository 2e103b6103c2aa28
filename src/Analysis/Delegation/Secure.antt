-- ===== src/Analysis/Delegation/Secure.antt =====
-- When a delegation is secure by dnsviz/analysis/offline.py.
use dnsviz.Base.{
  ℕ, List, [], ◌∷◌, none, some, Bool, true, false, not, ◌&&◌, ◌||◌, ◌==◌, ◌≡◌, refl, ap, ◌∙◌, inl,
  inr, if◌then◌else◌, elem, all, any, is_nonempty, lookup, arith, Option-cases, map,
}
use dnsviz.Aggregate.Table.{has_keys}
use dnsviz.Aggregate.Queries.Projected.{all_different}
use dnsviz.Status.Ds.{DigestValidator}
use dnsviz.Analysis.Delegation.{
  Dnskey, DnskeyInfo, DsInfo, DsRecord, KeyRrsig, Seps, Zone, algs_validating_sep, ds_algs,
  info_is_secure, is_candidate, is_validating, lacks_sep, no_algs, note, note_infos, note_keys,
  note_rrsig, note_rrsigs, supported_ds_algs,
}
use dnsviz.Analysis.Delegation.Anchored.{
  Shown, Tracks, all_ext, and_shows, event, Tracks-each, Tracks-ext, Tracks-if, Tracks-note,
}

-- The responder has an RRSIG with the algorithm.
abbrev pub signs : KeyRrsig → ℕ → ℕ → Bool
signs g r a = elem r g.responders && a == g.algorithm

any_ext : (p q : ℕ → Bool) (xs : List ℕ) → ((a : ℕ) → p a ≡ q a) → any p xs ≡ any q xs
any_ext p q [] h = refl
any_ext p q (x ∷ xs) h = ground (arith, h x, any_ext p q xs h)

elem_here : (x : ℕ) (xs : List ℕ) → elem x (x ∷ xs) ≡ true
elem_here x xs = ground arith

elem_later : (a x : ℕ) (xs : List ℕ) → elem a xs ≡ true → elem a (x ∷ xs) ≡ true
elem_later a x xs e = ground (arith, e)

-- The tests agree on the elements.
any_in :
    (p q : ℕ → Bool) (xs : List ℕ) → ((a : ℕ) → elem a xs ≡ true → p a ≡ q a) → any p xs ≡ any q xs
any_in p q [] h = refl
any_in p q (x ∷ xs) h =
    ground (arith, h x (elem_here x xs), any_in p q xs (λ a e. h a (elem_later a x xs e)))

module _ (validate : DigestValidator) (z : Zone) (info : DsInfo) where
  -- For a DS record: some DNSKEY with its key tag and algorithm and with a VALID digest has a VALID
  -- RRSIG on its RRset, with the algorithm, from the responder.
  abbrev pub anchors : DsRecord → ℕ → ℕ → Bool
  anchors d r a =
      any
        (λ (i : DnskeyInfo).
          i.is_own
          && any
              (λ k.
                is_candidate d k
                && any (λ g. is_validating validate z info d k g && signs g r a) i.rrsig_info)
              i.keys)
        z.dnskey_answer_info

  abbrev pub is_anchored : ℕ → ℕ → Bool
  is_anchored r a = any (λ d. anchors d r a) info.records

  any_responders :
      (g : KeyRrsig) (r a : ℕ) (rs : List ℕ)
      → any (λ q. event q g.algorithm r a) rs ≡ (elem r rs && a == g.algorithm)
  any_responders g r a [] = refl
  any_responders g r a (q ∷ rs) = ground (arith, any_responders g r a rs)

  abbrev Follows : Shown → Seps → Type 0
  Follows = Tracks (ds_algs validate z info) z.dnskey_server_client_responses

  Follows-note_rrsig :
      (g : KeyRrsig) (c : Shown) (seps : Seps)
      → Follows c seps
      → Follows (and_shows c (signs g)) (note_rrsig validate z info g seps)
  unfolding note_rrsig
  Follows-note_rrsig g c seps t =
      Tracks-ext _ _ _ _ _ (λ r a. ap (λ b. c r a || b) (any_responders g r a g.responders))
        (Tracks-each _ _ (λ q. note (ds_algs validate z info) q g.algorithm)
          (λ q. event q g.algorithm) (λ q e s u. Tracks-note _ _ q g.algorithm e s u) g.responders c
          seps t)

  Follows-note_rrsigs :
      (counts : KeyRrsig → Bool) (gs : List KeyRrsig) (c : Shown) (seps : Seps)
      → Follows c seps
      → Follows
          (and_shows c (λ r a. any (λ g. counts g && signs g r a) gs))
          (note_rrsigs validate z counts info gs seps)
  unfolding note_rrsigs
  Follows-note_rrsigs counts gs c seps t =
      Tracks-each _ _ _ _
        (λ g e s u. Tracks-if _ _ (counts g) (signs g) e s _ u (Follows-note_rrsig g e s u)) gs c
        seps t

  Follows-note_keys :
      (counts : Dnskey → KeyRrsig → Bool) (d : DsRecord) (i : DnskeyInfo) (c : Shown) (seps : Seps)
      → Follows c seps
      → Follows
          (and_shows c (λ r a.
            any
              (λ k. is_candidate d k && any (λ g. counts k g && signs g r a) i.rrsig_info)
              i.keys))
          (note_keys validate z counts info d i seps)
  unfolding note_keys
  Follows-note_keys counts d i c seps t =
      Tracks-each _ _ _ _
        (λ k e s u.
          Tracks-if _ _ (is_candidate d k) _ e s _ u
            (Follows-note_rrsigs (counts k) i.rrsig_info e s u))
        i.keys c seps t

  Follows-note_infos :
      (d : DsRecord) (c : Shown) (seps : Seps)
      → Follows c seps
      → Follows
          (and_shows c (anchors d))
          (note_infos validate z (is_validating validate z info d) info d seps)
  unfolding note_infos
  Follows-note_infos d c seps t =
      Tracks-each _ _ _ _
        (λ (i : DnskeyInfo) e s u.
          Tracks-if _ _ i.is_own _ e s _ u
            (Follows-note_keys (is_validating validate z info d) d i e s u))
        z.dnskey_answer_info c seps t

  Follows-algs_validating_sep :
      (c : Shown) (seps : Seps)
      → Follows c seps
      → Follows (and_shows c is_anchored) (algs_validating_sep validate z info seps)
  unfolding algs_validating_sep
  Follows-algs_validating_sep c seps t =
      Tracks-each _ _ _ _ Follows-note_infos info.records c seps t

  abbrev start : List ℕ → Seps
  start = map (λ (q : ℕ). (q, []))

  no_algs_lookup :
      (r : ℕ) (rs : List ℕ) → lookup r (start rs) ≡ (if elem r rs then some [] else none)
  no_algs_lookup r [] = refl
  no_algs_lookup r (q ∷ rs) = ground (arith, no_algs_lookup r rs)

  no_algs_keys : (rs : List ℕ) → all_different rs ≡ true → has_keys (start rs) ≡ true
  no_algs_keys [] h = refl
  no_algs_keys (q ∷ rs) h = ground (arith, h, no_algs_lookup q rs, no_algs_keys rs)

  Follows-no_algs :
      all_different z.dnskey_server_client_responses ≡ true
      → is_nonempty info.records ≡ true
      → Follows (λ r a. false) (no_algs validate z)
  Follows-no_algs h n = record {
    keyed = no_algs_keys z.dnskey_server_client_responses h;
    deleted = λ r e m. ground (arith, e, m, no_algs_lookup r z.dnskey_server_client_responses);
    kept = λ r algs m a. ground (arith, m, no_algs_lookup r z.dnskey_server_client_responses);
    lacking = λ r algs m. ground (arith, m, n, no_algs_lookup r z.dnskey_server_client_responses);
  }

  Follows-is_anchored :
      all_different z.dnskey_server_client_responses ≡ true
      → is_nonempty info.records ≡ true
      → Follows is_anchored (algs_validating_sep validate z info (no_algs validate z))
  Follows-is_anchored h n =
      Tracks-ext _ _ _ _ _ (λ r a. refl) (Follows-algs_validating_sep _ _ (Follows-no_algs h n))

  abbrev pub is_anchor : ℕ → Bool
  is_anchor r =
      all (is_anchored r) (ds_algs validate z info)
      || any (is_anchored r) (supported_ds_algs validate z info)

  lacks_lem :
      (seps : Seps)
      → Follows is_anchored seps
      → (r : ℕ) → elem r z.dnskey_server_client_responses ≡ true
      → not (lacks_sep validate z info seps r) ≡ is_anchor r
  lacks_lem seps t r e = elim (Option-cases (lookup r seps)) [
    | inl n ↦ ground (arith, n, t.deleted r e n)
    | inr (algs, n) ↦
        let k = t.kept r algs n in
        ground (
          arith,
          n,
          t.lacking r algs n,
          all_ext _ _ (ds_algs validate z info) k,
          any_ext _ _ (supported_ds_algs validate z info) k,
        )
  ]

  lacks_none : (rs : List ℕ) → any (λ r. not (lacks_sep validate z info [] r)) rs ≡ is_nonempty rs
  lacks_none [] = refl
  lacks_none (r ∷ rs) = refl

  secure_any :
      (seps : Seps) (rs : List ℕ)
      → (is_nonempty rs
          && (not (is_nonempty seps) || any (λ r. not (lacks_sep validate z info seps r)) rs))
        ≡ any (λ r. not (lacks_sep validate z info seps r)) rs
  secure_any [] rs = ground (arith, lacks_none rs)
  secure_any (e ∷ seps) [] = refl
  secure_any (e ∷ seps) (r ∷ rs) = refl

-- A DS RRset with at least one record makes a delegation secure exactly when, for some responder to
-- the DNSKEY query, each algorithm of the DS records is anchored, or some supported one is: a DS record
-- matches a DNSKEY, its digest is VALID, and the DNSKEY made a VALID RRSIG of the algorithm that the
-- responder returned with the DNSKEY RRset.
pub info_is_secure-is_anchor :
    (validate : DigestValidator) (z : Zone) (info : DsInfo)
    → all_different z.dnskey_server_client_responses ≡ true
    → is_nonempty info.records ≡ true
    → info_is_secure validate z info
      ≡ any (is_anchor validate z info) z.dnskey_server_client_responses
unfolding info_is_secure
info_is_secure-is_anchor validate z info h n =
    let seps = algs_validating_sep validate z info (no_algs validate z) in
    let t = Follows-is_anchored validate z info h n in
    secure_any validate z info seps z.dnskey_server_client_responses
    ∙ any_in _ _ z.dnskey_server_client_responses (λ r e. lacks_lem validate z info seps t r e)
