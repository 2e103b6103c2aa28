-- ===== src/Denial/Nsec3/Bitmaps.antt =====
-- When NSEC3StatusNODATA of dnsviz/analysis/status.py is VALID, by the bitmaps and flags of the records
-- for the name and for its wildcards.
use dnsviz.Base.{
  ℕ, List, [], ◌∷◌, Option, none, some, Bool, false, not, ◌&&◌, ◌||◌, ◌==◌, ◌≡◌, inl, inr, refl, ap,
  ◌∙◌, if◌then◌else◌, any, is_nonempty, is_some, arith, Option-cases,
}
use dnsviz.Dns.Message.{DomainName}
use dnsviz.Dns.Names.{NameApi}
use dnsviz.Denial.NsecSet.{HashParams, NsecRecord, NsecSet, get}
use dnsviz.Denial.Closest.{HashApi}
use dnsviz.Denial.Status.Valid.{has_type}
use dnsviz.Denial.Nsec3.{
  Enclosers, Hashed, Params, cover_qname, get_next_closest_encloser, get_wildcard, has_opt_out,
  hash_covering, valid_algs,
}
use dnsviz.Denial.Nsec3.Nxdomain.{uncovered}
use dnsviz.Denial.Nsec3.Nodata.{
  Bitmap, Owners, cover_each, find_all_wildcards, find_qname, find_wildcards, matched_nsec3,
  no_bits, nodata_checks, owner_for, see_bits, see_owner,
}
use dnsviz.Denial.Nsec3.Verdict.{qname_keeps}
use dnsviz.Denial.Nsec3.Matching.{
  all_wildcards_lem, covers_some_next, each_lem, is_matched, is_valid_status, nodata_checks_lem,
  qname_lem, wildcard_is_matched,
}

module _ (rdtype : ℕ) where
  -- The bits after some records were seen; f says of each type whether those have it.
  abbrev Seen : Bitmap → Bitmap → (ℕ → Bool) → Type 0
  Seen b c f =
      (c.has_rdtype ≡ (b.has_rdtype || f rdtype))
      × (c.has_cname ≡ (b.has_cname || f 5))
      × (c.has_ns ≡ (b.has_ns || f 2))
      × (c.has_ds ≡ (b.has_ds || f 43))
      × (c.has_soa ≡ (b.has_soa || f 6))

  Seen-none : (b : Bitmap) → Seen b b (λ t. false)
  Seen-none b = ground arith

  Seen-step :
      (o : Option NsecRecord) (b c : Bitmap) (f : ℕ → Bool)
      → Seen (see_bits rdtype o b) c f
      → Seen b c (λ t. has_type t o || f t)
  unfolding see_bits
  Seen-step o b c f h = ground arith

  Seen-join :
      (b c d : Bitmap) (f g : ℕ → Bool) → Seen b c f → Seen c d g → Seen b d (λ t. f t || g t)
  Seen-join b c d f g h k = ground arith

module _ (names : NameApi) (hash : HashApi) (origin : DomainName) (s : NsecSet) (rdtype : ℕ) where
  -- The record for the hash of a name, with these parameters, has the type.
  abbrev record_has : DomainName → ℕ → HashParams × List DomainName → Bool
  record_has name t p = elim (owner_for names hash origin s rdtype p name) [
    | none ↦ false
    | some d ↦ has_type t (get names d s.rrsets)
  ]

  -- Some record for the hash of the name has the type; some record for a closest encloser's wildcard.
  abbrev pub has_bit : DomainName → ℕ → Bool
  has_bit name t = any (record_has name t) s.nsec3_params

  abbrev pub wildcard_has_bit : Enclosers → ℕ → Bool
  wildcard_has_bit es t =
      any (λ p. any (λ e. record_has (get_wildcard names e.0) t p) es) s.nsec3_params

  -- The flag of the records that cover the name below an encloser, or else the flag so far.
  abbrev flag_after :
      DomainName → HashParams × List DomainName → Enclosers → Option Bool → Option Bool
  flag_after qname p [] o = o
  flag_after qname p (e ∷ es) o =
      flag_after qname p es
        (elim (hash_covering names hash origin s p (get_next_closest_encloser qname e.0)) [
          | none ↦ o
          | some found ↦ some (has_opt_out names s found.1)
        ])

  abbrev flag_after_all : DomainName → Enclosers → Params → Option Bool → Option Bool
  flag_after_all qname es [] o = o
  flag_after_all qname es (p ∷ ps) o = flag_after_all qname es ps (flag_after qname p es o)

  -- The last covering that was found has a record with the opt-out flag.
  abbrev pub is_opted_out : DomainName → Enclosers → Bool
  is_opted_out qname es = elim (flag_after_all qname es s.nsec3_params none) [
    | none ↦ false
    | some b ↦ b
  ]

  cover_flag :
      (p : HashParams × List DomainName) (encloser qname : DomainName) (h : Hashed)
      → h.qname ≡ qname
      → (cover_qname names hash origin s p encloser h).opt_out
        ≡ (elim (hash_covering names hash origin s p (get_next_closest_encloser qname encloser)) [
          | none ↦ h.opt_out
          | some found ↦ some (has_opt_out names s found.1)
        ])
  unfolding cover_qname
  cover_flag p encloser qname h eq = ground (arith, eq)

  each_flag :
      (p : HashParams × List DomainName) (es : Enclosers) (qname : DomainName) (h : Hashed)
      → h.qname ≡ qname
      → (cover_each names hash origin s rdtype p es h).opt_out ≡ flag_after qname p es h.opt_out
  unfolding cover_qname
  each_flag p [] qname h eq = refl
  each_flag p (e ∷ es) qname h eq =
      let k = cover_qname names hash origin s p e.0 h in
      each_flag p es qname k ((qname_keeps names hash origin s p e.0 h).0 ∙ eq)
      ∙ ap (flag_after qname p es) (cover_flag p e.0 qname h eq)

  find_flag :
      (ps : Params) (qname : DomainName) (o : Owners) (h : Hashed)
      → h.qname ≡ qname
      → any (λ p. is_some (owner_for names hash origin s rdtype p qname)) ps ≡ false
      → (find_qname names hash origin s rdtype ps (o, h)).1.opt_out
        ≡ flag_after_all qname h.closest_encloser ps h.opt_out
  unfolding find_qname
  find_flag [] qname o h eq u = refl
  find_flag (p ∷ ps) qname o h eq u =
      elim (Option-cases (owner_for names hash origin s rdtype p qname)) [
        | inr (d, q) ↦ ground (arith, q, u)
        | inl q ↦
            let es = h.closest_encloser in
            let k = cover_each names hash origin s rdtype p es h in
            let (q1, e1, c1) = each_lem names hash origin s rdtype p es qname h eq in
            let f = each_flag p es qname h eq in
            ground (arith, q, eq, e1, f, find_flag ps qname o k (q1 ∙ eq) (ground (arith, q, u)))
      ]

  qname_bits :
      (ps : Params) (qname : DomainName) (o : Owners) (h : Hashed)
      → h.qname ≡ qname
      → Seen rdtype o.bits
          (find_qname names hash origin s rdtype ps (o, h)).0.bits
          (λ t. any (record_has qname t) ps)
  unfolding find_qname
  qname_bits [] qname o h eq = Seen-none rdtype o.bits
  qname_bits (p ∷ ps) qname o h eq =
      elim (Option-cases (owner_for names hash origin s rdtype p qname)) [
        | inl q ↦
            let es = h.closest_encloser in
            let k = cover_each names hash origin s rdtype p es h in
            let q1 = (each_lem names hash origin s rdtype p es qname h eq).0 in
            ground (arith, q, eq, qname_bits ps qname o k (q1 ∙ eq))
        | inr (d, q) ↦ ground (
          arith,
          q,
          eq,
          Seen-step rdtype (get names d s.rrsets) o.bits
              (find_qname names hash origin s rdtype ps
                (see_owner names hash origin s rdtype d o, h)).0.bits
              (λ t. any (record_has qname t) ps)
              (qname_bits ps qname (see_owner names hash origin s rdtype d o) h eq),
        )
      ]

  wildcard_bits :
      (p : HashParams × List DomainName) (es : Enclosers) (o : Owners)
      → Seen rdtype o.bits
          (find_wildcards names hash origin s rdtype p es o).bits
          (λ t. any (λ e. record_has (get_wildcard names e.0) t p) es)
  unfolding find_wildcards
  wildcard_bits p [] o = Seen-none rdtype o.bits
  wildcard_bits p (e ∷ es) o =
      elim (Option-cases (owner_for names hash origin s rdtype p (get_wildcard names e.0))) [
        | inl q ↦ ground (arith, q, wildcard_bits p es o)
        | inr (d, q) ↦ ground (
          arith,
          q,
          Seen-step rdtype (get names d s.rrsets) o.bits
              (find_wildcards names hash origin s rdtype p es
                (see_owner names hash origin s rdtype d o)).bits
              (λ t. any (λ e. record_has (get_wildcard names e.0) t p) es)
              (wildcard_bits p es (see_owner names hash origin s rdtype d o)),
        )
      ]

  all_wildcard_bits :
      (ps : Params) (es : Enclosers) (o : Owners)
      → Seen rdtype o.bits
          (find_all_wildcards names hash origin s rdtype ps es o).bits
          (λ t. any (λ p. any (λ e. record_has (get_wildcard names e.0) t p) es) ps)
  unfolding find_all_wildcards
  all_wildcard_bits [] es o = Seen-none rdtype o.bits
  all_wildcard_bits (p ∷ ps) es o =
      let o' = find_wildcards names hash origin s rdtype p es o in
      Seen-join rdtype o.bits o'.bits (find_all_wildcards names hash origin s rdtype ps es o').bits
        (λ t. any (λ e. record_has (get_wildcard names e.0) t p) es)
        (λ t. any (λ q. any (λ e. record_has (get_wildcard names e.0) t q) es) ps)
        (wildcard_bits p es o) (all_wildcard_bits ps es o')

-- The verdict on a proof from NSEC3 records that a name has no record of a type, where `has t` is that
-- some record for the hash of the name has the type t in its bitmap. With a record for the hash of the
-- name, it is VALID exactly when, for DS (43) or a referral, there are no DS and no SOA (6), and NS (2)
-- for a zone; and else neither the type nor CNAME (5). Else, with a record for the hash of a closest
-- encloser's wildcard, it is VALID exactly when the hash of a name one label below a closest encloser
-- is covered and no record of a wildcard has the type; where none is covered, an exception comes up if
-- some record has a supported algorithm. Else it is VALID exactly when such a name is covered, and the
-- last of the coverings, in the order of the parameters and enclosers, has a record with the opt-out
-- flag.
pub nodata_checks-matched :
    (names : NameApi) (hash : HashApi) (origin : DomainName) (s : NsecSet) (rdtype : ℕ)
    (qname : DomainName) (is_zone : Bool) (es : Enclosers)
    → is_valid_status (
        nodata_checks names s.nsec3_params
          (matched_nsec3 names hash origin s rdtype qname is_zone es))
      ≡ (let has = has_bit names hash origin s rdtype qname in
          if is_matched names hash origin s rdtype qname
          then (if rdtype == 43 || s.referral
              then some ((not is_zone || has 2) && (not (has 43) && not (has 6)))
              else some (not (has rdtype) && not (has 5)))
          else if wildcard_is_matched names hash origin s rdtype es
          then (if covers_some_next names hash origin s rdtype qname es
              then some (not (wildcard_has_bit names hash origin s rdtype es rdtype))
              else if is_nonempty (valid_algs s.nsec3_params)
              then none
              else some false)
          else some (
              covers_some_next names hash origin s rdtype qname es
              && is_opted_out names hash origin s rdtype qname es))
unfolding matched_nsec3
nodata_checks-matched names hash origin s rdtype qname is_zone es =
    let nothing : Owners = record { owners = []; bits = no_bits } in
    let h = uncovered names hash origin s qname es in
    let m = matched_nsec3 names hash origin s rdtype qname is_zone es in
    let (a, b) = qname_lem names hash origin s rdtype s.nsec3_params qname nothing h refl in
    nodata_checks_lem names s.nsec3_params m
    ∙ ground (
      arith,
      a,
      b,
      all_wildcards_lem names hash origin s rdtype s.nsec3_params es nothing,
      qname_bits names hash origin s rdtype s.nsec3_params qname nothing h refl,
      all_wildcard_bits names hash origin s rdtype s.nsec3_params es nothing,
      find_flag names hash origin s rdtype s.nsec3_params qname nothing h refl,
    )
