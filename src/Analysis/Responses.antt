-- ===== src/Analysis/Responses.antt =====
-- dnsviz/analysis/offline.py: OfflineDomainNameAnalysis._populate_response_errors and
-- _populate_foreign_class_warnings, the flags of a response and the classes of its records.
use dnsviz.Base.{
  ℕ, List, [], ◌∷◌, ◌++◌, Option, none, some, Bool, false, not, ◌&&◌, ◌==◌, if◌then◌else◌, map,
  select,
}
use dnsviz.Dns.Message.{DomainName, Message, RRset}
use dnsviz.Dns.Names.{NameApi}
use dnsviz.Status.Issue.{
  Issue, foreign_class_data_additional, foreign_class_data_answer, foreign_class_data_authority,
  inconsistent_nxdomain_ancestry, not_authoritative, recursion_not_available, referral_for_ds_query,
}
use dnsviz.Response.Classify.{
  DnsResponse, FindRrset, is_authoritative, is_complete_response, is_referral, recursion_available,
  recursion_desired,
}

-- ANALYSIS_TYPE_*, as far as the method tells them apart
pub data AnalysisType : Type 0 where
  authoritative recursive other_type : AnalysisType

-- The analysis that the name of the query belongs to, and the query.
pub record Asked : Type 0 where
  pub name : DomainName
  pub analysis_type : AnalysisType
  pub zone_is_signed : Bool
  pub nxdomain_ancestor : Option DomainName
  pub qname : DomainName
  pub rdtype : ℕ
  pub rdclass : ℕ

-- The errors and the warnings that are added.
pub record Noted : Type 0 where
  pub errors : List Issue
  pub warnings : List Issue

abbrev pub note_error : Issue → Noted → Noted
note_error i n = record n { errors = n.errors ++ i ∷ [] }

abbrev pub note_warning : Issue → Noted → Noted
note_warning i n = record n { warnings = n.warnings ++ i ∷ [] }

abbrev pub note_in : (is_error : Bool) → Issue → Noted → Noted
note_in is_error i n = if is_error then note_error i n else note_warning i n

module _ (names : NameApi) (find : FindRrset) where
  -- A response without authority; DS is 43.
  unfoldable pub authority_errors : Asked → DnsResponse → Noted → Noted
  unfolding is_authoritative is_complete_response is_referral
  authority_errors q r n =
      if is_authoritative r
      then n
      else let is_error = is_complete_response r && not (q.rdtype == 43 && not q.zone_is_signed) in
        if q.rdtype == 43 && is_referral names find q.qname q.rdtype q.rdclass (some q.name) false r
        then note_in is_error (referral_for_ds_query q.name) n
        else note_in is_error not_authoritative n

  -- NOERROR is 0.
  unfoldable pub ancestry_errors : Asked → DnsResponse → Noted → Noted
  unfolding is_complete_response
  ancestry_errors q r n = elim (r.message) [
    | none ↦ n
    | some m ↦ elim (q.nxdomain_ancestor) [
      | none ↦ n
      | some ancestor ↦
          if is_complete_response r && m.rcode == 0
          then note_error (inconsistent_nxdomain_ancestry q.qname ancestor) n
          else n
    ]
  ]

  unfoldable pub response_errors : Option Asked → DnsResponse → Noted
  unfolding authority_errors ancestry_errors recursion_desired recursion_available
      is_complete_response
  response_errors asked r =
      let nothing : Noted = record { errors = []; warnings = [] } in
      elim asked [
        | none ↦ nothing
        | some q ↦ ancestry_errors q r (elim (q.analysis_type) [
          | authoritative ↦ authority_errors q r nothing
          | recursive ↦
              if recursion_desired r && not (recursion_available r)
              then note_in (is_complete_response r) recursion_not_available nothing
              else nothing
          | other_type ↦ nothing
        ])
      ]

abbrev pub warn_class : (ℕ → Issue) → List RRset → List Issue
warn_class i rs = elim (map (λ (r : RRset). r.rdclass) rs) [ [] ↦ [] | c ∷ cs ↦ i c ∷ [] ]

-- The warnings about records of another class; SIG, which may be there in the additional section, is 24.
unfoldable pub foreign_class_warnings : (rdclass : ℕ) → Option Message → List Issue
foreign_class_warnings rdclass none = []
foreign_class_warnings rdclass (some m) =
    let is_foreign : RRset → Bool = λ r. not (r.rdclass == rdclass) in
    warn_class foreign_class_data_answer (select is_foreign m.answer)
    ++ warn_class foreign_class_data_authority (select is_foreign m.authority)
    ++ warn_class foreign_class_data_additional
        (select (λ r. is_foreign r && not (r.rdtype == 24)) m.additional)
