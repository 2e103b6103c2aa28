-- ===== src/Analysis/Edns.antt =====
-- dnsviz/analysis/offline.py: OfflineDomainNameAnalysis._populate_edns_errors, the warnings about the EDNS
-- of a response.
use dnsviz.Base.{
  ℕ, List, [], ◌∷◌, ◌++◌, none, some, Bool, not, ◌==◌, if◌then◌else◌, any, is_some, leb, bit_and,
}
use dnsviz.Dns.Message.{Message}
use dnsviz.Query.Handlers.{clear_bits}
use dnsviz.Status.Issue.{
  Issue, edns_ignored, edns_support_no_opt, edns_undefined_flags_set, edns_version_mismatch,
  gratuitous_opt, implemented_edns_version_not_provided,
}
use dnsviz.Response.Classify.{DnsResponse}

-- RRSIG is 46.
abbrev pub has_rrsig : Message → Bool
has_rrsig m = any (λ x. x.rdtype == 46) m.answer

-- The version of the response, for a request with a version. BADVERS is 16.
unfoldable pub version_errors : (requested version : ℕ) → Message → List Issue
version_errors requested version m =
    if m.rcode == 16
    then if leb requested version
      then implemented_edns_version_not_provided requested version ∷ []
      else []
    else if not (version == requested)
    then edns_version_mismatch requested version ∷ []
    else []

-- EDNS_DEFINED_FLAGS is DO, 0x8000.
abbrev pub undefined_flags : ℕ → ℕ
undefined_flags ednsflags = clear_bits (bit_and ednsflags 0xffff) 0x8000

unfoldable pub flags_errors : (ednsflags : ℕ) → List Issue
flags_errors ednsflags =
    let undefined = undefined_flags ednsflags in
    if not (undefined == 0) then edns_undefined_flags_set undefined ∷ [] else []

-- The warnings about a response; `ednsflags` is that of its message.
unfoldable pub edns_errors : (ednsflags : ℕ) → DnsResponse → List Issue
unfolding version_errors flags_errors
edns_errors ednsflags r = elim (r.message) [
  | none ↦ []
  | some m ↦ elim (r.effective.edns) [
    | some requested ↦ elim (m.edns) [
      | none ↦ if has_rrsig m then edns_support_no_opt ∷ [] else edns_ignored ∷ []
      | some version ↦ version_errors requested version m ++ flags_errors ednsflags
    ]
    | none ↦ if is_some m.edns then gratuitous_opt ∷ [] else []
  ]
]
