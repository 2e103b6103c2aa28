-- ===== src/Response/Report.antt =====
-- dnsviz/response.py: what DNSResponse reports of itself: tags of the query and of cookies, the NSID, the
-- number of records and the response times, and the addresses of name servers. A text made of parts
-- is the list of its parts.
use dnsviz.Base.{
  ℕ, ◌+◌, List, [], ◌∷◌, ◌++◌, Option, none, some, Bool, true, not, ◌&&◌, ◌||◌, ◌==◌, if◌then◌else◌,
  all, first, is_some, is_nonempty, length, ltb, bit_and,
}
use dnsviz.Base.Int.{ℤ}
use Prim.Native.String.{String}
use dnsviz.Dns.Message.{
  Bytes, DomainName, EdnsOption, RRset, Rdata, Message, target, address, opaque,
}
use dnsviz.Dns.Names.{NameApi, same_name}
use dnsviz.Query.Handlers.{clear_bits}
use dnsviz.Query.Types.{Retry}
use dnsviz.Response.History.{
  no_cookie, client_cookie_only, server_cookie_fresh, server_cookie_static, server_cookie_bad,
  improper_length,
}
use dnsviz.Response.Classify.{DnsResponse, FindRrset, usable}

pub data Part : Type 0 where
  text : String → Part
  number : ℕ → Part
  signed : ℤ → Part

abbrev pub text_if : Bool → String → List Part
text_if b s = if b then text s ∷ [] else []

abbrev pub has_bit : ℕ → ℕ → Bool
has_bit flags bit = not (bit_and flags bit == 0)

-- NSID is 3, client subnet is 8 and COOKIE is 10.
unfoldable pub option_parts : List EdnsOption → List Part
option_parts [] = []
option_parts (o ∷ os) =
    let rest = option_parts os in
    (if o.otype == 3
      then text "N" ∷ []
      else if o.otype == 8
      then text "s" ∷ []
      else if o.otype == 10
      then text "K" ∷ []
      else text "O(" ∷ number o.otype ∷ text ")" ∷ [])
    ++ rest

-- The part of a query with EDNS; DO is 0x8000.
unfoldable pub edns_parts : (version edns_flags : ℕ) (payload : ℤ) → List EdnsOption → List Part
unfolding option_parts
edns_parts version edns_flags payload options =
    (text "EDNS" ∷ number version ∷ text "_" ∷ signed payload ∷ text "_" ∷ [])
    ++ text_if (has_bit edns_flags 0x8000) "D"
    ++ (if not (clear_bits edns_flags 0x8000 == 0) then number edns_flags ∷ [] else [])
    ++ text_if (is_nonempty options) "_"
    ++ option_parts options

-- DNSResponse._query_tag_human; RD is 0x100, CD 0x10, AD 0x20, AA 0x400, TC 0x200 and RA 0x80, and
-- `is_mixed` is that the name has capital letters.
unfoldable pub query_tag_human :
    (tcp : Bool) (flags : ℕ) (edns : Option ℕ) (edns_flags : ℕ) (payload : ℤ)
    → List EdnsOption
    → (is_mixed : Bool) → List Part
unfolding edns_parts
query_tag_human tcp flags edns edns_flags payload options is_mixed =
    text (if tcp then "TCP_" else "UDP_")
    ∷ text (if has_bit flags 0x100 then "+" else "-")
    ∷ (text_if (has_bit flags 0x10) "C"
        ++ text_if (has_bit flags 0x20) "A"
        ++ text_if (has_bit flags 0x400) "a"
        ++ text_if (has_bit flags 0x200) "t"
        ++ text_if (has_bit flags 0x80) "r"
        ++ text "_" ∷ []
        ++ (elim edns [
          | none ↦ text "NOEDNS_" ∷ []
          | some version ↦ edns_parts version edns_flags payload options
        ])
        ++ text_if is_mixed "_0x20")

-- effective_query_tag, which takes the payload size of the query and not the effective one.
unfoldable pub effective_query_tag : (query_payload : ℤ) (is_mixed : Bool) → DnsResponse → List Part
unfolding query_tag_human
effective_query_tag query_payload is_mixed r =
    query_tag_human r.effective.tcp r.effective.flags r.effective.edns r.effective.edns_flags
      query_payload r.effective.edns_options is_mixed

-- The NSID of the response: its text if it is ASCII, and else its bytes, to be written in hexadecimal.
pub data Nsid : Type 0 where
  ascii hexadecimal : Bytes → Nsid

unfoldable pub nsid_val : DnsResponse → Option Nsid
nsid_val r = elim (r.message) [
  | none ↦ none
  | some m ↦ if not (is_some m.edns) then none else elim (first (λ o. o.otype == 3) m.options) [
    | none ↦ none
    | some o ↦
        some (if all (λ b. ltb b 128) o.payload then ascii o.payload else hexadecimal o.payload)
  ]
]

-- none is the exception for an unknown status, which a static cookie is here.
unfoldable pub request_cookie_tag : DnsResponse → Option String
request_cookie_tag r = elim (r.effective.server_cookie_status) [
  | no_cookie ↦ some "NO_COOKIE"
  | improper_length ↦ some "MALFORMED_COOKIE"
  | client_cookie_only ↦ some "CLIENT_COOKIE_ONLY"
  | server_cookie_fresh ↦ some "VALID_SERVER_COOKIE"
  | server_cookie_bad ↦ some "INVALID_SERVER_COOKIE"
  | server_cookie_static ↦ none
]

unfoldable pub response_cookie_tag : DnsResponse → String
response_cookie_tag r = elim (r.message) [
  | none ↦ "ERROR"
  | some m ↦
      if not (is_some m.edns) then "NO_EDNS" else elim (first (λ o. o.otype == 10) m.options) [
        | none ↦ "NO_COOKIE_OPT"
        | some o ↦
            if ltb (length o.payload) 8 || ltb 40 (length o.payload)
            then "MALFORMED_COOKIE"
            else if length o.payload == 8
            then "CLIENT_COOKIE_ONLY"
            else "CLIENT_AND_SERVER_COOKIE"
      ]
]

abbrev pub count_records : List RRset → ℕ
count_records [] = 0
count_records (x ∷ xs) = length x.rdatas + count_records xs

-- section_rr_count; `is_additional` is that the section is the additional one of the message.
unfoldable pub section_rr_count : (is_additional : Bool) → List RRset → DnsResponse → Option ℕ
section_rr_count is_additional section r = elim (r.message) [
  | none ↦ none
  | some m ↦ some (count_records section + (if is_additional && is_some m.edns then 1 else 0))
]

unfoldable pub retries : DnsResponse → ℕ
retries r = length r.history

abbrev pub sum_times : List Retry → ℕ
sum_times [] = 0
sum_times (h ∷ hs) = h.response_time + sum_times hs

unfoldable pub total_response_time : DnsResponse → ℕ
total_response_time r = r.response_time + sum_times r.history

module _ (names : NameApi) (find : FindRrset) where
  abbrev pub addresses_of : List Rdata → List Bytes
  addresses_of [] = []
  addresses_of (x ∷ xs) =
      let rest = addresses_of xs in
      elim x [ target n ↦ rest | address a ↦ a ∷ rest | opaque b ↦ rest ]

  -- The addresses of a name in the additional section; A is 1, AAAA is 28 and IN is 1.
  abbrev pub additional_of : Message → DomainName → ℕ → List Bytes
  additional_of m n rdtype = elim (find m.additional n 1 rdtype) [
    | none ↦ []
    | some x ↦ addresses_of x.rdatas
  ]

  abbrev pub in_bailiwick : Option DomainName → DomainName → Bool
  in_bailiwick none n = true
  in_bailiwick (some b) n = names.is_subdomain n b

  -- `ip_mapping[target] = ...`
  abbrev pub set_addresses :
      DomainName → List Bytes → List (DomainName × List Bytes) → List (DomainName × List Bytes)
  set_addresses n bs [] = (n, bs) ∷ []
  set_addresses n bs ((k, cs) ∷ rest) =
      if same_name names n k then (k, bs) ∷ rest else (k, cs) ∷ set_addresses n bs rest

  -- The loop over the NS records, whose data are targets.
  unfoldable pub map_targets :
      Message
      → Option DomainName
      → List Rdata
      → List (DomainName × List Bytes)
      → List (DomainName × List Bytes)
  map_targets m bailiwick [] mapping = mapping
  map_targets m bailiwick (x ∷ xs) mapping = map_targets m bailiwick xs (elim x [
    | target n ↦
        set_addresses n
          (if in_bailiwick bailiwick n then additional_of m n 1 ++ additional_of m n 28 else [])
          mapping
    | address a ↦ mapping
    | opaque b ↦ mapping
  ])

  -- NS is 2.
  unfoldable pub ns_ip_mapping_from_additional :
      DomainName → Option DomainName → DnsResponse → List (DomainName × List Bytes)
  unfolding map_targets usable
  ns_ip_mapping_from_additional qname bailiwick r = elim (usable r) [
    | none ↦ []
    | some m ↦ elim (find m.answer qname 1 2) [
      | some x ↦ map_targets m bailiwick x.rdatas []
      | none ↦ elim (find m.authority qname 1 2) [
        | some x ↦ map_targets m bailiwick x.rdatas []
        | none ↦ []
      ]
    ]
  ]
