-- ===== src/Query/Handlers/Edns.antt =====
-- dnsviz/query.py: the handlers that change the request: EDNS, its version, payload, flags and options,
-- and the flags of the message.
use dnsviz.Base.{
  ℕ, List, [], ◌∷◌, Option, none, some, not, ◌&&◌, leb, ◌==◌, if◌then◌else◌, elem, bit_and, bit_or,
}
use dnsviz.Base.Int.{ℤ, ltb_ℤ}
use dnsviz.Dns.Message.{EdnsOption}
use dnsviz.Dns.Api.{EdnsApi}
use dnsviz.Query.Types.{
  Cause, formerr, timeout, rcode, set_flag, disable_edns, change_udp_max_payload, clear_edns_flag,
  remove_edns_option, change_edns_version, message, Arrival, Context, Outcome, returned,
}
use dnsviz.Query.Handlers.Common.{
  is_form_error, has_rcode, get_num_timeouts, clear_bits, is_on, same_version, retry_of,
  set_request,
}

module _ (api : EdnsApi) where
  abbrev pub edns_off : Context → Context
  edns_off c = set_request (api.disable_edns c.request) c

  -- DisableEDNSOnFormerrHandler
  unfoldable pub disable_edns_on_formerr : Arrival → Context → Outcome × Context
  disable_edns_on_formerr a c =
      if is_form_error a.response && is_on c.request.edns
      then (retry_of a formerr none disable_edns, edns_off c)
      else (returned none, c)

  abbrev pub with_payload : ℤ → Context → Context
  with_payload p c =
      let r = c.request in set_request (api.use_edns r r.edns r.ednsflags p r.options) c

  -- ReduceUDPMaxPayloadOnTimeoutHandler
  unfoldable pub reduce_payload_on_timeout : ℤ → ℕ → Arrival → Context → Outcome × Context
  unfolding get_num_timeouts
  reduce_payload_on_timeout reduced timeouts a c =
      if not c.params.tcp
        && leb timeouts (get_num_timeouts a.response c.history)
        && ltb_ℤ reduced c.request.payload
      then (retry_of a timeout none (change_udp_max_payload reduced), with_payload reduced c)
      else (returned none, c)

  -- ChangeEDNSVersionOnTimeoutHandler
  unfoldable pub change_edns_version_on_timeout :
      Option ℕ → ℕ → Arrival → Context → Outcome × Context
  unfolding get_num_timeouts
  change_edns_version_on_timeout edns timeouts a c =
      let r = c.request in
      if not c.params.tcp
        && leb timeouts (get_num_timeouts a.response c.history)
        && not (same_version r.edns edns)
      then (
        retry_of a timeout none (change_edns_version edns),
        set_request (api.use_edns r edns r.ednsflags r.payload r.options) c,
      )
      else (returned none, c)

  abbrev pub without_first : List EdnsOption → Context → Context
  without_first rest c =
      let r = c.request in set_request (api.use_edns r r.edns r.ednsflags r.payload rest) c

  -- The body that the two option handlers share, once their test has passed.
  unfoldable pub remove_option :
      Cause → Option ℕ → List EdnsOption → Arrival → Context → Outcome × Context
  remove_option cause arg [] a c = (returned none, c)
  remove_option cause arg (o ∷ rest) a c =
      (retry_of a cause arg (remove_edns_option o.otype), without_first rest c)

  -- RemoveEDNSOptionOnTimeoutHandler
  unfoldable pub remove_option_on_timeout : ℕ → Arrival → Context → Outcome × Context
  unfolding get_num_timeouts remove_option
  remove_option_on_timeout timeouts a c =
      if not c.params.tcp && leb timeouts (get_num_timeouts a.response c.history)
      then remove_option timeout none c.request.options a c
      else (returned none, c)

  -- DisableEDNSOnTimeoutHandler
  unfoldable pub disable_edns_on_timeout : ℕ → Arrival → Context → Outcome × Context
  unfolding get_num_timeouts
  disable_edns_on_timeout timeouts a c =
      if not c.params.tcp
        && leb timeouts (get_num_timeouts a.response c.history)
        && is_on c.request.edns
      then (retry_of a timeout none disable_edns, edns_off c)
      else (returned none, c)

  -- DisableEDNSOnRcodeHandler: NOTIMP is 4, FORMERR is 1, SERVFAIL is 2
  unfoldable pub disable_edns_on_rcode : Arrival → Context → Outcome × Context
  disable_edns_on_rcode a c = elim (a.response) [
    | message m ↦
        if elem m.rcode (4 ∷ 1 ∷ 2 ∷ []) && is_on c.request.edns
        then (retry_of a rcode (some m.rcode) disable_edns, edns_off c)
        else (returned none, c)
    | _ ↦ (returned none, c)
  ]

  -- RemoveEDNSOptionOnRcodeHandler
  unfoldable pub remove_option_on_rcode : ℕ → Arrival → Context → Outcome × Context
  unfolding remove_option
  remove_option_on_rcode code a c =
      if has_rcode a.response code
      then remove_option rcode (some code) c.request.options a c
      else (returned none, c)

-- ClearEDNSFlagOnTimeoutHandler
unfoldable pub clear_edns_flag_on_timeout : ℕ → ℕ → Arrival → Context → Outcome × Context
unfolding get_num_timeouts
clear_edns_flag_on_timeout flag timeouts a c =
    let r = c.request in
    if not c.params.tcp
      && leb timeouts (get_num_timeouts a.response c.history)
      && not (bit_and r.ednsflags flag == 0)
    then (
      retry_of a timeout none (clear_edns_flag flag),
      set_request (record r { ednsflags = clear_bits r.ednsflags (bit_and flag 0xffff) }) c,
    )
    else (returned none, c)

-- SetFlagOnRcodeHandler
unfoldable pub set_flag_on_rcode : ℕ → ℕ → Arrival → Context → Outcome × Context
set_flag_on_rcode flag code a c =
    let r = c.request in
    if has_rcode a.response code && bit_and r.flags flag == 0
    then (
      retry_of a rcode (some code) (set_flag flag),
      set_request (record r { flags = bit_or r.flags flag }) c,
    )
    else (returned none, c)
