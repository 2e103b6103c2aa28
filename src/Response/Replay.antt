-- ===== src/Response/Replay.antt =====
-- How the review of the history (dnsviz/response.py) meets the handlers (dnsviz/query.py): the
-- options that the review replays are those that the handlers left in the request.
pub mod Settings
pub mod Step
pub mod Search
pub mod Handled
pub mod Whole
pub mod Review
use dnsviz.Base.{ℕ, ◌<◌, ◌^◌, false, bit_and, Option, none, some, List, ◌≡◌, ◌≢◌, map}
use dnsviz.Base.Bits.{AreSameLow}
use dnsviz.Dns.Message.{EdnsOption, Request}
use dnsviz.Query.Types.{Context}
use dnsviz.Query.Pmtu.{State, using_tcp}
use dnsviz.Query.Chain.{
  Handler, clear_edns_flag_on_timeout_handler, change_edns_version_on_timeout_handler,
  pmtu_bounding_handler,
}
use dnsviz.Response.History.{Options}

abbrev pub codes : List EdnsOption → List ℕ
codes = map (λ o. o.otype)

-- The EDNS settings, as far as they mean something: with EDNS off there is nothing to compare. The
-- flags are the 16 lowest bits of `ednsflags`; dnspython merges the version, which is compared by
-- itself, into the bits above them.
abbrev pub EdnsAgrees : Option ℕ → Request → Options → Type 0
EdnsAgrees none r s = Unit
EdnsAgrees (some v) r s =
    AreSameLow 16 r.ednsflags s.edns_flags
    × (some r.payload ≡ s.edns_max_udp_payload)
    × (codes r.options ≡ codes s.edns_options)

-- The request and the transport in use are those that the review has replayed. Options agree by
-- their codes: the review does not keep option data.
pub record Agrees (c : Context) (s : Options) : Type 0 where
  pub flags : c.request.flags ≡ s.flags
  pub edns : c.request.edns ≡ s.edns
  pub tcp : c.params.tcp ≡ s.tcp
  pub settings : EdnsAgrees c.request.edns c.request s

-- A change of the payload size is replayed as a change to UDP, so the handler that searches for
-- the payload must have been on UDP already, but where it comes back from TCP itself.
abbrev pub IsSentByUdp : State → Context → Type 0
IsSentByUdp using_tcp c = Unit
IsSentByUdp _ c = c.params.tcp ≡ false

-- The review masks a cleared EDNS flag without its cut to 16 bits, and it cannot know the payload
-- with which an EDNS version is set on a request without EDNS.
abbrev pub IsReplayable : Handler → Context → Type 0
IsReplayable (clear_edns_flag_on_timeout_handler flag n) c = bit_and flag 0xffff ≡ flag
IsReplayable (change_edns_version_on_timeout_handler v n) c = c.request.edns ≢ none
IsReplayable (pmtu_bounding_handler p) c = IsSentByUdp p.state c
IsReplayable _ c = Unit
