-- ===== src/Query/Types.antt =====
-- dnsviz/query.py: the causes and actions of a retry, the retry attempt, and what a handler is
-- given. Times are in milliseconds, but for response times, which are in microseconds.
use dnsviz.Base.{ℕ, List, Option, Bool}
use dnsviz.Base.Int.{ℤ}
use dnsviz.Dns.Message.{Bytes, Message, Request}

-- RETRY_CAUSE_*; the first four and `rcode` are RESPONSE_ERROR_* too.
pub data Cause : Type 0 where
  network_error formerr timeout other tc_set rcode diagnostic : Cause

-- RETRY_ACTION_*, each with the action argument that the handlers pass beside it.
pub data Action : Type 0 where
  no_change use_tcp use_udp : Action
  set_flag clear_flag : ℕ → Action
  disable_edns : Action
  change_udp_max_payload : ℤ → Action
  set_edns_flag clear_edns_flag : ℕ → Action
  add_edns_option remove_edns_option : ℕ → Action
  change_sport : Action
  change_edns_version : Option ℕ → Action
  update_dns_cookie : Action

-- DNSQueryRetryAttempt
pub record Retry : Type 0 where
  pub response_time : ℕ
  pub cause : Cause
  pub cause_arg : Option ℕ
  pub action : Action

-- The dictionary `params` that the handlers share with the query handler.
pub record Params : Type 0 where
  pub wait : ℕ
  pub tcp : Bool
  pub timeout : ℕ
  pub sport : Option ℕ

-- The argument `response`: a message, or the exception that the query raised. A socket error and
-- an EOFError are one case, with the errno if there is one.
pub data Response : Type 0 where
  message : Message → Response
  timed_out : Response
  network_failure : Option ℕ → Response
  form_error : Response
  other_error : Response

-- What arrives at the handlers: the arguments of `handle`, and the time that it reads.
pub record Arrival : Type 0 where
  pub wire : Option Bytes
  pub response : Response
  pub response_time : ℕ
  pub now : ℕ

-- What a handler shares with the query handler by `set_context`.
pub record Context : Type 0 where
  pub request : Request
  pub params : Params
  pub history : List Retry

-- AcceptResponse, and the Python errors that a handler can run into.
pub data Exc : Type 0 where
  accept_response index_error type_error : Exc

pub data Outcome : Type 0 where
  returned : Option Retry → Outcome
  raised : Exc → Outcome
