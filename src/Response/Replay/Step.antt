-- ===== src/Response/Replay/Step.antt =====
-- One handler of dnsviz/query.py against one step of `_review_history` of dnsviz/response.py.
use dnsviz.Base.{ℕ, Option, none, some, List, [], ◌∷◌, ◌≡◌, ◌≢◌, refl, arith, sym, ◌∙◌, bit_and}
use dnsviz.Base.Int.{ℤ}
use dnsviz.Dns.Message.{EdnsOption, Bytes}
use dnsviz.Dns.Api.{EdnsApi, IsEdnsApi}
use dnsviz.Query.Types.{
  Response, message, Arrival, Context, Retry, returned, Cause, remove_edns_option, timeout, rcode,
}
use dnsviz.Query.Handlers
use dnsviz.Query.Cookie.{
  add_server_cookie, update_cookie, on_badcookie, add_server_cookie_on_badcookie,
}
use dnsviz.Response.History.{Options, apply_action}
use dnsviz.Response.Replay.{Agrees}
use dnsviz.Response.Replay.Settings.{
  codes-set_cookie, settings_with_version, settings_without_first, settings_without_flag,
  remove_keeps, use_edns-Agrees, payload-Agrees,
}

module _ (a : Arrival) (c c' : Context) (s : Options) (r : Retry) (same : Agrees c s) where
  pub tc_flag-Agrees :
      Handlers.use_tcp_on_tc_flag a c ≡ (returned (some r), c')
      → Agrees c' (apply_action r.action s)
  unfolding Handlers.use_tcp_on_tc_flag apply_action
  tc_flag-Agrees e = ground arith

  pub network_error-Agrees :
      (n : ℕ)
      → Handlers.retry_on_network_error n a c ≡ (returned (some r), c')
      → Agrees c' (apply_action r.action s)
  unfolding Handlers.retry_on_network_error apply_action
  network_error-Agrees n e = ground arith

  pub udp_network_error-Agrees :
      (n : ℕ)
      → Handlers.use_udp_on_network_error n a c ≡ (returned (some r), c')
      → Agrees c' (apply_action r.action s)
  unfolding Handlers.use_udp_on_network_error apply_action
  udp_network_error-Agrees n e = ground arith

  pub udp_timeout-Agrees :
      (n : ℕ)
      → Handlers.use_udp_on_timeout n a c ≡ (returned (some r), c')
      → Agrees c' (apply_action r.action s)
  unfolding Handlers.use_udp_on_timeout apply_action
  udp_timeout-Agrees n e = ground arith

  pub retry_timeout-Agrees :
      Handlers.retry_on_timeout a c ≡ (returned (some r), c') → Agrees c' (apply_action r.action s)
  unfolding Handlers.retry_on_timeout apply_action
  retry_timeout-Agrees e = ground arith

  pub set_flag-Agrees :
      (f code : ℕ)
      → Handlers.set_flag_on_rcode f code a c ≡ (returned (some r), c')
      → Agrees c' (apply_action r.action s)
  unfolding Handlers.set_flag_on_rcode apply_action
  set_flag-Agrees f code e = ground arith

  pub clear_flag-Agrees :
      (f n : ℕ)
      → bit_and f 0xffff ≡ f
      → Handlers.clear_edns_flag_on_timeout f n a c ≡ (returned (some r), c')
      → Agrees c' (apply_action r.action s)
  unfolding Handlers.clear_edns_flag_on_timeout apply_action
  clear_flag-Agrees f n h e =
      ground (arith, settings_without_flag c.request.edns c.request s f same.settings)

  update_cookie-Agrees :
      (code : ℕ) (o : Option Bytes)
      → update_cookie code o a c ≡ (returned (some r), c')
      → Agrees c' (apply_action r.action s)
  unfolding update_cookie apply_action
  update_cookie-Agrees code none e = cc
  update_cookie-Agrees code (some b) e = ground (arith, codes-set_cookie b c.request.options)

  on_badcookie-Agrees :
      (m : Response)
      → on_badcookie m a c ≡ (returned (some r), c')
      → Agrees c' (apply_action r.action s)
  unfolding on_badcookie
  on_badcookie-Agrees (message m) e =
      ground (arith, update_cookie-Agrees m.rcode (add_server_cookie c.request.options m))
  on_badcookie-Agrees _ e = cc

  pub cookie-Agrees :
      add_server_cookie_on_badcookie a c ≡ (returned (some r), c')
      → Agrees c' (apply_action r.action s)
  cookie-Agrees e = on_badcookie-Agrees a.response (unfold add_server_cookie_on_badcookie in e)

module _ (api : EdnsApi) (laws : IsEdnsApi api) (a : Arrival) (c c' : Context) (s : Options)
    (r : Retry) (same : Agrees c s) where
  pub formerr-Agrees :
      Handlers.disable_edns_on_formerr api a c ≡ (returned (some r), c')
      → Agrees c' (apply_action r.action s)
  unfolding Handlers.disable_edns_on_formerr apply_action
  formerr-Agrees e = ground (arith, laws.disabled_flags c.request, laws.disabled_edns c.request)

  pub disable_timeout-Agrees :
      (n : ℕ)
      → Handlers.disable_edns_on_timeout api n a c ≡ (returned (some r), c')
      → Agrees c' (apply_action r.action s)
  unfolding Handlers.disable_edns_on_timeout apply_action
  disable_timeout-Agrees n e =
      ground (arith, laws.disabled_flags c.request, laws.disabled_edns c.request)

  pub disable_rcode-Agrees :
      Handlers.disable_edns_on_rcode api a c ≡ (returned (some r), c')
      → Agrees c' (apply_action r.action s)
  unfolding Handlers.disable_edns_on_rcode apply_action
  disable_rcode-Agrees e =
      ground (arith, laws.disabled_flags c.request, laws.disabled_edns c.request)

  pub reduce-Agrees :
      (p : ℤ) (n : ℕ)
      → Handlers.reduce_payload_on_timeout api p n a c ≡ (returned (some r), c')
      → Agrees c' (apply_action r.action s)
  unfolding Handlers.reduce_payload_on_timeout apply_action
  reduce-Agrees p n e = ground (arith, payload-Agrees api laws c p s same)

  pub version-Agrees :
      (v : Option ℕ) (n : ℕ)
      → c.request.edns ≢ none
      → Handlers.change_edns_version_on_timeout api v n a c ≡ (returned (some r), c')
      → Agrees c' (apply_action r.action s)
  unfolding Handlers.change_edns_version_on_timeout apply_action
  version-Agrees v n h e = ground (
    arith,
    use_edns-Agrees api laws c v c.request.ednsflags c.request.payload c.request.options
        (record s { edns = v }) same.flags refl same.tcp
        (settings_with_version c.request.edns v c.request s h same.settings),
  )

  remove-Agrees :
      (cause : Cause) (arg : Option ℕ) (os : List EdnsOption)
      → os ≡ c.request.options
      → Handlers.remove_option api cause arg os a c ≡ (returned (some r), c')
      → Agrees c' (apply_action r.action s)
  unfolding Handlers.remove_option
  remove-Agrees cause arg [] h e = cc
  remove-Agrees cause arg (o ∷ os) h e = ground (
    arith,
    use_edns-Agrees api laws c c.request.edns c.request.ednsflags c.request.payload os
        (apply_action (remove_edns_option o.otype) s) (same.flags ∙ sym (remove_keeps o.otype s).0)
        (same.edns ∙ sym (remove_keeps o.otype s).1) (same.tcp ∙ sym (remove_keeps o.otype s).2)
        (settings_without_first c.request.edns c.request s o os h same.settings),
  )

  pub remove_timeout-Agrees :
      (n : ℕ)
      → Handlers.remove_option_on_timeout api n a c ≡ (returned (some r), c')
      → Agrees c' (apply_action r.action s)
  unfolding Handlers.remove_option_on_timeout
  remove_timeout-Agrees n e = ground (arith, remove-Agrees timeout none c.request.options refl)

  pub remove_rcode-Agrees :
      (code : ℕ)
      → Handlers.remove_option_on_rcode api code a c ≡ (returned (some r), c')
      → Agrees c' (apply_action r.action s)
  unfolding Handlers.remove_option_on_rcode
  remove_rcode-Agrees code e =
      ground (arith, remove-Agrees rcode (some code) c.request.options refl)
