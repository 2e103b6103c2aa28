-- ===== src/Response/Replay/Settings.antt =====
-- The EDNS settings of a request (dnsviz/query.py) against those that `_review_history` of
-- dnsviz/response.py replays: what one change of either does to their agreement.
use dnsviz.Base.{
  Bool, ℕ, Option, none, some, List, [], ◌∷◌, ◌≡◌, ◌≢◌, refl, arith, ap, ◌∙◌, true, false, ◌==◌,
  is_nonempty, select,
}
use dnsviz.Base.Int.{ℤ}
use dnsviz.Base.Bits.{AreSameLow-bit_and, AreSameLow-trans}
use dnsviz.Query.Handlers.{clear_bits}
use dnsviz.Dns.Message.{Request, EdnsOption, Bytes}
use dnsviz.Dns.Api.{EdnsApi, IsEdnsApi}
use dnsviz.Query.Types.{Context, remove_edns_option}
use dnsviz.Query.Handlers
use dnsviz.Query.Cookie.{set_cookie}
use dnsviz.Response.History.{Options, apply_action, remove_first}
use dnsviz.Response.Replay.{Agrees, codes, EdnsAgrees}

pub codes-set_cookie : (b : Bytes) (os : List EdnsOption) → codes (set_cookie b os) ≡ codes os
unfolding set_cookie
codes-set_cookie b [] = refl
codes-set_cookie b (o ∷ os) = ground (arith, codes-set_cookie b os)

-- Removing by code the first option removes the first option.
pub codes-remove_first :
    (o : EdnsOption) (os ps : List EdnsOption)
    → codes (o ∷ os) ≡ codes ps
    → codes (remove_first o.otype ps) ≡ codes os
unfolding remove_first
codes-remove_first o os [] e = cc
codes-remove_first o os (p ∷ ps) e = ground arith

pub found_first :
    (o : EdnsOption) (os ps : List EdnsOption)
    → codes (o ∷ os) ≡ codes ps
    → is_nonempty (select (λ x. o.otype == x.otype) ps) ≡ true
found_first o os [] e = cc
found_first o os (p ∷ ps) e = ground arith

pub settings_with_tcp :
    (v : Option ℕ) (q : Request) (s : Options) (b : Bool)
    → EdnsAgrees v q s
    → EdnsAgrees v q (record s { tcp = b })
settings_with_tcp none q s b h = tt
settings_with_tcp (some v) q s b h = h

pub settings_with_payload :
    (v : Option ℕ) (q : Request) (s : Options) (p : ℤ)
    → EdnsAgrees v q s
    → EdnsAgrees v
        (record q { payload = p })
        (record s { edns_max_udp_payload = some p; tcp = false })
settings_with_payload none q s p h = tt
settings_with_payload (some v) q s p h = (h.0, refl, h.2)

pub settings_with_version :
    (v w : Option ℕ) (q : Request) (s : Options)
    → v ≢ none
    → EdnsAgrees v q s
    → EdnsAgrees w q (record s { edns = w })
settings_with_version none w q s n h = absurd (n refl)
settings_with_version (some v) none q s n h = tt
settings_with_version (some v) (some w) q s n h = h

pub remove_keeps :
    (code : ℕ) (s : Options)
    → ((apply_action (remove_edns_option code) s).flags ≡ s.flags)
      × ((apply_action (remove_edns_option code) s).edns ≡ s.edns)
      × ((apply_action (remove_edns_option code) s).tcp ≡ s.tcp)
unfolding apply_action
remove_keeps code s = ground arith

-- The review removes the option that the handler removed.
pub settings_without_first :
    (v : Option ℕ) (q : Request) (s : Options) (o : EdnsOption) (os : List EdnsOption)
    → o ∷ os ≡ q.options
    → EdnsAgrees v q s
    → EdnsAgrees v (record q { options = os }) (apply_action (remove_edns_option o.otype) s)
unfolding apply_action
settings_without_first none q s o os e h = tt
settings_without_first (some v) q s o os e h = ground (
  arith,
  ap codes e,
  found_first o os s.edns_options (ap codes e ∙ h.2),
  codes-remove_first o os s.edns_options (ap codes e ∙ h.2),
)

-- The review clears the flags that the handler cleared.
pub settings_without_flag :
    (v : Option ℕ) (q : Request) (s : Options) (f : ℕ)
    → EdnsAgrees v q s
    → EdnsAgrees v
        (record q { ednsflags = clear_bits q.ednsflags f })
        (record s { edns_flags = clear_bits s.edns_flags f })
settings_without_flag none q s f h = tt
settings_without_flag (some v) q s f h =
    (AreSameLow-bit_and 16 q.ednsflags s.edns_flags f h.0, h.1, h.2)

module _ (api : EdnsApi) (laws : IsEdnsApi api) (c : Context) where
  -- `use_edns` leaves a request that agrees with what it was given.
  pub use_edns-Agrees :
      (v : Option ℕ) (f : ℕ) (p : ℤ) (o : List EdnsOption) (t : Options)
      → c.request.flags ≡ t.flags
      → v ≡ t.edns
      → c.params.tcp ≡ t.tcp
      → EdnsAgrees v (record c.request { ednsflags = f; payload = p; options = o }) t
      → Agrees (Handlers.set_request (api.use_edns c.request v f p o) c) t
  use_edns-Agrees none f p o t hf he ht hs = record {
    flags = laws.used_flags c.request none f p o ∙ hf;
    edns = laws.used_edns c.request none f p o ∙ he;
    tcp = ht;
    settings = rw laws.used_edns tt;
  }
  use_edns-Agrees (some v) f p o t hf he ht hs = record {
    flags = laws.used_flags c.request (some v) f p o ∙ hf;
    edns = laws.used_edns c.request (some v) f p o ∙ he;
    tcp = ht;
    settings =
        rw (laws.used_edns, laws.used_payload, laws.used_options)
          (
            AreSameLow-trans 16 _ f t.edns_flags (laws.used_ednsflags c.request v f p o) hs.0,
            hs.1,
            hs.2,
          );
  }

  -- A new payload size, sent by UDP.
  pub payload-Agrees :
      (p : ℤ) (s : Options)
      → Agrees c s
      → c.params.tcp ≡ false
      → Agrees
          (Handlers.with_payload api p c)
          (record s { edns_max_udp_payload = some p; tcp = false })
  payload-Agrees p s same ht =
      use_edns-Agrees c.request.edns c.request.ednsflags p c.request.options _ same.flags same.edns
        ht (settings_with_payload c.request.edns c.request s p same.settings)
