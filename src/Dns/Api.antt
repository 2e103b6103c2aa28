-- ===== src/Dns/Api.antt =====
-- The operations of dnspython that dnsviz calls on the objects of `Message`. They are parameters;
-- the law records state the documented behaviour that the theorems rely on.
use dnsviz.Base.{ℕ, List, Option, some, none, ◌≡◌}
use dnsviz.Base.Int.{ℤ}
use dnsviz.Base.Bits.{AreSameLow}
use dnsviz.Dns.Message.{EdnsOption, Request}

-- `request.use_edns(version, ednsflags, payload, options=options)` and `request.use_edns(False)`
pub record EdnsApi : Type 0 where
  pub use_edns : Request → Option ℕ → ℕ → ℤ → List EdnsOption → Request
  pub disable_edns : Request → Request

-- With a version that is not negative, the version, the payload and the options are stored. The EDNS
-- flags are the 16 lowest bits of `ednsflags` (RFC 6891, section 6.1.3): they are stored as given, and
-- the version is merged into the bits above them. The flags of the message are kept, and `False` turns
-- EDNS off.
pub record IsEdnsApi (api : EdnsApi) : Type 0 where
  pub used_flags :
      (r : Request) (e : Option ℕ) (f : ℕ) (p : ℤ) (o : List EdnsOption)
      → (api.use_edns r e f p o).flags ≡ r.flags
  pub used_edns :
      (r : Request) (e : Option ℕ) (f : ℕ) (p : ℤ) (o : List EdnsOption)
      → (api.use_edns r e f p o).edns ≡ e
  pub used_ednsflags :
      (r : Request) (v f : ℕ) (p : ℤ) (o : List EdnsOption)
      → AreSameLow 16 (api.use_edns r (some v) f p o).ednsflags f
  pub used_payload :
      (r : Request) (v f : ℕ) (p : ℤ) (o : List EdnsOption)
      → (api.use_edns r (some v) f p o).payload ≡ p
  pub used_options :
      (r : Request) (v f : ℕ) (p : ℤ) (o : List EdnsOption)
      → (api.use_edns r (some v) f p o).options ≡ o
  pub disabled_flags : (r : Request) → (api.disable_edns r).flags ≡ r.flags
  pub disabled_edns : (r : Request) → (api.disable_edns r).edns ≡ none
