-- ===== src/Query/Cookie/Once.antt =====
-- AddServerCookieOnBADCOOKIE (dnsviz/query.py): the server's cookie is taken over once.
use dnsviz.Base.{
  ℕ, zero, suc, ◌≤◌, List, [], ◌∷◌, ◌++◌, none, some, true, ◌≡◌, inl, inr, refl, ap, arith, length,
  take, drop, first, bytes_eq, Bool-cases, Option-cases,
}
use dnsviz.Dns.Message.{Bytes, EdnsOption, Message}
use dnsviz.Query.Cookie.{is_cookie, set_cookie, add_server_cookie}

drop_taken : (n : ℕ) (c d : Bytes) → n ≤ length c → drop n (take n c ++ d) ≡ d
drop_taken zero c d h = refl
drop_taken (suc n) [] d h = ground arith
drop_taken (suc n) (b ∷ c) d h = drop_taken n c d (omega arith)

take_taken : (n : ℕ) (c d : Bytes) → n ≤ length c → take n (take n c ++ d) ≡ take n c
take_taken zero c d h = refl
take_taken (suc n) [] d h = ground arith
take_taken (suc n) (b ∷ c) d h = ap (λ (x : Bytes). b ∷ x) (take_taken n c d (omega arith))

bytes_same : (x : Bytes) → bytes_eq x x ≡ true
bytes_same [] = refl
bytes_same (b ∷ x) = ground (arith, bytes_same x)

first_set :
    (b : Bytes) (os : List EdnsOption) (o : EdnsOption)
    → first is_cookie os ≡ some o
    → first is_cookie (set_cookie b os) ≡ some (record o { payload = b })
unfolding set_cookie
first_set b [] o h = cc
first_set b (x ∷ os) o h = elim (Bool-cases (is_cookie x)) [
  | inl q ↦ ground (arith, h, q)
  | inr q ↦ ground (arith, h, q, first_set b os o)
]

-- Once the cookie of a message was taken over, the same message changes nothing more, and the client's
-- part of the cookie is as before. (The client's cookie has its 8 bytes.)
pub add_server_cookie-once :
    (os : List EdnsOption) (m : Message) (client : EdnsOption) (b : Bytes)
    → first is_cookie os ≡ some client
    → 8 ≤ length client.payload
    → add_server_cookie os m ≡ some b
    → (add_server_cookie (set_cookie b os) m ≡ none) × (take 8 b ≡ take 8 client.payload)
unfolding add_server_cookie
add_server_cookie-once os m client b here long h = elim (Option-cases (first is_cookie m.options)) [
  | inl q ↦ ground arith
  | inr (server, q) ↦ ground (
    arith,
    first_set b os client here,
    drop_taken 8 client.payload (drop 8 server.payload) long,
    take_taken 8 client.payload (drop 8 server.payload) long,
    bytes_same (drop 8 server.payload),
  )
]
