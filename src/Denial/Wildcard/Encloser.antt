-- ===== src/Denial/Wildcard/Encloser.antt =====
-- The wildcard that an NSEC record shows (dnsviz/analysis/status.py), where its owner shares exactly
-- the closest encloser with the name and its next name does not go on below it.
use dnsviz.Base.{
  ℕ, zero, suc, ◌+◌, ◌-◌, List, [], ◌∷◌, ◌++◌, reverse, true, false, length, length-append, drop,
  bytes_eq, ◌≡◌, refl, sym, ap, ◌∙◌, arith,
}
use mathlib.Core.List.{reverse-append, append_assoc}
use dnsviz.Dns.Message.{Bytes, DomainName}
use dnsviz.Denial.Wildcard.{lower, agrees, last_index, get_wildcard}

bytes_same : (x : Bytes) → bytes_eq x x ≡ true
bytes_same [] = refl
bytes_same (b ∷ x) = ground (arith, bytes_same x)

drop_tail : (n : ℕ) (ns : List Bytes) → drop n (drop 1 ns) ≡ drop (suc n) ns
drop_tail zero [] = refl
drop_tail (suc n) [] = refl
drop_tail n (x ∷ ns) = refl

drop_one :
    (k : List Bytes) (q : Bytes) (ns : List Bytes)
    → agrees q (drop (suc (length k)) ns) ≡ false
    → agrees q (drop (length k) (drop 1 ns)) ≡ false
drop_one k q ns h = rw (drop_tail (length k) ns) h

last_index_lem :
    (i : ℕ) (k : List Bytes) (q : Bytes) (qs cs ns : List Bytes)
    → agrees q cs ≡ false
    → agrees q (drop (length k) ns) ≡ false
    → last_index i (k ++ q ∷ qs) (k ++ cs) ns ≡ i + length k
unfolding last_index
last_index_lem i [] q qs cs ns h h' = rw (h, h') (omega arith)
last_index_lem i (l ∷ k) q qs cs ns h h' =
    rw (bytes_same (lower l))
      (last_index_lem (suc i) k q qs cs (drop 1 ns) h (drop_one k q ns h') ∙ omega arith)

length-reverse : (xs : List Bytes) → length (reverse xs) ≡ length xs
length-reverse [] = refl
length-reverse (x ∷ xs) =
    ap length (reverse-append (x ∷ []) xs)
    ∙ omega (arith, length-append (reverse xs) (x ∷ []), length-reverse xs)

drop_all : (front rest : List Bytes) → drop (length front) (front ++ rest) ≡ rest
drop_all [] rest = refl
drop_all (x ∷ front) rest = drop_all front rest

reverse_name :
    (front : List Bytes) (q : Bytes) (enc : List Bytes)
    → reverse (front ++ q ∷ enc) ≡ reverse enc ++ q ∷ reverse front
reverse_name front q enc =
    reverse-append front (q ∷ enc)
    ∙ ap (λ (x : List Bytes). x ++ reverse front) (reverse-append (q ∷ []) enc)
    ∙ append_assoc (reverse enc) (q ∷ []) (reverse front)

drop_name :
    (front : List Bytes) (q : Bytes) (enc : List Bytes)
    → drop (length (front ++ q ∷ enc) - length enc) (front ++ q ∷ enc) ≡ enc
drop_name front q enc =
    ap (λ (n : ℕ). drop n (front ++ q ∷ enc))
      (omega (arith, length-append front (q ∷ enc), length-append front (q ∷ [])))
    ∙ ap (λ (x : List Bytes). drop (length (front ++ q ∷ [])) x)
        (sym (append_assoc front (q ∷ []) enc))
    ∙ drop_all (front ++ q ∷ []) enc

-- For a name and an owner with the ancestor `encloser` in common, whose labels below it are not the
-- same as the name's, and a next name that has at that place another label too, the wildcard is that of the
-- encloser.
pub get_wildcard-encloser :
    (front : List Bytes) (q : Bytes) (below : List Bytes) (l : Bytes) (above : List Bytes)
    (next : DomainName)
    → agrees q (reverse below) ≡ false
    → agrees q (drop (suc (length above)) (reverse next)) ≡ false
    → get_wildcard (front ++ q ∷ l ∷ above) (below ++ l ∷ above) next ≡ (42 ∷ []) ∷ l ∷ above
unfolding get_wildcard
get_wildcard-encloser front q below l above next h h' =
    let enc = l ∷ above in
    let long : length (reverse enc) ≡ suc (length above) = length-reverse enc in
    let index : last_index 0 (reverse (front ++ q ∷ enc)) (reverse (below ++ enc)) (reverse next)
        ≡ suc (length above) =
      rw (reverse_name front q enc, reverse-append below enc)
        (last_index_lem 0 (reverse enc) q (reverse front) (reverse below) (reverse next) h
            (rw long h')
          ∙ omega (arith, long)) in
    rw index (ap (λ (x : DomainName). (42 ∷ []) ∷ x) (drop_name front q enc))
