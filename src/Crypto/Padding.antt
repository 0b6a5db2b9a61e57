-- ===== src/Crypto/Padding.antt =====
-- The custom padding of internal/homeconnect/crypto.go, removed by its own length byte.
use go_homeconnect2mqtt.Base.{
  ℕ, ◌+◌, ◌-◌, ◌%◌, ◌≤◌, ◌≡◌, refl, ap, ◌∙◌, true, false, Option, none, some, List, [], ◌∷◌, ◌++◌,
  length, take, length-append, take-append, ok, arith, Bool-cases, inl, inr, ltb, ◌⊎◌,
}
use go_homeconnect2mqtt.Crypto.{Random, read_limit, last_or, pad_length, pad_with, pad, unpad}

-- The bytes that are added fill up the block, are at least two, and fit the length byte.
pad_length_bounds :
    (n : ℕ) → (2 ≤ pad_length n) × (pad_length n ≤ 17) × ((n + pad_length n) % 16 ≡ 0)
unfolding pad_length
pad_length_bounds n = ground arith

last_or-append : (xs ys : List ℕ) (d k : ℕ) → last_or d (xs ++ (ys ++ (k ∷ []))) ≡ k
last_or-append [] [] d k = refl
last_or-append [] (y ∷ ys) d k = last_or-append [] ys y k
last_or-append (x ∷ xs) ys d k = last_or-append xs ys x k

-- A padded message, taken apart.
record Padded (msg p : List ℕ) : Type 0 where
  mid : List ℕ
  filled : length mid ≡ pad_length (length msg) - 2
  is_padded : p ≡ msg ++ (0 ∷ (mid ++ ((pad_length (length msg) % 256) ∷ [])))

pad-Padded : (r : Random) (msg p : List ℕ) → pad r msg ≡ ok p → Padded msg p
unfolding pad
pad-Padded r msg p e =
    by_read (r.read_full n) refl (by_limit (Bool-cases (ltb read_limit (length msg))))
  where
    n : ℕ
    n = pad_length (length msg) - 2

    by_limit :
        (ltb read_limit (length msg) ≡ true) ⊎ (ltb read_limit (length msg) ≡ false)
        → pad_with msg (pad_length (length msg)) (r.read_full n) ≡ ok p
    by_limit (inl h) = ground arith
    by_limit (inr h) = ground arith

    by_read :
        (o : Option (List ℕ))
        → r.read_full n ≡ o
        → pad_with msg (pad_length (length msg)) o ≡ ok p
        → Padded msg p
    by_read none h q = ground arith
    by_read (some mid) h q = record {
      mid = mid;
      filled = r.read_length n mid h;
      is_padded = ground arith;
    }

Padded-length : (msg p : List ℕ) → Padded msg p → length p ≡ length msg + pad_length (length msg)
Padded-length msg p d =
    let k = pad_length (length msg) in
    let tail = d.mid ++ ((k % 256) ∷ []) in
    ap length d.is_padded
    ∙ omega (
      arith,
      length-append msg (0 ∷ tail),
      length-append d.mid ((k % 256) ∷ []),
      d.filled,
      pad_length_bounds (length msg),
    )

Padded-last : (msg p : List ℕ) → Padded msg p → last_or 0 p ≡ pad_length (length msg)
Padded-last msg p d =
    let k = pad_length (length msg) in
    ap (last_or 0) d.is_padded
    ∙ last_or-append msg (0 ∷ d.mid) 0 (k % 256)
    ∙ omega (arith, pad_length_bounds (length msg))

-- A text behind which `k` bytes stand, cut to its length less `k`.
take_front :
    (msg rest p : List ℕ) (k : ℕ)
    → p ≡ msg ++ rest
    → length p ≡ length msg + k
    → take (length p - k) p ≡ msg
take_front msg rest p k e l =
    let n : length p - k ≡ length msg = omega arith in rw (n, e) (take-append msg rest)

-- What pad makes of a message is a whole number of blocks, at least one, at most 17 bytes longer
-- than the message, and unpad gives the message back.
pub unpad-pad :
    (r : Random) (msg p : List ℕ)
    → pad r msg ≡ ok p
    → (unpad p ≡ ok msg) × (length p % 16 ≡ 0) × (16 ≤ length p) × (length p ≤ length msg + 17)
unfolding unpad
unpad-pad r msg p e =
    let d = pad-Padded r msg p e in
    let k = pad_length (length msg) in
    let (two, most, whole) = pad_length_bounds (length msg) in
    let l = Padded-length msg p d in
    let z = Padded-last msg p d in
    (
      ground (arith, l, z, two, most, take_front msg _ p k d.is_padded l),
      rw l whole,
      omega arith,
      omega arith,
    )

-- A message within the limit is padded whenever the random source delivers.
pub pad_total :
    (r : Random) (msg mid : List ℕ)
    → length msg ≤ read_limit
    → r.read_full (pad_length (length msg) - 2) ≡ some mid
    → (p : List ℕ) × (pad r msg ≡ ok p)
unfolding pad
pad_total r msg mid h e =
    let k = pad_length (length msg) in
    (msg ++ (0 ∷ (mid ++ ((k % 256) ∷ []))), rw (e, pad) (ground arith))
