-- ===== src/Crypto/Rejection.antt =====
-- What `open` of internal/homeconnect/crypto.go refuses, and what it leaves behind.
use Prim.Native.Nat.{min}
use go_homeconnect2mqtt.Base.{
  ℕ, zero, suc, ◌-◌, ◌%◌, ◌≤◌, ◌≡◌, ◌⊎◌, inl, inr, refl, ap, ◌∙◌, Bool, true, false, Bool-cases,
  List, [], ◌∷◌, ◌++◌, length, length-take, take, drop, Result, ok, err, arith, nat_beq, ltb,
}
use go_homeconnect2mqtt.Crypto.{
  Primitives, CryptoError, bytes_beq, AesCrypto, chain_hmac, open_verified, open_frame,
}

bytes_beq_eq : (xs ys : List ℕ) → bytes_beq xs ys ≡ true → xs ≡ ys
bytes_beq_eq [] [] h = refl
bytes_beq_eq [] (y ∷ ys) h = cc
bytes_beq_eq (x ∷ xs) [] h = cc
bytes_beq_eq (x ∷ xs) (y ∷ ys) h = ground (arith, bytes_beq_eq xs ys)

split_at : (n : ℕ) (xs : List ℕ) → xs ≡ take n xs ++ drop n xs
split_at zero xs = refl
split_at (suc n) [] = refl
split_at (suc n) (x ∷ xs) = ap (λ r. x ∷ r) (split_at n xs)

module _ (prim : Primitives) where
  -- The frame is whole blocks, at least one, and behind them the code of the chain over them.
  abbrev pub IsAuthentic : AesCrypto prim → ℕ → List ℕ → Type 0
  IsAuthentic c dir buf =
      (ct : List ℕ) × ((buf ≡ ct ++ chain_hmac prim c dir c.last_rx ct)
        × ((length ct % 16 ≡ 0) × (16 ≤ length ct)))

  abbrev pub is_err : Result CryptoError (List ℕ) → Bool
  is_err (err _) = true
  is_err (ok _) = false

  -- What a frame does: it is refused and nothing moves, or it is authentic, the chain stands at its
  -- last bytes, and the keys, the iv and the sending side are as they were.
  abbrev pub HasEffect :
      AesCrypto prim → ℕ → List ℕ → Result CryptoError (List ℕ) × AesCrypto prim → Type 0
  HasEffect c dir buf (r, after) =
      ((is_err r ≡ true) × (after ≡ c))
      ⊎ (IsAuthentic c dir buf
          × ((buf ≡ take (length buf - 16) buf ++ after.last_rx)
              × ((after.enc_key ≡ c.enc_key)
                  × ((after.mac_key ≡ c.mac_key)
                      × ((after.iv ≡ c.iv) × ((after.tx ≡ c.tx) × (after.last_tx ≡ c.last_tx)))))))

  opened :
      (c : AesCrypto prim) (dir : ℕ) (buf : List ℕ)
      → (ltb (length buf) 32) ≡ false
      → nat_beq (length buf % 16) 0 ≡ true
      → bytes_beq
          (drop (length buf - 16) buf)
          (chain_hmac prim c dir c.last_rx (take (length buf - 16) buf))
        ≡ true
      → IsAuthentic c dir buf
  opened c dir buf long aligned same =
      let n = length buf - 16 in
      let ct = take n buf in
      let size : length ct ≡ length buf - 16 = length-take n buf ∙ smaller (length buf) in
      let (whole, one) = blocks (length buf) long aligned in
      (
        ct,
        (
          split_at n buf
              ∙ ap (λ m. ct ++ m)
                  (bytes_beq_eq (drop n buf) (chain_hmac prim c dir c.last_rx ct) same),
          (rw size whole, rw size one),
        ),
      )
    where
      smaller : (l : ℕ) → min (l - 16) l ≡ l - 16
      smaller l = omega arith

      blocks :
          (l : ℕ)
          → ltb l 32 ≡ false
          → nat_beq (l % 16) 0 ≡ true
          → ((l - 16) % 16 ≡ 0) × (16 ≤ l - 16)
      blocks l long aligned = ground arith

  -- Whatever bytes arrive: open hands out a text, or moves the receiving chain, only for a frame that
  -- consists of whole blocks (one at least) and the code of the chain over them at this point; the
  -- chain then stands at that code. Every other frame is an error, after which all is as before. No
  -- frame changes the keys, the iv or the sending chain.
  pub open_frame-authentic :
      (c : AesCrypto prim) (dir : ℕ) (buf : List ℕ)
      → HasEffect c dir buf (open_frame prim dir buf c)
  unfolding open_frame open_verified
  open_frame-authentic c dir buf =
      let n = length buf - 16 in
      elim (Bool-cases (ltb (length buf) 32)) [
        | inl short ↦ rw (open_frame, short) (inl (refl, refl))
        | inr long ↦ elim (Bool-cases (nat_beq (length buf % 16) 0)) [
          | inr odd ↦ rw (open_frame, long, odd) (inl (refl, refl))
          | inl aligned ↦
              elim (Bool-cases
                (bytes_beq (drop n buf) (chain_hmac prim c dir c.last_rx (take n buf)))) [
                  | inr wrong ↦ rw (open_frame, long, aligned, wrong) (inl (refl, refl))
                  | inl same ↦
                      rw (open_frame, long, aligned, same)
                        (inr (
                          opened c dir buf long aligned same,
                          (split_at n buf, (refl, (refl, (refl, (refl, refl))))),
                        ))
                ]
        ]
      ]
