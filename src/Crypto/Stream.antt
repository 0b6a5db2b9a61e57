-- ===== src/Crypto/Stream.antt =====
-- The two ends of a connection of internal/homeconnect/crypto.go stay in step.
use mathlib.Core.Path.{subst₂}
use go_homeconnect2mqtt.Base.{
  ℕ, ◌-◌, ◌%◌, ◌≤◌, ◌≡◌, refl, sym, ap, ◌∙◌, true, List, [], ◌∷◌, ◌++◌, length, length-append,
  length-take, take-append, drop-append, Result, ok, err, arith,
}
use go_homeconnect2mqtt.Crypto.{
  Primitives, Random, CryptoError, bytes_beq, pad, unpad, AesCrypto, chain_hmac, seal, seal_padded,
  open_frame, open_verified, new_crypto,
}
use go_homeconnect2mqtt.Crypto.Padding.{unpad-pad}

pub bytes_beq_self : (xs : List ℕ) → bytes_beq xs xs ≡ true
bytes_beq_self [] = refl
bytes_beq_self (x ∷ xs) = ground (arith, bytes_beq_self xs)

module _ (prim : Primitives) where
  open prim use {
    InStep, encrypt_length, decrypt_encrypt, hmac_length, encrypt_blocks, decrypt_blocks,
  }

  -- What `a` seals is what `b` opens: the same keys, the same chain, the same point of the stream.
  pub record IsPeer (a b : AesCrypto prim) : Type 0 where
    pub mac_key : a.mac_key ≡ b.mac_key
    pub iv : a.iv ≡ b.iv
    pub chain : a.last_tx ≡ b.last_rx
    pub stream : InStep a.tx b.rx

  chain_hmac-length :
      (c : AesCrypto prim) (dir : ℕ) (last ct : List ℕ)
      → length (chain_hmac prim c dir last ct) ≡ 16
  unfolding chain_hmac
  chain_hmac-length c dir last ct = length-take 16 _ ∙ rw hmac_length (omega arith)

  chain_hmac-peer :
      (a b : AesCrypto prim) (dir : ℕ) (ct : List ℕ)
      → IsPeer a b
      → chain_hmac prim b dir b.last_rx ct ≡ chain_hmac prim a dir a.last_tx ct
  unfolding chain_hmac
  chain_hmac-peer a b dir ct h = cc (h.mac_key, h.iv, h.chain)

  -- A frame that carries the expected code is opened.
  open_frame_lem :
      (c : AesCrypto prim) (dir : ℕ) (ct mac : List ℕ)
      → length ct % 16 ≡ 0
      → 16 ≤ length ct
      → length mac ≡ 16
      → chain_hmac prim c dir c.last_rx ct ≡ mac
      → open_frame prim dir (ct ++ mac) c ≡ open_verified prim ct mac c
  unfolding open_frame
  open_frame_lem c dir ct mac whole long m e =
      let l = length-append ct mac in
      let n : length (ct ++ mac) - 16 ≡ length ct = omega (arith, l) in
      rw (n, take-append ct mac, drop-append ct mac, e, bytes_beq_self mac) (ground (arith, l))

  -- A message that was sealed is opened by the peer, and the two are in step again.
  pub open_frame-seal :
      (r : Random) (dir : ℕ) (msg frame : List ℕ) (a b : AesCrypto prim)
      → IsPeer a b
      → (seal prim r dir msg a).0 ≡ ok frame
      → ((open_frame prim dir frame b).0 ≡ ok msg)
        × IsPeer (seal prim r dir msg a).1 (open_frame prim dir frame b).1
  unfolding seal
  open_frame-seal r dir msg frame a b h e = by_pad (pad r msg) refl e
    where
      by_pad :
          (q : Result CryptoError (List ℕ))
          → pad r msg ≡ q
          → (seal_padded prim a dir q).0 ≡ ok frame
          → ((open_frame prim dir frame b).0 ≡ ok msg)
            × IsPeer (seal_padded prim a dir (pad r msg)).1 (open_frame prim dir frame b).1
      by_pad (err x) w q = cc
      by_pad (ok p) w q =
          let (back, whole, long, _) = unpad-pad r msg p w in
          let ct = (encrypt_blocks a.tx p).0 in
          let mac = chain_hmac prim a dir a.last_tx ct in
          let is_frame : ct ++ mac ≡ frame = cc in
          let l = encrypt_length a.tx p whole in
          let (plain, step) = decrypt_encrypt a.tx b.rx p h.stream whole in
          let opened =
            open_frame_lem b dir ct mac (rw l whole) (rw l long)
              (chain_hmac-length a dir a.last_tx ct) (chain_hmac-peer a b dir ct h) in
          rw (← is_frame, w, opened)
            (unfold open_verified in
              (
                ap unpad plain ∙ back,
                record { mac_key = h.mac_key; iv = h.iv; chain = refl; stream = step },
              ))

  -- Messages sealed one after the other, each with what the random source gives it.
  unfoldable pub seal_all :
      ℕ → List (Random × List ℕ) → AesCrypto prim → Result CryptoError (List (List ℕ))
  seal_all dir [] c = ok []
  seal_all dir ((r, msg) ∷ msgs) c =
      let (f, c') = seal prim r dir msg c in
      let fs = seal_all dir msgs c' in
      elim f [
        | err e ↦ err e
        | ok frame ↦ elim fs [ err e ↦ err e | ok frames ↦ ok (frame ∷ frames) ]
      ]

  -- Frames opened one after the other, up to the first that is refused.
  unfoldable pub open_all : ℕ → List (List ℕ) → AesCrypto prim → Result CryptoError (List (List ℕ))
  open_all dir [] c = ok []
  open_all dir (frame ∷ frames) c =
      let (m, c') = open_frame prim dir frame c in
      let ms = open_all dir frames c' in
      elim m [ err e ↦ err e | ok msg ↦ elim ms [ err e ↦ err e | ok msgs ↦ ok (msg ∷ msgs) ] ]

  abbrev pub messages : List (Random × List ℕ) → List (List ℕ)
  messages [] = []
  messages ((r, msg) ∷ msgs) = msg ∷ messages msgs

  -- A sequence that was sealed, taken apart.
  sealed_cons :
      (dir : ℕ) (r : Random) (msg : List ℕ) (msgs : List (Random × List ℕ)) (frames : List (List ℕ))
      (a : AesCrypto prim)
      → seal_all dir ((r, msg) ∷ msgs) a ≡ ok frames
      → (f : List ℕ) × ((seal prim r dir msg a).0 ≡ ok f)
        × (fs : List (List ℕ)) × (seal_all dir msgs (seal prim r dir msg a).1 ≡ ok fs)
        × (frames ≡ f ∷ fs)
  unfolding seal_all
  sealed_cons dir r msg msgs frames a e =
      parts (seal prim r dir msg a).0 refl (seal_all dir msgs (seal prim r dir msg a).1) refl e
    where
      Parts : Type 0
      Parts =
          (f : List ℕ) × ((seal prim r dir msg a).0 ≡ ok f)
          × (fs : List (List ℕ)) × (seal_all dir msgs (seal prim r dir msg a).1 ≡ ok fs)
          × (frames ≡ f ∷ fs)

      parts :
          (x : Result CryptoError (List ℕ))
          → (seal prim r dir msg a).0 ≡ x
          → (y : Result CryptoError (List (List ℕ)))
          → seal_all dir msgs (seal prim r dir msg a).1 ≡ y
          → (elim x [
            | err e ↦ err e
            | ok frame ↦ elim y [ err e ↦ err e | ok frames ↦ ok (frame ∷ frames) ]
          ])
            ≡ ok frames
          → Parts
      parts (err x) p y q z = cc
      parts (ok f) p (err y) q z = cc
      parts (ok f) p (ok fs) q z = (f, p, fs, q, cc)

  open_all-seal_all :
      (dir : ℕ) (msgs : List (Random × List ℕ)) (frames : List (List ℕ)) (a b : AesCrypto prim)
      → IsPeer a b
      → seal_all dir msgs a ≡ ok frames
      → open_all dir frames b ≡ ok (messages msgs)
  unfolding seal_all open_all
  open_all-seal_all dir [] frames a b h e = let z : [] ≡ frames = cc in rw (← z) refl
  open_all-seal_all dir ((r, msg) ∷ msgs) frames a b h e =
      let (f, f_is, fs, fs_is, z) = sealed_cons dir r msg msgs frames a e in
      let (opened, h') = open_frame-seal r dir msg f a b h f_is in
      let later =
        open_all-seal_all dir msgs fs (seal prim r dir msg a).1 (open_frame prim dir f b).1 h'
          fs_is in
      rw z (ground (arith, opened, later))

  new_crypto_parts :
      (psk iv : List ℕ) (a : AesCrypto prim)
      → new_crypto prim psk iv ≡ ok a
      → (a.tx ≡ prim.new_encrypter a.enc_key a.iv) × (a.rx ≡ prim.new_decrypter a.enc_key a.iv)
  unfolding new_crypto
  new_crypto_parts psk iv a e = ground arith

  new_crypto-IsPeer :
      (psk iv : List ℕ) (a : AesCrypto prim) → new_crypto prim psk iv ≡ ok a → IsPeer a a
  unfolding new_crypto
  new_crypto-IsPeer psk iv a e = record {
    mac_key = refl;
    iv = refl;
    chain = ground arith;
    stream =
        let (t, r) = new_crypto_parts psk iv a e in
        subst₂ InStep (sym t) (sym r) (prim.in_step_new a.enc_key a.iv);
  }

  -- Two ends made from one key and one iv: whatever one of them seals, in any number of messages
  -- and with any padding, the other opens in the same order and reads the same messages.
  pub stream_roundtrip :
      (psk iv : List ℕ) (c : AesCrypto prim) (dir : ℕ) (msgs : List (Random × List ℕ))
      (frames : List (List ℕ))
      → new_crypto prim psk iv ≡ ok c
      → seal_all dir msgs c ≡ ok frames
      → open_all dir frames c ≡ ok (messages msgs)
  stream_roundtrip psk iv c dir msgs frames e h =
      open_all-seal_all dir msgs frames c c (new_crypto-IsPeer psk iv c e) h
