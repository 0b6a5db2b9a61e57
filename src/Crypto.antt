-- ===== src/Crypto.antt =====
-- internal/homeconnect/crypto.go: the application-layer encryption. Bytes are numbers below 256.
-- AES, CBC and HMAC-SHA256 are Go's crypto packages: they are the parameter `Primitives`.
pub mod Padding
pub mod Stream
pub mod Rejection
use go_homeconnect2mqtt.Base.{
  ℕ, zero, suc, ◌+◌, ◌-◌, ◌%◌, ◌^◌, ◌≡◌, Bool, true, false, ◌&&◌, ◌||◌, Option, none, some, List,
  [], ◌∷◌, ◌++◌, length, take, drop, replicate, Result, ok, err, ltb, nat_beq, if◌then◌else◌, arith,
}

pub record Primitives : Type 1 where
  pub hmac_sha256 : List ℕ → List ℕ → List ℕ  -- key and message
  pub hmac_length : (k m : List ℕ) → length (hmac_sha256 k m) ≡ 32
  pub Encrypter : Type 0  -- a cipher.BlockMode
  pub Decrypter : Type 0
  pub new_encrypter : List ℕ → List ℕ → Encrypter  -- aes.NewCipher and NewCBCEncrypter: key, iv
  pub new_decrypter : List ℕ → List ℕ → Decrypter
  pub encrypt_blocks : Encrypter → List ℕ → List ℕ × Encrypter  -- CryptBlocks
  pub decrypt_blocks : Decrypter → List ℕ → List ℕ × Decrypter
  pub InStep : Encrypter → Decrypter → Type 0  -- both stand at one point of one stream
  pub in_step_new : (k iv : List ℕ) → InStep (new_encrypter k iv) (new_decrypter k iv)
  pub encrypt_length :
      (e : Encrypter) (p : List ℕ) → length p % 16 ≡ 0 → length (encrypt_blocks e p).0 ≡ length p
  pub decrypt_encrypt :
      (e : Encrypter) (d : Decrypter) (p : List ℕ)
      → InStep e d
      → length p % 16 ≡ 0
      → ((decrypt_blocks d (encrypt_blocks e p).0).0 ≡ p)
        × InStep (encrypt_blocks e p).1 (decrypt_blocks d (encrypt_blocks e p).0).1

-- io.ReadFull on the random source: that many bytes, or an error.
pub record Random : Type 0 where
  pub read_full : ℕ → Option (List ℕ)
  pub read_length : (n : ℕ) (bs : List ℕ) → read_full n ≡ some bs → length bs ≡ n

pub data CryptoError : Type 0 where
  bad_iv bad_key too_long no_random too_short not_aligned hmac_mismatch empty_plain bad_padding :
      CryptoError

abbrev pub block_size : ℕ
block_size = 16

abbrev pub hmac_trunc : ℕ
hmac_trunc = 16

abbrev pub min_message_length : ℕ
min_message_length = 32

-- readLimit of socket.go
abbrev pub read_limit : ℕ
read_limit = 2 ^ 20

abbrev pub encrypt_direction : ℕ
encrypt_direction = 0x45

abbrev pub decrypt_direction : ℕ
decrypt_direction = 0x43

-- hmac.Equal
abbrev pub bytes_beq : List ℕ → List ℕ → Bool
bytes_beq [] [] = true
bytes_beq [] (y ∷ ys) = false
bytes_beq (x ∷ xs) [] = false
bytes_beq (x ∷ xs) (y ∷ ys) = nat_beq x y && bytes_beq xs ys

abbrev pub last_or : ℕ → List ℕ → ℕ
last_or d [] = d
last_or d (x ∷ xs) = last_or x xs

-- The number of bytes that pad adds.
unfoldable pub pad_length : ℕ → ℕ
pad_length n = let k = block_size - n % block_size in if nat_beq k 1 then k + block_size else k

pad_with : List ℕ → ℕ → Option (List ℕ) → Result CryptoError (List ℕ)
pad_with msg k none = err no_random
pad_with msg k (some mid) = ok (msg ++ (0 ∷ (mid ++ ((k % 256) ∷ []))))

unfoldable pub pad : Random → List ℕ → Result CryptoError (List ℕ)
unfolding pad_with
pad r msg =
    let k = pad_length (length msg) in
    if ltb read_limit (length msg) then err too_long else pad_with msg k (r.read_full (k - 2))

unfoldable pub unpad : List ℕ → Result CryptoError (List ℕ)
unpad plain =
    let k = last_or 0 plain in
    if nat_beq (length plain) 0
    then err empty_plain
    else if ltb k 1 || ltb (length plain) k
    then err bad_padding
    else ok (take (length plain - k) plain)

module _ (prim : Primitives) where
  open prim use {
    hmac_sha256, Encrypter, Decrypter, new_encrypter, new_decrypter, encrypt_blocks, decrypt_blocks,
  }

  pub record AesCrypto : Type 0 where
    pub enc_key : List ℕ
    pub mac_key : List ℕ
    pub iv : List ℕ
    pub tx : Encrypter
    pub last_tx : List ℕ
    pub rx : Decrypter
    pub last_rx : List ℕ

  -- deriveKeys: the labels are "ENC" and "MAC".
  unfoldable pub derive_keys : List ℕ → List ℕ × List ℕ
  derive_keys psk =
      (hmac_sha256 psk (b'E' ∷ b'N' ∷ b'C' ∷ []), hmac_sha256 psk (b'M' ∷ b'A' ∷ b'C' ∷ []))

  -- Reset
  unfoldable pub reset : AesCrypto → AesCrypto
  reset c = record c {
    tx = new_encrypter c.enc_key c.iv;
    last_tx = replicate hmac_trunc 0;
    rx = new_decrypter c.enc_key c.iv;
    last_rx = replicate hmac_trunc 0;
  }

  -- aes.NewCipher takes keys of 16, 24 and 32 bytes.
  abbrev is_key_length : ℕ → Bool
  is_key_length n = nat_beq n 16 || nat_beq n 24 || nat_beq n 32

  -- NewAESCrypto
  unfoldable pub new_crypto : List ℕ → List ℕ → Result CryptoError AesCrypto
  unfolding derive_keys reset
  new_crypto psk iv =
      let (enc_key, mac_key) = derive_keys psk in
      if nat_beq (length iv) block_size
      then (if is_key_length (length enc_key)
          then ok (
              reset (record {
                enc_key = enc_key;
                mac_key = mac_key;
                iv = iv;
                tx = new_encrypter enc_key iv;
                last_tx = [];
                rx = new_decrypter enc_key iv;
                last_rx = [];
              }))
          else err bad_key)
      else err bad_iv

  -- chainHMAC
  unfoldable pub chain_hmac : AesCrypto → ℕ → List ℕ → List ℕ → List ℕ
  chain_hmac c dir last ct = take hmac_trunc (hmac_sha256 c.mac_key (c.iv ++ (dir ∷ (last ++ ct))))

  seal_padded :
      AesCrypto → ℕ → Result CryptoError (List ℕ) → Result CryptoError (List ℕ) × AesCrypto
  seal_padded c dir (err e) = (err e, c)
  seal_padded c dir (ok padded) =
      let (ct, tx) = encrypt_blocks c.tx padded in
      let mac = chain_hmac c dir c.last_tx ct in
      (ok (ct ++ mac), record c { tx = tx; last_tx = mac })

  -- seal
  unfoldable pub seal : Random → ℕ → List ℕ → AesCrypto → Result CryptoError (List ℕ) × AesCrypto
  unfolding seal_padded
  seal r dir msg c = seal_padded c dir (pad r msg)

  open_verified : List ℕ → List ℕ → AesCrypto → Result CryptoError (List ℕ) × AesCrypto
  open_verified ct mac c =
      let (plain, rx) = decrypt_blocks c.rx ct in (unpad plain, record c { rx = rx; last_rx = mac })

  -- open
  unfoldable pub open_frame : ℕ → List ℕ → AesCrypto → Result CryptoError (List ℕ) × AesCrypto
  unfolding open_verified
  open_frame dir buf c =
      let n = length buf - hmac_trunc in
      let ct = take n buf in
      let recv = drop n buf in
      if ltb (length buf) min_message_length
      then (err too_short, c)
      else if nat_beq (length buf % block_size) 0
      then (if bytes_beq recv (chain_hmac c dir c.last_rx ct)
          then open_verified ct recv c
          else (err hmac_mismatch, c))
      else (err not_aligned, c)

  -- Encrypt and Decrypt
  unfoldable pub encrypt : Random → List ℕ → AesCrypto → Result CryptoError (List ℕ) × AesCrypto
  unfolding seal
  encrypt r msg c = seal r encrypt_direction msg c

  unfoldable pub decrypt : List ℕ → AesCrypto → Result CryptoError (List ℕ) × AesCrypto
  unfolding open_frame
  decrypt buf c = open_frame decrypt_direction buf c
