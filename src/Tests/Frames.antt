-- ===== src/Tests/Frames.antt =====
-- The application-layer encryption under a cipher that keeps its blocks.
use go_homeconnect2mqtt.Base.{ℕ, ◌≡◌, refl, List, [], ◌∷◌, ◌++◌, replicate, ok}
use go_homeconnect2mqtt.Crypto.{
  AesCrypto, derive_keys, reset, new_crypto, pad, pad_length, seal, open_frame, encrypt_direction,
  chain_hmac,
}
use go_homeconnect2mqtt.Crypto.Stream.{seal_all, open_all, stream_roundtrip}
use go_homeconnect2mqtt.Crypto.Rejection.{HasEffect, open_frame-authentic}
use go_homeconnect2mqtt.Tests.Parameters.{plain_cipher, sevens}

abbrev zeros : List ℕ
zeros = replicate 16 0

-- A session as new_crypto makes it.
abbrev fresh : AesCrypto plain_cipher
fresh = record {
  enc_key = replicate 32 0;
  mac_key = replicate 32 0;
  iv = zeros;
  tx = tt;
  last_tx = zeros;
  rx = tt;
  last_rx = zeros;
}

abbrev hello : List ℕ
hello = 104 ∷ 105 ∷ []

-- "hi", a zero byte, twelve bytes of padding and their count; then the code.
abbrev hello_padded : List ℕ
hello_padded = hello ++ (0 ∷ (replicate 12 7 ++ (14 ∷ [])))

abbrev hello_frame : List ℕ
hello_frame = hello_padded ++ zeros

hello-pad : pad sevens hello ≡ ok hello_padded
unfolding pad pad_length
hello-pad = refl

made : new_crypto plain_cipher [] zeros ≡ ok fresh
unfolding new_crypto derive_keys reset
made = refl

hello-seal : (seal plain_cipher sevens encrypt_direction hello fresh).0 ≡ ok hello_frame
unfolding seal pad pad_length chain_hmac
hello-seal = refl

both_sealed :
    seal_all plain_cipher encrypt_direction ((sevens, hello) ∷ (sevens, hello) ∷ []) fresh
    ≡ ok (hello_frame ∷ hello_frame ∷ [])
unfolding seal_all seal pad pad_length chain_hmac
both_sealed = refl

stream_roundtrip_example :
    open_all plain_cipher encrypt_direction (hello_frame ∷ hello_frame ∷ []) fresh
    ≡ ok (hello ∷ hello ∷ [])
stream_roundtrip_example =
    stream_roundtrip plain_cipher [] zeros fresh encrypt_direction
      ((sevens, hello) ∷ (sevens, hello) ∷ []) (hello_frame ∷ hello_frame ∷ []) made both_sealed

open_frame-authentic_example :
    HasEffect plain_cipher fresh encrypt_direction hello_frame
      (open_frame plain_cipher encrypt_direction hello_frame fresh)
open_frame-authentic_example = open_frame-authentic plain_cipher fresh encrypt_direction hello_frame
