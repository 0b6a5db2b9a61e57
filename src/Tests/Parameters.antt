-- ===== src/Tests/Parameters.antt =====
-- Concrete functions for what the program takes from Go's library and from go-hamqtt.
use Prim.Native.String.{◌++◌}
use go_homeconnect2mqtt.Base.{
  ℕ, String, ◌≡◌, refl, ap, sym, ◌∙◌, none, some, List, [], ◌∷◌, length, replicate,
  length-replicate,
}
use go_homeconnect2mqtt.Base.Int.{ℤ, pos, int_beq, ltb_ℤ}
use go_homeconnect2mqtt.Base.Keys.{◌==◌, text_key}
use go_homeconnect2mqtt.Value.{Host}
use go_homeconnect2mqtt.Crypto.{Primitives, Random}
use go_homeconnect2mqtt.Layout.{SmartHome}

-- Whole numbers for float64, and ASCII texts that are trimmed and in lower case already.
abbrev pub whole_host : Host
whole_host = record {
  Float = ℤ;
  of_int = λ n. n;
  to_int = λ n. n;
  is_zero = λ n. int_beq n (pos 0);
  is_one = λ n. int_beq n (pos 1);
  is_positive = λ n. ltb_ℤ (pos 0) n;
  float_beq = int_beq;
  parse_float = λ s. none;
  atoi = λ s. none;
  trim_space = λ s. s;
  trim_quotes = λ s. s;
  lower = λ s. s;
  equal_fold = λ a b. a == b;
  print = λ v. "";
}

-- A cipher that keeps the blocks, and a code that depends on nothing.
abbrev pub plain_cipher : Primitives
plain_cipher = record {
  hmac_sha256 = λ k m. replicate 32 0;
  hmac_length = λ k m. refl;
  Encrypter = Unit;
  Decrypter = Unit;
  new_encrypter = λ k iv. tt;
  new_decrypter = λ k iv. tt;
  encrypt_blocks = λ e p. (p, tt);
  decrypt_blocks = λ d p. (p, tt);
  InStep = λ e d. Unit;
  in_step_new = λ k iv. tt;
  encrypt_length = λ e p h. refl;
  decrypt_encrypt = λ e d p s h. (refl, tt);
}

some_inj : {A : Type 0} {x y : A} → some x ≡ some y → x ≡ y
some_inj e = cc

pub sevens_length : (n : ℕ) (bs : List ℕ) → some (replicate n 7) ≡ some bs → length bs ≡ n
sevens_length n bs e = ap length (sym (some_inj e)) ∙ length-replicate n 7

abbrev pub sevens : Random
sevens = record { read_full = λ n. some (replicate n 7); read_length = sevens_length }

abbrev joined : List String → String
joined [] = ""
joined (s ∷ []) = s
joined (s ∷ t ∷ r) = s ++ ("/" ++ joined (t ∷ r))

abbrev levels : String → List String → String
levels function [] = ""
levels function (d ∷ r) = "home" ++ (function ++ (d ++ ("/" ++ joined r)))

abbrev pub plain_layout : SmartHome
plain_layout = record {
  name = "home";
  safe = λ s. s;
  join = joined;
  status = levels "/status/";
  set = levels "/set/";
  itoa = λ n. "1";
  atoi = λ s. some (pos 1);
  join_one = λ s. refl;
  join_more = λ s t r. refl;
  status_lem = λ d s r. refl;
  set_lem = λ d s r. refl;
}
