-- ===== src/Socket.antt =====
-- internal/homeconnect/socket.go and socket_tls.go: the constructors of the sockets and the address of
-- the appliance. `trim` is strings.TrimSpace; connections are not modelled.
use Prim.Native.String.{String, ◌++◌ as ◌^^◌}
use Prim.Native.Char.{Char, code}
use go_homeconnect2mqtt.Base.{
  ℕ, Bool, false, Option, none, some, List, Result, ok, err, nat_beq, if◌then◌else◌,
}
use go_homeconnect2mqtt.Base.Keys.{◌==◌, text_key}
use go_homeconnect2mqtt.Devices.{has_sign}
use go_homeconnect2mqtt.Crypto.{Primitives, CryptoError, AesCrypto, new_crypto}

pub data SocketError : Type 0 where
  empty_host : SocketError
  no_crypto : CryptoError → SocketError
  unknown_type : String → SocketError

pub data Socket (prim : Primitives) : Type 0 where
  aes_socket : String → AesCrypto prim → Socket prim
  tls_socket : String → List ℕ → Socket prim

abbrev pub keep_first : Char → Option String → Option String
keep_first c none = none
keep_first c (some s) = some (String.◌∷◌ c s)

-- What stands before a bracket at the end
unfoldable pub before_bracket : String → Option String
before_bracket String.[] = none
before_bracket (String.◌∷◌ c String.[]) = if nat_beq (code c) b']' then some "" else none
before_bracket (String.◌∷◌ c (String.◌∷◌ d s)) = keep_first c (before_bracket (String.◌∷◌ d s))

unfoldable pub without_brackets : String → String
unfolding before_bracket
without_brackets String.[] = ""
without_brackets (String.◌∷◌ c s) =
    if nat_beq (code c) b'['
    then elim (before_bracket s) [ some t ↦ t | none ↦ String.◌∷◌ c s ]
    else String.◌∷◌ c s

-- The zone of an IPv6 address
unfoldable pub escape_zone : String → String
escape_zone String.[] = ""
escape_zone (String.◌∷◌ c s) =
    let rest = escape_zone s in if nat_beq (code c) b'%' then "%25" ^^ s else String.◌∷◌ c rest

-- The host as it stands in the address
unfoldable pub url_host : String → String
unfolding has_sign escape_zone
url_host h = if has_sign b':' h then "[" ^^ (escape_zone h ^^ "]") else h

-- applianceURL
unfoldable pub appliance_url : (String → String) → String → Bool → Option String
unfolding without_brackets url_host
appliance_url trim host secure =
    let h = url_host (without_brackets (trim host)) in
    if trim host == ""
    then none
    else if secure
    then some ("wss://" ^^ (h ^^ ":443/homeconnect"))
    else some ("ws://" ^^ (h ^^ ":80/homeconnect"))

module _ (prim : Primitives) (trim : String → String) where
  abbrev pub with_crypto :
      String → Result CryptoError (AesCrypto prim) → Result SocketError (Socket prim)
  with_crypto url (err e) = err (no_crypto e)
  with_crypto url (ok c) = ok (aes_socket url c)

  -- NewAESSocket
  unfoldable pub new_aes_socket : String → List ℕ → List ℕ → Result SocketError (Socket prim)
  unfolding appliance_url
  new_aes_socket host psk iv = elim (appliance_url trim host false) [
    | none ↦ err empty_host
    | some url ↦ with_crypto url (new_crypto prim psk iv)
  ]

  -- NewTLSSocket
  abbrev pub new_tls_socket : String → List ℕ → Result SocketError (Socket prim)
  new_tls_socket host psk = if host == "" then err empty_host else ok (tls_socket host psk)

  -- NewSocket
  unfoldable pub new_socket : String → String → List ℕ → List ℕ → Result SocketError (Socket prim)
  unfolding new_aes_socket
  new_socket kind host psk iv =
      if kind == "AES"
      then new_aes_socket host psk iv
      else if kind == "TLS"
      then new_tls_socket host psk
      else err (unknown_type kind)
