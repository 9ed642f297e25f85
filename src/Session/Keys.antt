-- ===== src/Session/Keys.antt =====
-- session/session.go: the key of a parked login flow, and the stored form of the signing-bound key.
pub mod Laws
use Prim.Native.String.{◌++◌ as text_append}
use signbyte_bff.Base.{String, Option}
use signbyte_bff.Errors.{Result, ok, err, bad_key, or_err, ◌>>=◌}

-- `digest` is the unpadded base64url text of the SHA-256 sum (crypto/sha256, encoding/base64).
unfoldable pub flow_key : (String → String) → String → String → String
flow_key digest state binding = text_append state (text_append "." (digest binding))

-- crypto/x509 and encoding/base64 as the source uses them; `Any` is a parsed key of any type.
pub record KeyFormat (Key Any : Type 0) : Type 0 where
  pub marshal_pkcs8 : Key → Option String
  pub parse_pkcs8 : String → Option Any
  pub as_ecdsa : Any → Option Key
  pub encode64 : String → String
  pub decode64 : String → Option String

module _ {Key Any : Type 0} (format : KeyFormat Key Any) where
  unfoldable pub marshal_key : Key → Result String
  marshal_key key = do der ← or_err (format.marshal_pkcs8 key) bad_key; ok (format.encode64 der)

  unfoldable pub parse_key : String → Result Key
  parse_key s = do
    der ← or_err (format.decode64 s) bad_key
    k ← or_err (format.parse_pkcs8 der) bad_key
    or_err (format.as_ecdsa k) bad_key
