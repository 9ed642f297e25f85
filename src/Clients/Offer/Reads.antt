-- ===== src/Clients/Offer/Reads.antt =====
-- clients/offer.go and clients/signinmethods.go: the two reads that `OfferedFlows` remembers, and `Get`
-- with the read it makes.
use Prim.Native.String.{◌++◌, [] as empty_text, ◌∷◌ as cons_text}
use Prim.Native.Char.{code}
use signbyte_bff.Base.{
  ℕ, zero, suc, String, Bool, true, false, not, ◌&&◌, ◌||◌, List, [], ◌∷◌, ◌++◌ as ◌+++◌, Option,
  none, some, leb, nat_eq, if◌then◌else◌,
}
use signbyte_bff.Errors.{Result, ok, err, upstream, bad_answer}
use signbyte_bff.Server.{Response, ServiceCall, no_content, fetched}
use signbyte_bff.Server.Monad.{M, ret, ◌>>=◌, ◌>>◌, sample, emit, on_store, from_store}
use signbyte_bff.Server.Public.{PublicEnv}
use signbyte_bff.Clients.Calls.{trim_right_slash}
use signbyte_bff.Clients.Verify.{do_service}
use signbyte_bff.Clients.Offer.{OfferedFlows, learned, is_remembered}

-- `[A-Za-z]` and `[A-Za-z0-9]`
abbrev is_letter : ℕ → Bool
is_letter c = (leb 65 c && leb c 90) || (leb 97 c && leb c 122)

abbrev is_alphanumeric : ℕ → Bool
is_alphanumeric c = is_letter c || (leb 48 c && leb c 57)

-- at most `n` characters, each `[A-Za-z0-9]`
unfoldable pub is_word_up_to : ℕ → String → Bool
is_word_up_to n empty_text = true
is_word_up_to zero (cons_text c s) = false
is_word_up_to (suc n) (cons_text c s) =
    let rest = is_word_up_to n s in if is_alphanumeric (code c) then rest else false

-- `methodName`
unfoldable pub is_method_name : String → Bool
is_method_name empty_text = false
is_method_name (cons_text c s) = is_letter (code c) && is_word_up_to 63 s

-- the loop of `SignInMethods.Flows`, which appends
unfoldable pub method_loop : (String → String) → List String → List String → List String
method_loop trim [] methods = methods
method_loop trim (m ∷ ms) methods =
    method_loop trim ms (if is_method_name (trim m) then methods +++ (trim m ∷ []) else methods)

unfoldable pub methods_of : (String → String) → Result (List String) → Result (List String)
methods_of trim (ok listed) = ok (method_loop trim listed [])
methods_of trim (err e) = err e

-- the answer of the signing service
unfoldable pub flows_of : (String → Option (List String)) → Result Response → Result (List String)
flows_of decode (err e) = err e
flows_of decode (ok resp) =
    if not (nat_eq resp.status_code 200)
    then err
        (upstream (record { service = "signer"; status_code = resp.status_code; body = resp.body }))
    else elim (decode resp.body) [ none ↦ err (bad_answer "signer") | some names ↦ ok names ]

module _ (env : PublicEnv) where
  unfoldable pub info_call : ServiceCall
  info_call = record {
    timeout = 5;
    audience = env.signer_audience;
    scope = "signatures:read";
    method = "GET";
    url = trim_right_slash env.signer_base_url ++ "/api/v1/info";
    content_type = "";
    content = no_content;
  }

  unfoldable pub discovery_url : String
  discovery_url = trim_right_slash env.internal_url ++ "/.well-known/openid-configuration"

module _ {Db : Type 0} (env : PublicEnv) where
  -- `Offer.Flows`
  unfoldable pub offered_flows : M Db (Result (List String))
  offered_flows = do resp ← do_service env (info_call env); ret (flows_of env.flow_names resp)

  -- `SignInMethods.Flows`
  unfoldable pub sign_in_flows : M Db (Result (List String))
  sign_in_flows = do
    emit (fetched (discovery_url env))
    listed ← sample (λ i. env.get_json i (discovery_url env))
    ret (methods_of env.trim_space listed)

module _ (env : PublicEnv) where
  -- the part of `Get` that asks
  unfoldable pub learn : M OfferedFlows (Result (List String)) → M OfferedFlows OfferedFlows
  learn source = do
    answer ← source
    after ← sample env.now
    on_store (λ o. (learned after answer o, learned after answer o))

  -- `Get`, over what it asks: the state that it leaves, whose flows and error it returns
  unfoldable pub get_from : M OfferedFlows (Result (List String)) → M OfferedFlows OfferedFlows
  get_from source = do
    now ← sample env.now
    o ← from_store (λ db. db)
    if is_remembered now o then ret o else learn source
