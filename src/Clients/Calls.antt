-- ===== src/Clients/Calls.antt =====
-- clients/clients.go: a call on behalf of the logged-in user.
use Prim.Native.String.{◌++◌}
use signbyte_bff.Base.{
  ℕ, String, Bool, true, false, not, ◌||◌, ◌&&◌, ◌==◌, List, [], ◌∷◌, Option, none, some, ltb, leb,
  if◌then◌else◌,
}
use Prim.Native.String.{[] as empty_text, ◌∷◌ as cons_text}
use signbyte_bff.Errors.{Result, ok, err, missing_token, upstream, bad_answer, bad_json}
use signbyte_bff.Server.{OnBehalf, Response, Call, called, Env, Payload, Content, json_content}
use signbyte_bff.Server.Monad.{M, ret, ◌>>=◌, ◌>>◌, sample, emit}

-- strings.Join
unfoldable pub join : String → List String → String
join sep [] = ""
join sep (x ∷ []) = x
join sep (x ∷ y ∷ xs) = x ++ sep ++ join sep (y ∷ xs)

-- strings.TrimRight(s, "/")
unfoldable pub trim_right_slash : String → String
trim_right_slash empty_text = ""
trim_right_slash (cons_text c s) =
    let rest = trim_right_slash s in
    if rest == "" && cons_text c "" == "/" then "" else cons_text c rest

unfoldable pub is_success : ℕ → Bool
is_success status = not (ltb status 200 || leb 300 status)

-- What is decoded from a 2xx answer. An empty body leaves `out` as it was.
unfoldable pub decoded :
    {A : Type 0} → String → (String → Option A) → A → Result Response → Result A
decoded service decode zero_value (err e) = err e
decoded service decode zero_value (ok resp) =
    if not (is_success resp.status_code)
    then err
        (upstream (record { service = service; status_code = resp.status_code; body = resp.body }))
    else if resp.body == ""
    then ok zero_value
    else elim (decode resp.body) [ none ↦ err (bad_answer service) | some a ↦ ok a ]

-- The 2xx test of the operations that hand on the response itself.
unfoldable pub only_success : String → Result Response → Result Response
only_success service (err e) = err e
only_success service (ok resp) =
    if not (is_success resp.status_code)
    then err
        (upstream (record { service = service; status_code = resp.status_code; body = resp.body }))
    else ok resp

abbrev pub map_result : {A B : Type 0} → (A → B) → Result A → Result B
map_result f (ok a) = ok (f a)
map_result f (err e) = err e

-- What a client passes to the call beside the user.
pub record Ask : Type 0 where
  pub service : String
  pub scope : String
  pub method : String
  pub url : String
  pub content : Content
  pub content_type : String

module _ {Db Key Any : Type 0} (env : Env Db Key Any) where
  abbrev pub call_for : Bool → Ask → OnBehalf → Call
  call_for slow ask obo = record {
    slow = slow;
    audience = env.config.audience ask.service;
    scope = ask.scope;
    sub = obo.sub;
    token = obo.token;
    method = ask.method;
    url = ask.url;
    content_type = ask.content_type;
    content = ask.content;
  }

  -- The request itself, which is one step of the world.
  unfoldable pub request_on_behalf : Bool → Ask → OnBehalf → M Db (Result Response)
  request_on_behalf slow ask obo = do
    resp ← sample (λ i. env.serve i (call_for slow ask obo))
    emit (called (call_for slow ask obo) resp)
    ret resp

  -- `doOnBehalf`, and the guard of its slow variant: no call without a subject token
  unfoldable pub do_on_behalf : Bool → Ask → OnBehalf → M Db (Result Response)
  do_on_behalf slow ask obo =
      if obo.token == ""
      then ret (err (missing_token ask.service))
      else request_on_behalf slow ask obo

  unfoldable pub do_json : {A : Type 0} → Ask → OnBehalf → (String → Option A) → A → M Db (Result A)
  do_json ask obo decode zero_value = do
    resp ← do_on_behalf false ask obo
    ret (decoded ask.service decode zero_value resp)

  unfoldable pub do_json_slow :
      {A : Type 0} → Ask → OnBehalf → (String → Option A) → A → M Db (Result A)
  do_json_slow ask obo decode zero_value = do
    resp ← do_on_behalf true ask obo
    ret (decoded ask.service decode zero_value resp)

  -- json.Marshal before the call
  unfoldable pub with_json : {A : Type 0} → Payload → (Content → M Db (Result A)) → M Db (Result A)
  with_json p call = if env.marshals p then call (json_content p) else ret (err bad_json)
