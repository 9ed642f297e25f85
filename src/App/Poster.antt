-- ===== src/App/Poster.antt =====
-- auditposter.go: the delivery of an access record to the audit. The service client and encoding/json are
-- parameters.
use Prim.Native.String.{◌++◌}
use signbyte_bff.Base.{
  String, Bool, true, false, not, nat_eq, ◌/◌, ◌≤◌, ◌<◌, Option, none, some, ◌≡◌, ◌↔◌, refl, arith,
  inl, inr, Bool-cases, if◌then◌else◌,
}
use signbyte_bff.Errors.{Result, ok, err, bad_json, upstream}
use signbyte_bff.Server.{Response}
use signbyte_bff.App.{AccessAuditPoster, new_access_audit_poster}
use signbyte_bff.App.Config.{trim_suffix_slash}

-- The service client, by audience, scope and address, and the encoding of a record.
pub record Delivery (Rec : Type 0) : Type 0 where
  -- PostJSON, with the context of a request
  pub post_json : String → String → String → Rec → Result (Unit {0})
  -- DoService, with the method and the body
  pub do_service : String → String → String → String → String → Result Response
  pub marshal : Rec → Option String

-- the background delivery's look at the answer
unfoldable pub posted : Result Response → Result (Unit {0})
posted (err e) = err e
posted (ok resp) =
    if not (nat_eq (resp.status_code / 100) 2)
    then err
        (upstream (record { service = "access-audit"; status_code = resp.status_code; body = "" }))
    else ok tt

module _ {Rec : Type 0} (d : Delivery Rec) (p : AccessAuditPoster) where
  unfoldable pub post_body : Option String → Result (Unit {0})
  post_body none = err bad_json
  post_body (some body) = posted (d.do_service p.audience p.scope "POST" p.url body)

  -- `Post`; the flag tells whether the context is that of a request
  unfoldable pub post : Bool → Rec → Result (Unit {0})
  post true rec = d.post_json p.audience p.scope p.url rec
  post false rec = post_body (d.marshal rec)

-- The body was taken by the address with a 2xx answer.
abbrev pub IsTaken : {Rec : Type 0} → Delivery Rec → String → String → String → Rec → Type 0
IsTaken d base_url audience scope rec =
    (body : String) × (resp : Response) × (d.marshal rec ≡ some body)
    × (d.do_service audience scope "POST" (trim_suffix_slash base_url ++ "/v1/access-records") body
        ≡ ok resp)
    × (200 ≤ resp.status_code)
    × (resp.status_code < 300)

not_err : {e : signbyte_bff.Errors.Error} → err e ≡ ok tt → ⊥
not_err p = cc

module _ (resp : Response) where
  abbrev is_other : Bool
  is_other = not (nat_eq (resp.status_code / 100) 2)

  other-outside : is_other ≡ true → 200 ≤ resp.status_code → resp.status_code < 300 → ⊥
  other-outside k l u = ground arith

  not_other-within : is_other ≡ false → (200 ≤ resp.status_code) × (resp.status_code < 300)
  not_other-within k = (ground arith, ground arith)

posted_ok :
    (a : Result Response)
    → posted a ≡ ok tt
    → (resp : Response) × (a ≡ ok resp) × (200 ≤ resp.status_code) × (resp.status_code < 300)
unfolding posted
posted_ok (err e) p = absurd (not_err p)
posted_ok (ok resp) p = elim (Bool-cases (is_other resp)) [
  | inl k ↦ absurd (not_err (rw k at p))
  | inr k ↦ (resp, refl, (not_other-within resp k).0, (not_other-within resp k).1)
]

posted_success :
    (resp : Response) → 200 ≤ resp.status_code → resp.status_code < 300 → posted (ok resp) ≡ ok tt
unfolding posted
posted_success resp l u = elim (Bool-cases (is_other resp)) [
  | inl k ↦ absurd (other-outside resp k l u)
  | inr k ↦ rw k refl
]

module _ {Rec : Type 0} (d : Delivery Rec) (base_url audience scope : String) (rec : Rec) where
  abbrev poster : AccessAuditPoster
  poster = new_access_audit_poster base_url audience scope

  post_body-IsTaken :
      (o : Option String)
      → d.marshal rec ≡ o
      → post_body d poster o ≡ ok tt
      → IsTaken d base_url audience scope rec
  unfolding post_body new_access_audit_poster
  post_body-IsTaken none m p = absurd (not_err p)
  post_body-IsTaken (some body) m p =
      let taken = posted_ok _ p in (body, taken.0, m, taken.1, taken.2, taken.3)

  IsTaken→post : IsTaken d base_url audience scope rec → post d poster false rec ≡ ok tt
  unfolding post post_body new_access_audit_poster
  IsTaken→post (body, resp, m, a, l, u) = rw (m, a) (posted_success resp l u)

  -- A record's delivery in the background is without an error exactly if the record could be encoded and
  -- the service answered a POST of it to the access records below the configured address with a status
  -- from 200 to 299.
  pub post-IsTaken : post d poster false rec ≡ ok tt ↔ IsTaken d base_url audience scope rec
  unfolding post
  post-IsTaken = (post_body-IsTaken _ refl, IsTaken→post)
