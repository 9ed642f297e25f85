-- ===== src/Tests/Routes.antt =====
-- The handlers in the small world.
use signbyte_bff.Base.{
  ℕ, String, ◌≡◌, ◌≢◌, refl, Bool, true, false, List, [], ◌∷◌, Option, none, some, inl, inr, In, ℤ,
  pos, ◌==◌, ◌||◌, if◌then◌else◌, IsAtMost, arith, eq_iff,
}
use signbyte_bff.Errors.{ok, err, not_found}
use signbyte_bff.Session.{Session, Seal, Capabilities}
use signbyte_bff.Session.Memory.{MemoryStore}
use signbyte_bff.Session.Memory.Laws.{memory-IsStore}
use signbyte_bff.Server.{Env, Call, Effect, called, cookie_cleared, Request, no_content}
use signbyte_bff.Server.Monad.{json, logout_answer, replied, St}
use signbyte_bff.Server.Safe.{Any as Whatever}
use signbyte_bff.Routes.Cookies.{browser_binding, cookie_name, secure_cookies, csrf_cookie}
use signbyte_bff.Routes.Gate.{csrf_passes}
use signbyte_bff.Routes.Account.{logout, logout_url}
use signbyte_bff.Routes.Account.Logout.{logout-not_found}
use signbyte_bff.Routes.Token.{fresh_token}
use signbyte_bff.Routes.Table.{handler, authed, get_document_route}
use signbyte_bff.Routes.Delegation.Gate.{authed_calls, found_session}
use signbyte_bff.Routes.EnvelopeView.{get_envelope}
use signbyte_bff.Routes.EnvelopeView.Viewed.{IsViewed, get_envelope-IsViewed}
use signbyte_bff.Routes.Token.{Acting}
use signbyte_bff.Clients.Types.{Slot, Detail}
use signbyte_bff.Clients.Zero.{zero_detail}
use signbyte_bff.Routes.EnvelopeView.Privacy.{Shows}
use signbyte_bff.Routes.Login.{login_callback, text_or_empty}
use signbyte_bff.Routes.Login.Once.{IsRejected, login_callback_once}
use signbyte_bff.Session.Keys.{flow_key, parse_key}
use signbyte_bff.Routes.Login.Binding.{OnlyRedirects, login_callback_unbound}
use signbyte_bff.Routes.Envelopes.{SlotEntry, invited, slot_input}
use signbyte_bff.Routes.Envelopes.Invited.{AreInvited, invited-AreInvited}
use signbyte_bff.Routes.Sign.{sign_envelope_slot}
use signbyte_bff.Routes.Sign.Eligible.{BeginsEligible, sign_envelope_slot-BeginsEligible}
use signbyte_bff.Routes.Sign.Inputs.{SignSlot}
use signbyte_bff.Routes.Sign.Begun.{Begins}
use signbyte_bff.Routes.Sign.Certified.{Certified, sign_envelope_slot-Begins}
use signbyte_bff.Routes.Signing.{clamped_wait}
use signbyte_bff.Routes.Signing.Wait.{clamped_wait-IsAtMost}
use signbyte_bff.Tests.Session.{
  flow_codec, session_codec, session_of, flow_of, flow_trip, session_trip,
}
use signbyte_bff.Tests.World.{answer, env, request, start}

abbrev theirs : Slot
theirs = record {
  id = "s2";
  order_index = pos 1;
  role = "signer";
  flow = "";
  required_loa = "";
  status = "";
  job_id = "";
  signature_id = "";
  signed_doc_ref = "";
  identity_ref = "PNOLV-2";
  signer_name = "";
  return_url = "https://two.example";
}

abbrev viewed : Detail
viewed = record zero_detail { slots = theirs ∷ [] }

abbrev viewing : Env MemoryStore String String
viewing = record env { wire = record env.wire { detail = λ b. some viewed } }

get_envelope-IsViewed_example :
    Shows
      (IsViewed viewing "" "d1")
      Whatever
      (get_envelope viewing request "sid" (session_of "token"))
get_envelope-IsViewed_example = get_envelope-IsViewed viewing request "sid" (session_of "token")

abbrev old : Session
old = session_of "token"

abbrev answered : Session
answered = session_of "fresh"

unbound : browser_binding env request ≡ ""
unfolding browser_binding signbyte_bff.Routes.Cookies.read_cookie cookie_name secure_cookies
unbound = refl

login_callback_unbound_example : OnlyRedirects env (login_callback env request)
login_callback_unbound_example = login_callback_unbound env request unbound

sid_named : ◌≢◌ {A = String} "sid" ""
sid_named = ground (arith, eq_iff "sid" "")

deletes : (t : ℕ) (d : MemoryStore) → (env.store.delete_session t "sid" d).0 ≡ ok tt
unfolding signbyte_bff.Session.Memory.delete_session
deletes t d = refl

logout-not_found_example :
    ((logout env request "sid" (session_of "token") start).0
      ≡ replied (json 200 (logout_answer (logout_url env (session_of "token")))))
    × (env.store.get_session 6 "sid" (logout env request "sid" (session_of "token") start).1.db
        ≡ err not_found)
    × ((rest : List Effect) × ((logout env request "sid" (session_of "token") start).1.trace
          ≡ cookie_cleared (cookie_name request csrf_cookie) (secure_cookies request)
            ∷ cookie_cleared (cookie_name request env.config.cookie_name) (secure_cookies request)
            ∷ rest))
logout-not_found_example =
    logout-not_found env request "sid" (session_of "token") start 6
      (memory-IsStore flow_codec session_codec 3600 600 flow_trip session_trip) deletes sid_named

abbrev entry : SlotEntry
entry = record {
  order_index = pos 1;
  role = "signer";
  flow = "webEid";
  required_loa = "";
  identity_ref = "1";
  country = "LV";
}

admitted : invited env 0 (entry ∷ []) ≡ ok (slot_input entry "PNOLV-1" ∷ [])
unfolding invited signbyte_bff.Routes.Envelopes.slot_of
    signbyte_bff.Routes.Envelopes.invite_identity signbyte_bff.Routes.Envelopes.canonical_person
    signbyte_bff.Routes.Envelopes.only_person
admitted = refl

invited-AreInvited_example : AreInvited env (entry ∷ []) (slot_input entry "PNOLV-1" ∷ [])
invited-AreInvited_example =
    invited-AreInvited env 0 (entry ∷ []) (slot_input entry "PNOLV-1" ∷ []) admitted

abbrev card : SignSlot
card = record {
  document_id = "d1";
  flow = "webEid";
  sig_format = "pades";
  signing_certificate = "cert";
  auth_certificate = "auth";
  seal_id = "";
}

sign_envelope_slot-BeginsEligible_example :
    BeginsEligible env "d1" "d1"
      (sign_envelope_slot env request (ok card) "sid" (session_of "token") start).1.trace
sign_envelope_slot-BeginsEligible_example =
    sign_envelope_slot-BeginsEligible env request "sid" (session_of "token") (ok card) start refl

sign_envelope_slot-Begins_example :
    Begins
      (Certified env request "sid" (session_of "token") (ok card))
      (sign_envelope_slot env request (ok card) "sid" (session_of "token") start).1.trace
sign_envelope_slot-Begins_example =
    sign_envelope_slot-Begins env request "sid" (session_of "token") (ok card) start refl

abbrev seal : Seal
seal = record { id = "seal"; label = "Company"; certificate = "seal cert" }

abbrev sealed : Capabilities
sealed = record {
  sign_identity_id = "person";
  signing_certificate = "person cert";
  auth_certificate = "auth";
  seals = seal ∷ [];
  seals_known = true;
}

abbrev eseal : SignSlot
eseal = record card { flow = "eparakstsMobileEseal" }

clamped_wait-IsAtMost_example :
    IsAtMost (clamped_wait (some (pos 30))) 10
    × ((n : ℤ)
        → ◌≡◌ {A = Option ℤ} (some (pos 30)) (some n)
        → IsAtMost n 10
        → clamped_wait (some (pos 30)) ≡ n)
    × (◌≡◌ {A = Option ℤ} (some (pos 30)) none → clamped_wait (some (pos 30)) ≡ pos 0)
clamped_wait-IsAtMost_example = clamped_wait-IsAtMost (some (pos 30))

abbrev asked : Call
asked = record {
  slow = false;
  audience = "document";
  scope = "documents:read";
  sub = "";
  token = "fresh";
  method = "GET";
  url = "http://services/api/v1/documents/d1";
  content_type = "";
  content = no_content;
}

made : In (called asked (ok answer)) (authed env get_document_route request start).1.trace
unfolding authed signbyte_bff.Routes.Gate.require_session signbyte_bff.Server.Monad.◌>>=◌
    signbyte_bff.Server.Monad.sample signbyte_bff.Server.Monad.from_store
    signbyte_bff.Routes.Cookies.read_cookie cookie_name secure_cookies
    signbyte_bff.Routes.Gate.with_session signbyte_bff.Session.Memory.get_session
    signbyte_bff.Session.Memory.read signbyte_bff.Base.lookup csrf_passes
    signbyte_bff.Routes.Gate.state_changing handler signbyte_bff.Routes.Documents.get_document
    signbyte_bff.Routes.Relay.ready signbyte_bff.Server.Monad.ret
    signbyte_bff.Routes.Token.on_behalf fresh_token signbyte_bff.Routes.Token.refresh_with
    signbyte_bff.Session.Keys.parse_key signbyte_bff.Routes.Token.ask_refresh
    signbyte_bff.Server.Monad.emit signbyte_bff.Routes.Token.store_tokens
    signbyte_bff.Routes.Token.apply_tokens signbyte_bff.Routes.Token.put_session
    signbyte_bff.Server.Monad.on_store signbyte_bff.Session.Memory.put_session
    signbyte_bff.Session.Memory.entry signbyte_bff.Routes.Token.stored_session
    signbyte_bff.Routes.Relay.or_reply signbyte_bff.Clients.Document.metadata
    signbyte_bff.Clients.Calls.do_json signbyte_bff.Clients.Calls.do_on_behalf
    signbyte_bff.Clients.Calls.request_on_behalf signbyte_bff.Clients.Calls.decoded
    signbyte_bff.Clients.Calls.is_success signbyte_bff.Routes.Relay.or_relay
    signbyte_bff.Server.Monad.reply signbyte_bff.Clients.Document.base
    signbyte_bff.Clients.Calls.trim_right_slash signbyte_bff.Base.insert
made = inl refl

authed_calls_example :
    (sess : Session) × (found_session env request start ≡ ok sess)
    × (csrf_passes request sess ≡ true)
    × (asked.sub ≡ sess.subject)
    × (asked.token ≢ "")
authed_calls_example = authed_calls env get_document_route request start asked (ok answer) refl made

abbrev returning : Request
returning = record request {
  cookie = λ name. "0123456789012345678901234567890123456789012";
  query = λ name. if name == "error" || name == "iss" then none else some "code";
}

abbrev parked : St MemoryStore
parked = record start {
  db = record {
    flows =
        (
          "code.0123456789012345678901234567890123456789012",
          record { bytes = "key"; expires = 100 },
        )
        ∷ [];
    sessions = [];
  };
}

redeemed :
    (env.store.take_flow 5
      (flow_key env.digest
        (text_or_empty (returning.query "state"))
        (browser_binding env returning))
      parked.db).0
    ≡ ok (flow_of "key")
unfolding signbyte_bff.Session.Memory.take_flow signbyte_bff.Session.Memory.read flow_key
    browser_binding signbyte_bff.Routes.Cookies.read_cookie text_or_empty signbyte_bff.Base.lookup
redeemed = refl

login_callback_once_example :
    IsRejected env (login_callback env returning) (login_callback env returning parked).1
login_callback_once_example =
    login_callback_once env 3600 600
      (memory-IsStore flow_codec session_codec 3600 600 flow_trip session_trip) returning parked
      (login_callback env returning parked).1 (flow_of "key") redeemed refl
