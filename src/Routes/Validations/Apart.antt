-- ===== src/Routes/Validations/Apart.antt =====
-- Cached answers, sessions and flows share one Redis, under keys that never meet.
use Prim.Native.String.{◌++◌, slice}
use text.Mathlib.TextLemmas.{append_assoc}
use text.Mathlib.TextPositions.{slice-append_left}
use signbyte_bff.Base.{ℕ, String, ◌≡◌, ◌≢◌, sym, ap, ◌∙◌, arith, eq_iff}
use signbyte_bff.Session.{Flow, Session}
use signbyte_bff.Session.Interface.{Codec, IsRoundTrip}
use signbyte_bff.Session.Redis.{
  Redis, flow_key, sess_key, decoded, put_flow, take_flow, put_session, get_session,
}
use signbyte_bff.Session.Redis.Laws.{IsRedis, taken_same, get-set_encoded_ne}
use signbyte_bff.Answers.Redis as Shared
use signbyte_bff.Answers.Redis.{or_none}
use signbyte_bff.Routes.Validations.{answer_key}

prefix_differs : ◌≢◌ {A = String} "va:" "por"
prefix_differs = ground (arith, eq_iff "va:" "por")

-- A key that begins like those of the sessions is no answer's.
answer_key-ne : (sub kind id rest k : String) → k ≡ "por" ++ rest → answer_key sub kind id ≢ k
unfolding answer_key
answer_key-ne sub kind id rest k p e = prefix_differs (
    sym (slice-append_left "va:" (sub ++ ":" ++ kind ++ ":" ++ id))
    ∙ ap (λ x. slice x 0 3) (e ∙ p)
    ∙ slice-append_left "por" rest)

answer_key-ne-sess_key : (sub kind id sid : String) → answer_key sub kind id ≢ sess_key sid
unfolding sess_key
answer_key-ne-sess_key sub kind id sid =
    answer_key-ne sub kind id ("tal:sess:" ++ sid) _ (append_assoc "por" "tal:sess:" sid)

answer_key-ne-flow_key : (sub kind id state : String) → answer_key sub kind id ≢ flow_key state
unfolding flow_key
answer_key-ne-flow_key sub kind id state =
    answer_key-ne sub kind id ("tal:flow:" ++ state) _ (append_assoc "por" "tal:flow:" state)

module _ {R : Type 0} (client : Redis R) (laws : IsRedis client) (flow_codec : Codec Flow)
    (session_codec : Codec Session) (session_ttl flow_ttl answer_ttl : ℕ)
    (flow_trip : IsRoundTrip flow_codec) (session_trip : IsRoundTrip session_codec)
    (sub kind id : String) where
  -- Storing an answer changes no session and no parked sign-in, and storing one of these changes no cached
  -- answer: for a client whose commands do what Redis documents and codecs that read back what they wrote.
  pub answers_apart :
      (t u : ℕ) (v sid state : String) (sess : Session) (f : Flow) (r : R)
      → (get_session client flow_codec session_codec session_ttl flow_ttl u sid
            (Shared.set client answer_ttl t (answer_key sub kind id) v r)
          ≡ get_session client flow_codec session_codec session_ttl flow_ttl u sid r)
        × ((take_flow client flow_codec session_codec session_ttl flow_ttl u state
              (Shared.set client answer_ttl t (answer_key sub kind id) v r)).0
            ≡ (take_flow client flow_codec session_codec session_ttl flow_ttl u state r).0)
        × ((Shared.get client answer_ttl u
              (answer_key sub kind id)
              (put_session client flow_codec session_codec session_ttl flow_ttl t sid sess r).1).0
            ≡ (Shared.get client answer_ttl u (answer_key sub kind id) r).0)
        × ((Shared.get client answer_ttl u
              (answer_key sub kind id)
              (put_flow client flow_codec session_codec session_ttl flow_ttl t state f r).1).0
            ≡ (Shared.get client answer_ttl u (answer_key sub kind id) r).0)
  unfolding get_session take_flow put_session put_flow Shared.get Shared.set
  answers_apart t u v sid state sess f r = (
    ap (decoded session_codec)
        (laws.get-set_ne t u answer_ttl _ _ v r (answer_key-ne-sess_key sub kind id sid)),
    taken_same client laws flow_codec flow_trip u (flow_key state) r _
        (laws.get-set_ne t u answer_ttl _ _ v r (answer_key-ne-flow_key sub kind id state)),
    ap or_none (
        get-set_encoded_ne client laws session_codec session_trip t u session_ttl _ _ _ r
          (λ e. answer_key-ne-sess_key sub kind id sid (sym e))),
    ap or_none (
        get-set_encoded_ne client laws flow_codec flow_trip t u flow_ttl _ _ _ r
          (λ e. answer_key-ne-flow_key sub kind id state (sym e))),
  )
