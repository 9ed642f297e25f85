-- ===== src/Routes/Public/Blocked.antt =====
-- What the edge records of the anonymous requests that it turns away.
use signbyte_bff.Base.{suc, true, false, ◌∷◌, some, ◌≡◌, refl}
use signbyte_bff.Server.{edge_blocked}
use signbyte_bff.Server.Monad.{problem, replied, St, ret, reply, ◌>>=◌, emit, sample, on_store}
use signbyte_bff.Server.Public.{PublicRequest, PublicEnv}
use signbyte_bff.Routes.Relay.{require}
use signbyte_bff.Routes.Verify.{InflightGate, acquire}
use signbyte_bff.Routes.Verify.Handler.{verify_client_ip, verify_document}
use signbyte_bff.Routes.Public.{
  limiter_key, status_of, is_too_many, edge_block, edge_block_events, after_response, rate_limit,
  verify_route,
}

module _ (env : PublicEnv) (req : PublicRequest) (s : St InflightGate)
    (events : env.has_edge_events ≡ true) where
  -- The state with the edge's event, and nothing else.
  abbrev pub blocked : St InflightGate
  blocked = record s {
    step = suc (suc s.step);
    trace = edge_blocked (verify_client_ip env req) ∷ s.trace;
  }

  limited :
      env.allows s.step (limiter_key env req) ≡ false
      → status_of env.limit_reply ≡ some 429
      → verify_route env req s ≡ (replied env.limit_reply, blocked)
  unfolding verify_route edge_block_events after_response rate_limit edge_block is_too_many ◌>>=◌
      sample emit reply ret
  limited refused status = simp (refused, status, events) refl

  busy :
      env.allows s.step (limiter_key env req) ≡ true
      → env.has_verify ≡ true
      → acquire (verify_client_ip env req) s.db ≡ (false, s.db)
      → verify_route env req s
        ≡ (replied (problem "err:verify:tooManyRequests" (some 429)), blocked)
  unfolding verify_route edge_block_events after_response rate_limit edge_block is_too_many
      status_of verify_document require on_store ◌>>=◌ sample emit reply ret
  busy allowed has full = simp (allowed, has, full, events) refl

  -- Where events are recorded and the limiter answers 429, a request that the rate limiter refuses reaches
  -- nothing: its one effect is the edge's event. Where events are recorded and the verifier is configured, the
  -- same event is all that is left of a request that the limiter let pass and the gate turned away.
  pub verify_route-blocked :
      (status_of env.limit_reply ≡ some 429
        → env.allows s.step (limiter_key env req) ≡ false
        → verify_route env req s ≡ (replied env.limit_reply, blocked))
      × (env.allows s.step (limiter_key env req) ≡ true
          → env.has_verify ≡ true
          → acquire (verify_client_ip env req) s.db ≡ (false, s.db)
          → verify_route env req s
            ≡ (replied (problem "err:verify:tooManyRequests" (some 429)), blocked))
  verify_route-blocked = (λ status refused. limited refused status, busy)
