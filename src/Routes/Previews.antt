-- ===== src/Routes/Previews.antt =====
-- routes/preview.go: the review-only preview of the user's documents.
use signbyte_bff.Base.{String, [], ◌∷◌}
use signbyte_bff.Session.{Session}
use signbyte_bff.Server.{Env, Request, Response}
use signbyte_bff.Server.Monad.{M, Reply, raw, reply, ◌>>=◌, ◌>>◌}
use signbyte_bff.Clients.Preview as Preview
use signbyte_bff.Audit.{document_read}
use signbyte_bff.Routes.Relay.{or_relay, ready, decoded_body}
use signbyte_bff.Routes.Token.{on_behalf}
use signbyte_bff.Routes.Documents.{handed_on}

-- `relayJSON`
unfoldable pub relay_json : Response → Reply
relay_json resp = raw resp.status_code resp.body (("Content-Type", "application/json") ∷ [])

-- A page image with its type, never stored.
unfoldable pub relay_page : Response → Reply
relay_page resp =
    raw 200 resp.body (handed_on resp "Content-Type" (("Cache-Control", "no-store") ∷ []))

module _ {Db Key Any : Type 0} (env : Env Db Key Any) where
  -- `previewReady`
  unfoldable pub preview_ready : M Db (Unit {0})
  preview_ready = ready "err:preview:notConfigured" env.has_preview

  unfoldable pub preview_manifest : Request → String → Session → M Db (Unit {0})
  preview_manifest req sid sess = do
    preview_ready
    who ← on_behalf env sid sess
    answer ← Preview.manifest env who.obo (req.param "id")
    resp ← or_relay answer
    document_read env who.obo.sub (req.param "id")
    reply (relay_json resp)

  unfoldable pub preview_page : Request → String → Session → M Db (Unit {0})
  preview_page req sid sess = do
    preview_ready
    who ← on_behalf env sid sess
    n ← decoded_body (req.param_int "n")
    answer ← Preview.page env who.obo (req.param "id") n
    resp ← or_relay answer
    reply (relay_page resp)

  unfoldable pub preview_text : Request → String → Session → M Db (Unit {0})
  preview_text req sid sess = do
    preview_ready
    who ← on_behalf env sid sess
    answer ← Preview.text env who.obo (req.param "id")
    resp ← or_relay answer
    reply (relay_json resp)

  unfoldable pub preview_inner_manifest : Request → String → Session → M Db (Unit {0})
  preview_inner_manifest req sid sess = do
    preview_ready
    who ← on_behalf env sid sess
    answer ← Preview.inner_manifest env who.obo (req.param "id") (req.param "name")
    resp ← or_relay answer
    document_read env who.obo.sub (req.param "id")
    reply (relay_json resp)

  unfoldable pub preview_inner_page : Request → String → Session → M Db (Unit {0})
  preview_inner_page req sid sess = do
    preview_ready
    who ← on_behalf env sid sess
    n ← decoded_body (req.param_int "n")
    answer ← Preview.inner_page env who.obo (req.param "id") (req.param "name") n
    resp ← or_relay answer
    reply (relay_page resp)

  unfoldable pub preview_inner_text : Request → String → Session → M Db (Unit {0})
  preview_inner_text req sid sess = do
    preview_ready
    who ← on_behalf env sid sess
    answer ← Preview.inner_text env who.obo (req.param "id") (req.param "name")
    resp ← or_relay answer
    reply (relay_json resp)
