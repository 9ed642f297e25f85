-- ===== src/Server/Monad.antt =====
-- A handler is an action on the store and the trace of effects. It returns a value, has replied, or
-- has panicked.
use signbyte_bff.Base.{ℕ, suc, String, Bool, List, ◌∷◌, Option}
use signbyte_bff.Clients.Types.{
  Created, ListResult, SigningTasksResult, DocRef, EnvelopeView, Slot, Transition, Meta, DocList,
  ChainRow, HistoryList, Job, ArchivedDocument,
}
use signbyte_bff.Server.{Effect, Validation}
use signbyte_bff.Errors.{Error}
use signbyte_bff.Routes.Dashboard.{DashboardResponse}

-- routes/response: what is written as JSON
pub record Me : Type 0 where
  pub sub : String
  pub name : String
  pub loa : String
  pub login_method : String
  pub permitted_flows : List String
  pub can_eseal : Option Bool
  pub seals : List (String × String)

-- routes/envelope.go, `composedSlot` and `composedDetail`
pub record ComposedSlot : Type 0 where
  pub slot : Slot
  pub state : String
  pub container_id : String
  pub you : Bool

pub record ComposedDetail : Type 0 where
  pub envelope : EnvelopeView
  pub slots : List ComposedSlot
  pub documents : List DocRef

pub data Answer : Type 0 where
  login_start_answer : String → String → Answer
  me_answer : Me → Answer
  ok_answer : Answer
  logout_answer : String → Answer
  created_answer : Created → Answer
  envelopes_answer : ListResult → Answer
  tasks_answer : SigningTasksResult → Answer
  detail_answer : ComposedDetail → Answer
  attached_answer : DocRef → Answer
  slot_answer : String → Answer
  transition_answer : Transition → Answer
  job_answer : Job → Answer
  free_answer : Bool → Answer
  archived_answer : ArchivedDocument → Answer
  meta_answer : Meta → Answer
  documents_answer : DocList → Answer
  chain_answer : ChainRow → Answer
  history_answer : HistoryList → Answer
  dashboard_answer : DashboardResponse → Answer
  validation_answer : Validation → Answer
  methods_answer : List String → Answer
  status_answer : String → Answer

-- The response: a problem with its code (and a status, where the code sets one), an error that the
-- framework turns into one, a relayed problem, JSON with its status, bytes, no content, a redirect.
pub data Reply : Type 0 where
  problem : String → Option ℕ → Reply
  refused : Error → Reply
  relayed : Option String → ℕ → Reply
  json : ℕ → Answer → Reply
  raw : ℕ → String → List (String × String) → Reply
  no_body : ℕ → Reply
  redirect : ℕ → String → Reply

pub data Res (A : Type 0) : Type 0 where
  value : A → Res A
  replied : Reply → Res A
  -- a nil pointer was followed
  panicked : Res A

pub record St (Db : Type 0) : Type 0 where
  pub db : Db
  pub step : ℕ
  -- the newest first
  pub trace : List Effect

abbrev pub M : Type 0 → Type 0 → Type 0
M Db A = St Db → Res A × St Db

module _ {Db : Type 0} where
  module _ {A : Type 0} where
    unfoldable pub ret : A → M Db A
    ret a s = (value a, s)

    -- The handler has written its response and returns.
    unfoldable pub reply : Reply → M Db A
    reply r s = (replied r, s)

    -- A nil pointer is followed.
    unfoldable pub panic : M Db A
    panic s = (panicked, s)

  module _ {A B : Type 0} where
    abbrev pub follow : (A → M Db B) → Res A × St Db → Res B × St Db
    follow f (value a, s) = f a s
    follow f (replied r, s) = (replied r, s)
    follow f (panicked, s) = (panicked, s)

    infixl 5 ◌>>=◌ ◌>>◌
    unfoldable pub ◌>>=◌ : M Db A → (A → M Db B) → M Db B
    ◌>>=◌ m f s = follow f (m s)

    abbrev pub ◌>>◌ : M Db A → M Db B → M Db B
    m >> n = m >>= λ _. n

  -- An effect happens, which is a step.
  unfoldable pub emit : Effect → M Db (Unit {0})
  emit e s = (value tt, record s { step = suc s.step; trace = e ∷ s.trace })

  -- What depends on the moment: the clock, the random source.
  unfoldable pub sample : {A : Type 0} → (ℕ → A) → M Db A
  sample f s = (value (f s.step), record s { step = suc s.step })

  -- A write of the session store.
  unfoldable pub on_store : {A : Type 0} → (Db → A × Db) → M Db A
  on_store f s = (value (f s.db).0, record s { db = (f s.db).1 })

  -- `defer`: the change happens when the action has ended, however it ended.
  unfoldable pub deferred : {A : Type 0} → (Db → Db) → M Db A → M Db A
  deferred f m s = ((m s).0, record (m s).1 { db = f (m s).1.db })

  unfoldable pub from_store : {A : Type 0} → (Db → A) → M Db A
  from_store f s = (value (f s.db), s)
