-- ===== src/Db.antt =====
-- The database as the queries of sql/queries see it (pkg/zgen/querier is generated from
-- them), and the transactions of pkg/zcore/model/model.go. Any statement may fail: the world holds a
-- script that says which ones do. A transaction runs alone, and a commit that fails is rolled back.
pub mod Tasks
pub mod Effects
pub mod Claims
pub mod Inserts
pub mod Keys
pub mod Workers
pub mod Trees
use anclax.Prelude.{
  ◌≡◌, refl, ◌⊎◌, inl, inr, ℕ, Bool, true, false, String, List, [], ◌∷◌, Option, none, some,
  if◌then◌else◌,
}
use anclax.Prelude.Int.{ℤ}
use anclax.Text.{Bytes}
use anclax.Errors.{Err, Sentinel}
use anclax.Api.{TaskAttributes, TaskSpec, TaskStatus}

-- A row of anclax.tasks. Time stamps count some unit of time, a UUID is a number.
pub record TaskRow : Type 0 where
  pub id : ℤ
  pub attributes : TaskAttributes
  pub spec : TaskSpec
  pub status : TaskStatus
  pub unique_tag : Option String
  pub started_at : Option ℕ
  pub created_at : ℕ
  pub updated_at : ℕ
  pub attempts : ℤ
  pub locked_at : Option ℕ
  pub worker_id : Option ℕ
  pub serial_key : Option String
  pub serial_id : Option ℤ
  pub priority : ℤ
  pub weight : ℤ
  pub parent_task_id : Option ℤ

pub data EventSpec : Type 0 where
  task_completed : ℤ → EventSpec
  task_error : ℤ → Err → EventSpec

pub record EventRow : Type 0 where
  pub id : ℕ
  pub spec : EventSpec
  pub created_at : ℕ

-- A row of anclax.opaque_keys.
pub record KeyRow : Type 0 where
  pub id : ℤ
  pub group : Option Bytes
  pub key : Bytes

-- A row of anclax.workers; `online` is status = 'online'.
pub record WorkerRow : Type 0 where
  pub id : ℕ
  pub labels : List String
  pub online : Bool
  pub last_heartbeat : ℕ
  pub applied_config_version : ℤ

-- The JSON of a runtime configuration is kept as what it encodes.
pub record RuntimeConfigPayload : Type 0 where
  pub max_strict_percentage : Option ℤ
  pub label_weights : List (String × ℤ)

-- A row of anclax.worker_runtime_configs.
pub record ConfigRow : Type 0 where
  pub version : ℤ
  pub payload : RuntimeConfigPayload

pub record Db : Type 0 where
  pub tasks : List TaskRow
  pub events : List EventRow
  pub next_task : ℕ
  pub next_event : ℕ
  pub opaque_keys : List KeyRow
  pub next_opaque_key : ℕ
  pub workers : List WorkerRow
  pub configs : List ConfigRow
  pub next_config : ℕ

-- `faults` holds, for each statement, begin and commit to come, the error that it fails with, if any;
-- the statements after it succeed.
pub record World : Type 0 where
  pub db : Db
  pub now : ℕ
  pub faults : List (Option Err)

pub data Reply (A : Type 0) : Type 0 where
  ok : A → Reply A
  fail : Err → Reply A

pub Reply-cases : {A : Type 0} (r : Reply A) → ((a : A) × (r ≡ ok a)) ⊎ ((e : Err) × (r ≡ fail e))
Reply-cases (ok a) = inl (a, refl)
Reply-cases (fail e) = inr (e, refl)

abbrev pub M : Type 0 → Type 0
M A = World → World × Reply A

abbrev pub after : {A B : Type 0} → World × Reply A → (A → M B) → World × Reply B
after (w, ok a) f = f a w
after (w, fail e) f = (w, fail e)

infixl 5 ◌>>=◌ ◌>>◌
abbrev pub ◌>>=◌ : {A B : Type 0} → M A → (A → M B) → M B
(m >>= f) w = after (m w) f

abbrev pub ◌>>◌ : {B : Type 0} → M (Unit {0}) → M B → M B
m >> k = m >>= λ _. k

abbrev pub return : {A : Type 0} → A → M A
return a w = (w, ok a)

abbrev pub throw : {A : Type 0} → Err → M A
throw e w = (w, fail e)

abbrev pub recover : {A : Type 0} → World × Reply A → (Err → M A) → World × Reply A
recover (w, ok a) h = (w, ok a)
recover (w, fail e) h = h e w

-- `if err := m; err != nil { return h(err) }`.
abbrev pub catch : {A : Type 0} → M A → (Err → M A) → M A
catch m h w = recover (m w) h

-- One statement: it may fail, and then changes nothing.
abbrev pub run_statement :
    {A : Type 0} → List (Option Err) → (World → World × Reply A) → World → World × Reply A
run_statement [] act w = act w
run_statement (none ∷ rest) act w = act (record w { faults = rest })
run_statement (some e ∷ rest) act w = (record w { faults = rest }, fail e)

unfoldable pub statement : {A : Type 0} → (World → World × Reply A) → M A
statement act w = run_statement w.faults act w

unfoldable pub commit : {A : Type 0} → Db → World × Reply A → World × Reply A
unfolding statement
commit before (w, fail e) = (record w { db = before }, fail e)
commit before (w, ok a) =
    recover (statement (λ w. (w, ok a)) w) (λ e w. (record w { db = before }, fail e))

-- RunTransactionWithTx: begin, the body, and then a commit or the deferred rollback. Inside of a
-- transaction there is no other one.
unfoldable pub run_transaction : {A : Type 0} → Bool → M A → M A
unfolding commit statement
run_transaction true body w = (w, fail (Err.sentinel Sentinel.already_in_transaction))
run_transaction false body w =
    after (statement (λ w. (w, ok tt)) w) (λ _ w'. commit w'.db (body w'))
