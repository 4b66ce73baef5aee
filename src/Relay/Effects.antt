-- ===== src/Relay/Effects.antt =====
-- Every method of the service is built from a few effects. What each of these keeps, every method
-- keeps, whether it returns or throws.
use noudle_agents.App.{
  config, gets, throw, or_throw, throw_if, Failure, asks, lift, Env, Result, World, App, now,
  random_uuid, abort, for_each, pure, ◌>>=◌, ◌>>◌,
}
use noudle_agents.Base.{ℕ, if◌then◌else◌, Bool, String, Option, none, some, List, [], ◌∷◌}
pub mod Agents
pub mod Tasks
pub mod Messages
pub mod Schedules
pub mod LogSteps
pub mod Commits
use noudle_agents.Repository.Jobs.{complete_job, fail_job, claim}
use noudle_agents.Repository.ScheduleClaims.{claim_due_schedule, release_schedule_claim}
use noudle_agents.Protocol.{
  Workspace, CreateAgentInput, NewEvent, EventType, Value, Creator, ActorType,
}
use noudle_agents.Repository.State.{EntityKind, EntityMap}
use noudle_agents.Repository.Entities
use noudle_agents.Repository.Commit.{MessageRunCommit, MessageRunCommitResult, commit_message_run}
use noudle_agents.App.Steps.{
  Steps, IsPreorder, Steps-pure, Steps-throw, Steps-gets, Steps-asks, Steps-config, Steps-lift,
  Steps-or_throw, Steps-throw_if, Steps-bind, Steps-if,
}
use noudle_agents.Relay.Events.{new_id, new_event, owner_event, emit, announce, publish_all}
use noudle_agents.Relay.Lookup.{require, list_all}
use noudle_agents.Relay.Agents.{create_agent, update_agent, leave_conversation, delete_agent}

-- `R` is kept by reading, by chance and the clock, and by emitting events.
pub record IsReader {ℓ} (R : World → World → Type ℓ) : Type (ℓ ⊔ 1) where
  pub order : IsPreorder R
  pub draw : Steps R random_uuid
  pub tick : Steps R now
  pub emits : (n : NewEvent) → Steps R (emit n)

-- `R` is kept by the writes too.
pub record IsKept {ℓ} (R : World → World → Type ℓ) : Type (ℓ ⊔ 1) where
  pub reader : IsReader R
  pub open reader use *
  pub call_abort : (id : String) → Steps R (abort id)
  pub write : (k : EntityKind) (v : EntityMap k) → Steps R (Entities.put k v)
  pub erase : (k : EntityKind) (id : String) → Steps R (Entities.delete k id)
  pub save_workspace : (v : Workspace) → Steps R (Entities.put_workspace v)
  pub commits :
      {A : Type 0} (input : MessageRunCommit) (next : MessageRunCommitResult → App A)
      → ((r : MessageRunCommitResult) → Steps R (next r))
      → Steps R (commit_message_run input >>= λ r. publish_all r.events >> next r)

instance pub IsKept-IsReader {ℓ} : {R : World → World → Type ℓ} ⦃s : IsKept R⦄ → IsReader R
IsKept-IsReader ⦃s⦄ = s.reader

module _ {ℓ} {R : World → World → Type ℓ} ⦃s : IsReader R⦄ where
  infixr 5 ◌⨾◌
  -- One effect, and then the rest.
  pub ◌⨾◌ {κ μ} :
      {A : Type κ} {B : Type μ} {m : App A} {f : A → App B}
      → Steps R m
      → ((a : A) → Steps R (f a))
      → Steps R (m >>= f)
  ◌⨾◌ km kf = Steps-bind s.order _ _ km kf

  pub done {κ} : {A : Type κ} (a : A) → Steps R (pure a)
  done = Steps-pure s.order

  pub check {κ} : {A : Type κ} (x : Failure) (o : Option A) → Steps R (or_throw x o)
  check = Steps-or_throw s.order

  pub guard : (b : Bool) (x : Failure) → Steps R (throw_if b x)
  guard = Steps-throw_if s.order

  pub Steps-new_id : (p : String) → Steps R (new_id p)
  unfolding new_id
  Steps-new_id p = search (s.order, s.draw, Steps-pure, Steps-bind)

  pub Steps-new_event :
      (a i : String) (t : EventType) (p : List (String × Value)) (at : ActorType)
      (ai : Option String)
      → Steps R (new_event a i t p at ai)
  unfolding new_event
  Steps-new_event a i t p at ai = search (s.order, Steps-config, Steps-pure, Steps-bind)

  pub Steps-owner_event :
      (a i : String) (t : EventType) (p : List (String × Value)) → Steps R (owner_event a i t p)
  unfolding owner_event
  Steps-owner_event a i t p = search (s.order, Steps-config, Steps-new_event, Steps-bind)

  pub Steps-announce :
      (a i : String) (t : EventType) (p : List (String × Value)) (at : Creator) (ai : String)
      → Steps R (announce a i t p at ai)
  unfolding announce
  Steps-announce a i t p at ai = search (s.order, s.emits, Steps-pure, Steps-new_event, Steps-bind)

  pub Steps-upper : Steps R (asks (λ e. e.upper_case))
  Steps-upper = Steps-asks s.order (λ e. e.upper_case)

  pub Steps-lower : Steps R (asks (λ e. e.lower_case))
  Steps-lower = Steps-asks s.order (λ e. e.lower_case)

  pub Steps-require : (k : EntityKind) (id : String) → Steps R (require k id)
  unfolding require Entities.get
  Steps-require k id = search (s.order, Steps-gets, Steps-or_throw, Steps-bind)

  pub Steps-list_all : (k : EntityKind) → Steps R (list_all k)
  unfolding list_all Entities.list
  Steps-list_all k = search (s.order, Steps-config, Steps-gets, Steps-bind)

  pub Steps-for_each {κ} :
      {A : Type κ} (f : A → App (Unit {0})) (xs : List A)
      → ((a : A) → Steps R (f a))
      → Steps R (for_each f xs)
  unfolding for_each
  Steps-for_each f [] h = search (s.order, Steps-pure)
  Steps-for_each f (x ∷ xs) h = Steps-bind s.order (f x) _ (h x) (λ _. Steps-for_each f xs h)

  pub Steps-env_config : Steps R config
  Steps-env_config = Steps-config s.order

  pub Steps-ask {κ} : {A : Type κ} (f : Env → A) → Steps R (asks f)
  Steps-ask f = Steps-asks s.order f

  pub Steps-computed {κ} : {A : Type κ} (r : Result A) → Steps R (lift r)
  Steps-computed r = Steps-lift s.order r

  pub Steps-reads {κ} : {A : Type κ} (f : World → A) → Steps R (gets f)
  Steps-reads f = Steps-gets s.order f

  pub Steps-choice {κ} :
      {A : Type κ} (b : Bool) (m n : App A) → Steps R m → Steps R n → Steps R (if b then m else n)
  Steps-choice = Steps-if s.order

  pub Steps-refuse {κ} : {A : Type κ} (x : Failure) → Steps R (throw {A = A} x)
  Steps-refuse = Steps-throw s.order
