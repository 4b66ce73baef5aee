-- ===== src/App.antt =====
-- How the service runs: an asynchronous method is an action on the `World`, which returns a value
-- or throws, and keeps what it wrote before it threw. Each action runs without interruption.
-- The clock, `randomUUID`, the configuration and the installed interrupt handler are an `Env`.
pub mod Holds
pub mod Steps
use noudle_agents.Base.{
  [], ◌∷◌, ℕ, suc, ◌+◌, ◌++◌, String, Bool, true, false, List, Option, none, some, if◌then◌else◌,
}
use mathlib.Core.Path.{◌≡◌, refl}
use noudle_agents.Protocol.{RelayEvent}
use noudle_agents.Repository.State.{Repository}

-- services/api/src/domain/errors.ts. `domain` is a `DomainError` by its status and code (its prose
-- is left out), `invalid` a ZodError, `thrown` any other Error. `diverged` is no failure of the code:
-- a loop of the model ran out of fuel.
pub data Failure : Type 0 where
  domain : (status_code : ℕ) (code : String) → Failure
  invalid : Failure
  thrown : (message : String) → Failure
  diverged : Failure

pub data Result {ℓ} (A : Type ℓ) : Type ℓ where
  ok : A → Result A
  err : Failure → Result A

abbrev pub not_found : Failure
not_found = domain 404 "not_found"

abbrev pub conflict : String → Failure
conflict code = domain 409 code

-- The fields of `RelayConfig` that the modelled code reads.
pub record RelayConfig : Type 0 where
  pub workspace_id : String
  pub owner_id : String
  pub max_delegation_depth : ℕ

-- What `Intl.DateTimeFormat` says of an instant in a time zone: the numbers of its parts, the weekday
-- counted from Sunday.
pub record LocalTime : Type 0 where
  pub minute : ℕ
  pub hour : ℕ
  pub day : ℕ
  pub month : ℕ
  pub weekday : ℕ

-- `uuid n` is what the n-th call of `randomUUID` returns, `clock n` the n-th reading of the clock in
-- milliseconds. `lower_case` and `upper_case` are the case mappings of the JavaScript engine, and
-- `integer_of s` is `Number(s)` where that is an integer from 0 on. `zone` is the time zone database,
-- which knows no zone by a wrong name, and `iso` is `toISOString`.
pub record Env : Type 0 where
  pub config : RelayConfig
  pub lower_case : String → String
  pub upper_case : String → String
  pub integer_of : String → Option ℕ
  pub zone : String → Option (ℕ → LocalTime)
  pub iso : ℕ → String
  pub uuid : ℕ → String
  pub clock : ℕ → ℕ

-- The repository, the events given to the `EventHub` so far, the calls made of the interrupt
-- handler, and how often chance and the clock were asked.
pub record World : Type 0 where
  pub repo : Repository
  pub published : List RelayEvent
  pub aborted : List String
  pub draws : ℕ
  pub ticks : ℕ

abbrev pub App {ℓ} : Type ℓ → Type ℓ
App A = Env → World → Result A × World

module _ {ℓ} {A : Type ℓ} where
  abbrev pub pure : A → App A
  pure a e w = (ok a, w)

  abbrev pub throw : Failure → App A
  throw x e w = (err x, w)

  abbrev pub gets : (World → A) → App A
  gets f e w = (ok (f w), w)

  -- A result that is computed without touching the world.
  abbrev pub lift : Result A → App A
  lift r e w = (r, w)

  -- `o ?? throw x`.
  abbrev pub or_throw : Failure → Option A → App A
  or_throw x none = throw x
  or_throw x (some a) = pure a

  -- `XSchema.parse`.
  abbrev pub parsed : Option A → App A
  parsed o = or_throw invalid o

abbrev pub config : App RelayConfig
config e w = (ok e.config, w)

abbrev pub asks {ℓ} : {A : Type ℓ} → (Env → A) → App A
asks f e w = (ok (f e), w)

abbrev pub modify : (Repository → Repository) → App (Unit {0})
modify f e w = (ok tt, record w { repo = f w.repo })

-- `new Date()`.
unfoldable pub now : App ℕ
now e w = (ok (e.clock w.ticks), record w { ticks = suc w.ticks })

-- `randomUUID()`.
unfoldable pub random_uuid : App String
random_uuid e w = (ok (e.uuid w.draws), record w { draws = suc w.draws })

-- `if (test) throw x`.
abbrev pub throw_if : Bool → Failure → App (Unit {0})
throw_if true x = throw x
throw_if false x = pure tt

module _ {ℓ κ} {A : Type ℓ} {B : Type κ} where
  abbrev pub continue : Result A → (A → App B) → Env → World → Result B × World
  continue (ok a) f e w = f a e w
  continue (err x) f e w = (err x, w)

  infixl 5 ◌>>=◌
  unfoldable pub ◌>>=◌ : App A → (A → App B) → App B
  ◌>>=◌ m f e w = let (r, w') = m e w in continue r f e w'

infixl 5 ◌>>◌
abbrev pub ◌>>◌ {ℓ κ} : {A : Type ℓ} {B : Type κ} → App A → App B → App B
m >> n = m >>= λ _. n

-- `for (const x of xs) f(x)`.
unfoldable pub for_each {ℓ} : {A : Type ℓ} → (A → App (Unit {0})) → List A → App (Unit {0})
for_each f [] = pure tt
for_each f (x ∷ xs) = f x >> for_each f xs

-- `EventHub.publish`: the event is handed to the listeners.
unfoldable pub publish : RelayEvent → App (Unit {0})
publish event e w = (ok tt, record w { published = w.published ++ event ∷ [] })

-- `this.interruptHandler?.(id)`, the call that is recorded.
unfoldable pub abort : String → App (Unit {0})
abort id e w = (ok tt, record w { aborted = w.aborted ++ id ∷ [] })
