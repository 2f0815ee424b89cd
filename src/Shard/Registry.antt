-- ===== src/Shard/Registry.antt =====
-- pkg/shard/manager.go, `GetOrCreate` of any number of callers, an access to shared memory at a time:
-- the engines are in a `sync.Map`, whose operations are atomic. An engine is named by its place among
-- all that `engine.New` has made; what it does once it is started is modelled elsewhere.
pub mod Calls
pub mod Starts
pub mod Once
use oktrading.Prelude.{
  ℕ, ◌≡◌, Option, none, some, List, [], ◌∷◌, ◌++◌, String, length, same_text, if◌then◌else◌,
}
use oktrading.Int64.{add64}

-- `made` are the symbols of the engines in the order of their making, `started` the engines whose
-- goroutine was launched, and `answers` what the callers were given so far.
pub record Registry : Type 0 where
  pub engines : String → Option ℕ
  pub count : ℕ
  pub made : List String
  pub started : List ℕ
  pub answers : List (String × ℕ)

-- Where a caller stands, with its symbol and its engine.
pub data Caller : Type 0 where
  idle : Caller
  loading : String → Caller
  creating : String → Caller
  storing : String → ℕ → Caller
  starting : String → ℕ → Caller
  counting : String → ℕ → Caller
  returning : String → ℕ → Caller

-- `LoadOrStore` of a symbol that is not there.
unfoldable pub register : String → ℕ → Registry → Registry
register symbol n r = record r {
  engines = λ other. if same_text symbol other then some n else r.engines other;
}

unfoldable pub launch : ℕ → Registry → Registry
launch n r = record r { started = n ∷ r.started }

pub data Call (r : Registry) : Caller → Registry → Caller → Type 0 where
  call : {symbol : String} → Call r idle r (loading symbol)
  hit :
      {symbol : String} {n : ℕ}
      → r.engines symbol ≡ some n
      → Call r (loading symbol) r (returning symbol n)
  miss : {symbol : String} → r.engines symbol ≡ none → Call r (loading symbol) r (creating symbol)
  create :
      {symbol : String}
      → Call r
          (creating symbol)
          (record r { made = r.made ++ (symbol ∷ []) })
          (storing symbol (length r.made))
  store :
      {symbol : String} {n : ℕ}
      → r.engines symbol ≡ none
      → Call r (storing symbol n) (register symbol n r) (starting symbol n)
  lose :
      {symbol : String} {n winner : ℕ}
      → r.engines symbol ≡ some winner
      → Call r (storing symbol n) r (returning symbol winner)
  start : {symbol : String} {n : ℕ} → Call r (starting symbol n) (launch n r) (counting symbol n)
  add :
      {symbol : String} {n : ℕ}
      → Call r (counting symbol n) (record r { count = add64 r.count 1 }) (returning symbol n)
  return :
      {symbol : String} {n : ℕ}
      → Call r (returning symbol n) (record r { answers = (symbol, n) ∷ r.answers }) idle

-- A manager and its callers.
pub record System : Type 0 where
  pub registry : Registry
  pub callers : List Caller

abbrev pub new_registry : Registry
new_registry = record { engines = λ symbol. none; count = 0; made = []; started = []; answers = [] }

-- What any order of the accesses reaches: a caller comes, or one of the callers goes on.
pub data Reached : System → Type 0 where
  new : Reached (record { registry = new_registry; callers = [] })
  come : {s : System} → Reached s → Reached (record s { callers = idle ∷ s.callers })
  go :
      (us vs : List Caller) {r r' : Registry} {p p' : Caller}
      → Reached (record { registry = r; callers = us ++ (p ∷ vs) })
      → Call r p r' p'
      → Reached (record { registry = r'; callers = us ++ (p' ∷ vs) })
