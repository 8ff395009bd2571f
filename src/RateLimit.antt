-- ===== src/RateLimit.antt =====
-- The rate limiter of app/core/middleware.py. A clock reading of `time.monotonic()` is a number of
-- microseconds, and so are a rule's window and a wait; the client's address is an argument, since
-- it is read off the headers by the framework's text functions.
pub mod Window
pub mod Retry
use Prim.Native.String.{◌++◌ as str_append}
use text.Mathlib.Text.{◌==◌ as str_eq, starts_with}
use rolling_api.Prelude.{
  ℕ, ◌+◌, ◌-◌, ◌*◌, ◌/◌, String, Bool, true, false, Option, none, some, List, [], ◌∷◌, ◌++◌, ltb,
  leb, if◌then◌else◌, length,
}

-- `rules`: a path's prefix, the number of requests and the window
pub record Rule : Type 0 where
  pub prefix : String
  pub max_requests : ℕ
  pub window : ℕ

-- `_match_rule`
unfoldable pub match_rule : List Rule → String → Option Rule
match_rule [] path = none
match_rule (r ∷ rules) path = if starts_with path r.prefix then some r else match_rule rules path

-- `_client_key`
abbrev pub client_key : String → String → String
client_key ip prefix = str_append ip (str_append ":" prefix)

-- `while bucket and bucket[0] < cutoff: bucket.popleft()`
unfoldable pub prune : ℕ → ℕ → List ℕ → List ℕ
prune window now [] = []
prune window now (t ∷ bucket) =
    let rest = prune window now bucket in if ltb (t + window) now then rest else t ∷ bucket

pub data Outcome : Type 0 where
  passed : Outcome
  limited : ℕ → Outcome
  index_error : Outcome

-- `max(0.0, window - (now - bucket[0]))`
abbrev pub refusal : ℕ → ℕ → List ℕ → Outcome
refusal window now [] = Outcome.index_error
refusal window now (t ∷ bucket) = Outcome.limited (window - (now - t))

-- the rest of `dispatch`, on the bucket of the client
unfoldable pub admit : ℕ → ℕ → ℕ → List ℕ → Outcome × List ℕ
admit max_req window now bucket =
    let pruned = prune window now bucket in
    if leb max_req (length pruned)
    then (refusal window now pruned, pruned)
    else (Outcome.passed, pruned ++ now ∷ [])

-- the header Retry-After, in seconds
abbrev pub retry_after : ℕ → ℕ
retry_after wait = wait / 1_000_000 + 1

-- `defaultdict(deque)`
abbrev pub Buckets : Type 0
Buckets = String → List ℕ

abbrev pub set_bucket : String → List ℕ → Buckets → Buckets
set_bucket key bucket buckets other = if str_eq key other then bucket else buckets other

unfoldable pub dispatch : List Rule → Buckets → String → String → ℕ → Outcome × Buckets
dispatch rules buckets path ip now = elim (match_rule rules path) [
  | none ↦ (Outcome.passed, buckets)
  | some rule ↦
      let key = client_key ip path in
      let answer = admit rule.max_requests rule.window now (buckets key) in
      (answer.0, set_bucket key answer.1 buckets)
]
