-- ===== src/Credit.antt =====
-- app/services/credit_service.py. A call takes the clock readings and the identifiers (`uuid4`) that
-- it draws as arguments, in the order in which it draws them.
pub mod Discount
pub mod Issue
pub mod Expiry
use mathlib.Core.List.{reverse}
use rolling_api.Prelude.{
  ℕ, suc, ◌+◌, ◌*◌, ◌/◌, min, String, Bool, true, false, ◌&&◌, not, Option, none, some, List, [],
  ◌∷◌, ◌++◌, map, ltb, leb, ◌==◌, if◌then◌else◌, opt_eq, length, find, select, count,
}
use rolling_api.Model.{Db, Credit, CreditKind, CreditStatus, CreditSource}

abbrev pub default_expiry_days : ℕ
default_expiry_days = 90

abbrev pub viable_host_percent : ℕ
viable_host_percent = 30

abbrev pub viable_host_max_krw : ℕ
viable_host_max_krw = 10_000

abbrev pub referral_host_amount_krw : ℕ
referral_host_amount_krw = 3_000

abbrev pub referral_friend_amount_krw : ℕ
referral_friend_amount_krw = 3_000

abbrev pub max_referral_bonuses_per_host : ℕ
max_referral_bonuses_per_host = 5

-- `timedelta(days=n)` in microseconds
abbrev pub days : ℕ → ℕ
days n = n * 86_400_000_000

abbrev pub expiry_at : ℕ → ℕ
expiry_at now = now + days default_expiry_days

abbrev pub is_viable_bonus : CreditSource → Bool
is_viable_bonus CreditSource.viable_host_bonus = true
is_viable_bonus _ = false

abbrev pub is_referral_host : CreditSource → Bool
is_referral_host CreditSource.referral_host = true
is_referral_host _ = false

abbrev pub is_active : CreditStatus → Bool
is_active CreditStatus.active = true
is_active _ = false

abbrev pub is_fixed : CreditKind → Bool
is_fixed CreditKind.fixed_amount = true
is_fixed _ = false

-- issuing

-- the `where` of `issue_viable_host_bonus`
abbrev pub viable_bonus_of : ℕ → ℕ → Credit → Bool
viable_bonus_of host room c =
    c.user_id == host && is_viable_bonus c.source && opt_eq c.source_room_id room

abbrev pub viable_host_credit : ℕ → ℕ → ℕ → ℕ → Credit
viable_host_credit host room id now = record {
  id = id;
  user_id = host;
  kind = CreditKind.percent;
  amount_krw = none;
  percent_off = some viable_host_percent;
  max_discount_krw = some viable_host_max_krw;
  status = CreditStatus.active;
  source = CreditSource.viable_host_bonus;
  source_room_id = some room;
  source_user_id = none;
  expires_at = expiry_at now;
  used_at = none;
  used_on_application_id = none;
  description = some "방 성립 보상 — 30% 할인 (최대 10,000원)";
}

-- the existing credit, or a new one with the given identifier
unfoldable pub issue_viable_host_bonus : Db → ℕ → ℕ → ℕ → ℕ → Credit × Db
issue_viable_host_bonus db host room id now = elim (find (viable_bonus_of host room) db.credits) [
  | some existing ↦ (existing, db)
  | none ↦
      let credit = viable_host_credit host room id now in
      (credit, record db { credits = db.credits ++ credit ∷ [] })
]

abbrev pub referral_of : ℕ → ℕ → Credit → Bool
referral_of referrer friend c =
    c.user_id == referrer && is_referral_host c.source && opt_eq c.source_user_id friend

abbrev pub referral_bonus_of : ℕ → Credit → Bool
referral_bonus_of referrer c = c.user_id == referrer && is_referral_host c.source

abbrev pub referral_credit : ℕ → ℕ → ℕ → ℕ → CreditSource → String → ℕ → Credit
referral_credit id owner other amount source text now = record {
  id = id;
  user_id = owner;
  kind = CreditKind.fixed_amount;
  amount_krw = some amount;
  percent_off = none;
  max_discount_krw = none;
  status = CreditStatus.active;
  source = source;
  source_room_id = none;
  source_user_id = some other;
  expires_at = expiry_at now;
  used_at = none;
  used_on_application_id = none;
  description = some text;
}

-- what one call of `issue_referral_pair` draws: an identifier and a clock reading for each side
pub record PairDraw : Type 0 where
  pub referrer_credit_id : ℕ
  pub friend_credit_id : ℕ
  pub referrer_now : ℕ
  pub friend_now : ℕ

abbrev pub referrer_side : ℕ → ℕ → PairDraw → Credit
referrer_side referrer friend d =
    referral_credit d.referrer_credit_id referrer friend referral_host_amount_krw
      CreditSource.referral_host "친구 추천 보상 — 3,000원 크레딧" d.referrer_now

abbrev pub friend_side : ℕ → ℕ → PairDraw → Credit
friend_side referrer friend d =
    referral_credit d.friend_credit_id friend referrer referral_friend_amount_krw
      CreditSource.referral_friend "가입 환영 — 첫 방 3,000원 할인" d.friend_now

unfoldable pub issue_referral_pair : Db → ℕ → ℕ → PairDraw → (Option Credit × Option Credit) × Db
issue_referral_pair db referrer friend d = elim (find (referral_of referrer friend) db.credits) [
  | some existing ↦ ((some existing, none), db)
  | none ↦
      if leb max_referral_bonuses_per_host (count (referral_bonus_of referrer) db.credits)
      then ((none, none), db)
      else let host = referrer_side referrer friend d in
        let guest = friend_side referrer friend d in
        ((some host, some guest), record db { credits = db.credits ++ host ∷ guest ∷ [] })
]

-- reading

-- the `for` loop's test and write
abbrev pub is_lapsed : ℕ → ℕ → Credit → Bool
is_lapsed user now c = c.user_id == user && (is_active c.status && leb c.expires_at now)

abbrev pub lapse : ℕ → ℕ → Credit → Credit
lapse user now c = record c {
  status = if is_lapsed user now c then CreditStatus.expired else c.status;
}

-- The newest first: the table lists its rows in the order of `created_at`.
unfoldable pub list_my_credits : Db → ℕ → ℕ → List Credit × Db
list_my_credits db user now =
    let credits = map (lapse user now) db.credits in
    (reverse (select (λ c. c.user_id == user) credits), record db { credits = credits })

abbrev pub is_usable : ℕ → ℕ → Credit → Bool
is_usable user now c = c.user_id == user && (is_active c.status && ltb now c.expires_at)

unfoldable pub active_credits : Db → ℕ → ℕ → List Credit
active_credits db user now = select (is_usable user now) db.credits

-- `min(raw, cap)` if there is a cap
abbrev pub capped : Option ℕ → ℕ → ℕ
capped none raw = raw
capped (some cap) raw = min raw cap

-- `credit.percent_off` as a test: neither NULL nor 0
abbrev pub percent_discount : Option ℕ → Option ℕ → ℕ → ℕ
percent_discount none cap price = 0
percent_discount (some percent) cap price =
    if percent == 0 then 0 else min (capped cap (price * percent / 100)) price

abbrev pub amount_or_zero : Option ℕ → ℕ
amount_or_zero none = 0
amount_or_zero (some n) = n

-- `int(price_amount * percent_off / 100)` divides floats: with both factors columns of at most 31
-- bits and the percentage at most 100 the quotient is rounded down exactly.
unfoldable pub estimate_discount : Credit → ℕ → ℕ
estimate_discount credit price =
    if is_fixed credit.kind
    then min (amount_or_zero credit.amount_krw) price
    else percent_discount credit.percent_off credit.max_discount_krw price

-- one round of the loop of `best_discount`
abbrev pub better : ℕ → Credit → Option Credit × ℕ → Option Credit × ℕ
better price c best =
    let d = estimate_discount c price in if ltb best.1 d then (some c, d) else best

unfoldable pub best_from : List Credit → ℕ → Option Credit × ℕ → Option Credit × ℕ
best_from [] price best = best
best_from (c ∷ credits) price best = best_from credits price (better price c best)

unfoldable pub best_discount : List Credit → ℕ → Option Credit × ℕ
unfolding best_from
best_discount credits price = best_from credits price (none, 0)

pub record CreditSummary : Type 0 where
  pub active_count : ℕ
  pub best_discount_krw : ℕ
  pub best_credit_id : Option ℕ
  pub best_credit_description : Option String

abbrev pub credit_id : Option Credit → Option ℕ
credit_id none = none
credit_id (some c) = some c.id

abbrev pub credit_description : Option Credit → Option String
credit_description none = none
credit_description (some c) = c.description

unfoldable pub credit_summary : Db → ℕ → ℕ → ℕ → CreditSummary
credit_summary db user price now =
    let actives = active_credits db user now in
    let best = best_discount actives price in
    record {
      active_count = length actives;
      best_discount_krw = best.1;
      best_credit_id = credit_id best.0;
      best_credit_description = credit_description best.0;
    }
