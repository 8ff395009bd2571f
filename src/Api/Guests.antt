-- ===== src/Api/Guests.antt =====
-- The routes of a guest: rooms.py, me.py, profile.py, feedback.py, reports.py, matches.py and event.py
-- of app/api/v1.
use rolling_api.Prelude.{
  ℕ, ◌+◌, String, Bool, true, false, ◌&&◌, Option, none, some, List, [], ◌∷◌, map, ◌==◌,
  if◌then◌else◌, any, select, count, ok,
}
use rolling_api.Model.{
  User, Profile, Room, RoomApplication, CheckIn, AfterDateProposal, Feedback, Report, Credit,
  CreditKind, CreditStatus,
}
use rolling_api.Credit.{list_my_credits}
use rolling_api.Viability.{get_capacity_summary}
use rolling_api.Application.{apply_to_room, cancel_my_application}
use rolling_api.Listing.{
  RoomQuery, RoomListItem, RoomDetail, list_public_rooms, get_public_room, to_list_item, to_detail,
}
use rolling_api.Readings.{list_my_applications, list_my_confirmed_rooms}
use rolling_api.Guest
use rolling_api.Guest.{FeedbackCreate, ReportCreate, get_my_profile, upsert_my_profile}
use rolling_api.Checkin.{get_my_checkin}
use rolling_api.Choice
use rolling_api.Choice.{ChoiceItem}
use rolling_api.Choice.Proposals
use rolling_api.Choice.Proposals.{MatchSummary, list_my_matches}
use rolling_api.Choice.Targets
use rolling_api.Choice.Targets.{ChoiceTarget}
use rolling_api.Rotation.Views.{MyCurrentRoundView, get_my_current_round}
use rolling_api.Api.{Tx, ◌>>=◌, ◌>>◌, return, query, read, call, commit}

-- rooms.py

pub record RoomListResponse : Type 0 where
  pub items : List RoomListItem
  pub total : ℕ
  pub limit : ℕ
  pub offset : ℕ

unfoldable pub list_rooms : (Room → ℕ) → RoomQuery → ℕ → ℕ → Tx RoomListResponse
list_rooms rank q limit offset = read λ db.
    let (rooms, total) = list_public_rooms rank db q limit offset in
    record { items = map (to_list_item db) rooms; total = total; limit = limit; offset = offset }

unfoldable pub get_room : ℕ → Tx RoomDetail
get_room room_id = do
  room ← query (λ db. get_public_room db room_id)
  capacity ← read (λ db. get_capacity_summary db room_id room)
  read (λ db. to_detail db room capacity)

unfoldable pub apply_room : User → ℕ → Option String → ℕ → ℕ → Tx RoomApplication
apply_room user room_id message now id = do
  app ← call (λ db. apply_to_room db user room_id message now id)
  commit
  return app

-- me.py

unfoldable pub my_applications : User → Tx (List (RoomApplication × Option Room))
my_applications user = read (λ db. list_my_applications db user)

unfoldable pub cancel_application : User → ℕ → ℕ → Tx RoomApplication
cancel_application user application_id now = do
  app ← call (λ db. cancel_my_application db user application_id now)
  commit
  return app

abbrev pub is_active : Credit → Bool
is_active c = elim c.status [ CreditStatus.active ↦ true | _ ↦ false ]

abbrev pub is_expired : Credit → Bool
is_expired c = elim c.status [ CreditStatus.expired ↦ true | _ ↦ false ]

abbrev pub is_used : Credit → Bool
is_used c = elim c.status [ CreditStatus.used ↦ true | _ ↦ false ]

abbrev pub is_fixed : Credit → Bool
is_fixed c = elim c.kind [ CreditKind.fixed_amount ↦ true | CreditKind.percent ↦ false ]

abbrev pub is_percent : Credit → Bool
is_percent c = elim c.kind [ CreditKind.fixed_amount ↦ false | CreditKind.percent ↦ true ]

abbrev pub or_zero : Option ℕ → ℕ
or_zero none = 0
or_zero (some n) = n

-- `sum((c.amount_krw or 0) for c in active if c.kind == FIXED_AMOUNT)`
unfoldable pub fixed_total : List Credit → ℕ
fixed_total [] = 0
fixed_total (c ∷ cs) =
    let rest = fixed_total cs in
    if is_active c && is_fixed c then or_zero c.amount_krw + rest else rest

pub record CreditWallet : Type 0 where
  pub active_count : ℕ
  pub expired_count : ℕ
  pub used_count : ℕ
  pub total_active_fixed_krw : ℕ
  pub has_percent_off : Bool
  pub items : List Credit

unfoldable pub wallet_of : List Credit → CreditWallet
unfolding fixed_total
wallet_of credits = record {
  active_count = count is_active credits;
  expired_count = count is_expired credits;
  used_count = count is_used credits;
  total_active_fixed_krw = fixed_total credits;
  has_percent_off = any (λ c. is_active c && is_percent c) credits;
  items = credits;
}

unfoldable pub my_credits : User → ℕ → Tx CreditWallet
my_credits user now = do
  credits ← call (λ db. ok (list_my_credits db user.id now))
  commit
  return (wallet_of credits)

-- the rooms are read a second time, by their identifiers and in no order
unfoldable pub my_confirmed_rooms : User → Tx (List RoomListItem)
my_confirmed_rooms user = do
  rooms ← read (λ db. list_my_confirmed_rooms db user)
  again ← read (λ db. select (λ (r : Room). any (λ (q : Room). q.id == r.id) rooms) db.rooms)
  read (λ db. map (to_list_item db) again)

-- profile.py

unfoldable pub get_me : User → Tx Profile
get_me user = query (λ db. get_my_profile db user)

unfoldable pub upsert_me : User → Profile → ℕ → Tx Profile
upsert_me user body id = do
  profile ← call (λ db. ok (upsert_my_profile db user body id))
  commit
  return profile

-- feedback.py and reports.py

unfoldable pub submit_feedback : User → ℕ → FeedbackCreate → ℕ → Tx Feedback
submit_feedback user room_id body id = do
  fb ← call (λ db. Guest.submit_feedback db user room_id body id)
  commit
  return fb

unfoldable pub submit_report : User → ReportCreate → ℕ → Tx Report
submit_report user body id = do
  report ← call (λ db. Guest.submit_report db user body id)
  commit
  return report

-- matches.py

unfoldable pub list_choice_targets : (String → String → Bool) → User → ℕ → Tx (List ChoiceTarget)
list_choice_targets name_le user room_id =
    query (λ db. Targets.list_choice_targets name_le db user room_id)

unfoldable pub submit_choices : User → ℕ → List ChoiceItem → Tx (ℕ × ℕ)
submit_choices user room_id choices = do
  counts ← call (λ db. Choice.submit_choices db user room_id choices)
  commit
  return counts

unfoldable pub my_matches : User → ℕ → ℕ → Tx (List MatchSummary)
my_matches user room_id now = query (λ db. list_my_matches db user room_id now)

unfoldable pub propose_after_date : User → ℕ → Option ℕ → Option String → ℕ → Tx AfterDateProposal
propose_after_date user match_id date place id = do
  proposal ← call (λ db. Proposals.propose_after_date db user match_id date place id)
  commit
  return proposal

-- event.py

unfoldable pub my_checkin : User → ℕ → Tx CheckIn
my_checkin user room_id = query (λ db. get_my_checkin db user room_id)

unfoldable pub my_current_round : User → ℕ → Tx MyCurrentRoundView
my_current_round user room_id = query (λ db. get_my_current_round db user room_id)
