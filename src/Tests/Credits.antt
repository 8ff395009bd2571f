-- ===== src/Tests/Credits.antt =====
-- Runs of the credits: a bonus of 30 percent, a fixed amount, and the caps.
use rolling_api.Prelude.{◌≤◌, ◌≡◌, none, [], ◌∷◌, arith, count, All}
use rolling_api.Model.{Db, Credit, RoomStatus}
use rolling_api.Credit.{
  viable_host_credit, estimate_discount, best_discount, issue_referral_pair, PairDraw,
  viable_bonus_of, referral_bonus_of, max_referral_bonuses_per_host, list_my_credits,
  active_credits, is_lapsed,
}
use rolling_api.Credit.Discount.{Achieved, best_discount_lem}
use rolling_api.Credit.Issue.{referral_cap_kept}
use rolling_api.Credit.Expiry.{list_my_credits_lem}
use rolling_api.Tests.Data.{room_in, db_with}

abbrev bonus : Credit
bonus = viable_host_credit 1 10 601 500

abbrev purse : Db
purse = record (db_with (room_in RoomStatus.viable none)) { credits = bonus ∷ [] }

best_discount_example :
    ((best_discount purse.credits 20_000).1 ≤ 20_000)
    × All (λ c. estimate_discount c 20_000 ≤ (best_discount purse.credits 20_000).1) purse.credits
    × Achieved purse.credits 20_000 (best_discount purse.credits 20_000)
best_discount_example = best_discount_lem purse.credits 20_000

one_bonus : count (viable_bonus_of 1 10) purse.credits ≤ 1
unfolding count
one_bonus = omega arith

abbrev draw : PairDraw
draw = record {
  referrer_credit_id = 605;
  friend_credit_id = 606;
  referrer_now = 502;
  friend_now = 503;
}

no_referral : count (referral_bonus_of 1) purse.credits ≤ max_referral_bonuses_per_host
unfolding count
no_referral = omega arith

referral_cap_kept_example :
    count (referral_bonus_of 1) (issue_referral_pair purse 1 2 draw).1.credits
    ≤ max_referral_bonuses_per_host
referral_cap_kept_example = referral_cap_kept purse 1 1 2 draw no_referral

list_my_credits_example :
    let (credits, db') = list_my_credits purse 1 9_000_000_000_000 in
    (count (is_lapsed 1 9_000_000_000_000) db'.credits ≡ 0)
    × ((list_my_credits db' 1 9_000_000_000_000).1 ≡ db')
    × (active_credits db' 2 9_000_000_000_001 ≡ active_credits purse 2 9_000_000_000_001)
list_my_credits_example =
    list_my_credits_lem purse 1 2 9_000_000_000_000 9_000_000_000_001 (omega arith)
