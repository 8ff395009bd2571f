-- ===== src/Credit/Issue.antt =====
-- Issuing is idempotent, and a referrer's bonuses stay within their cap.
use rolling_api.Prelude.{
  ℕ, ◌≤◌, ◌≡◌, true, some, [], ◌∷◌, arith, find, count, find-append, count-append, count-none,
  Option-cases, inl, inr, is_some, ◌==◌, if◌then◌else◌,
}
use rolling_api.Model.{Db}
use rolling_api.Credit.{
  issue_viable_host_bonus, issue_referral_pair, viable_bonus_of, viable_host_credit,
  referral_bonus_of, PairDraw, max_referral_bonuses_per_host, referrer_side, friend_side,
}

find_new_bonus :
    (host room id now : ℕ)
    → find (viable_bonus_of host room) (viable_host_credit host room id now ∷ [])
      ≡ some (viable_host_credit host room id now)
unfolding find
find_new_bonus host room id now = ground arith

count_new_referral :
    (u referrer friend : ℕ) (d : PairDraw)
    → count
        (referral_bonus_of u)
        (referrer_side referrer friend d ∷ friend_side referrer friend d ∷ [])
      ≡ (if referrer == u then 1 else 0)
unfolding count
count_new_referral u referrer friend d = ground arith

-- If no user has more than the cap of referrer bonuses, then no user has after the call: whoever
-- the pair is, and whatever the call does.
pub referral_cap_kept :
    (db : Db) (u referrer friend : ℕ) (d : PairDraw)
    → count (referral_bonus_of u) db.credits ≤ max_referral_bonuses_per_host
    → count (referral_bonus_of u) (issue_referral_pair db referrer friend d).1.credits
      ≤ max_referral_bonuses_per_host
unfolding issue_referral_pair
referral_cap_kept db u referrer friend d h = ground (
  arith,
  count-append (referral_bonus_of u) db.credits
      (referrer_side referrer friend d ∷ friend_side referrer friend d ∷ []),
  count_new_referral u referrer friend d,
)

-- After the call the host has the room's bonus.
pub viable_bonus_issued :
    (db : Db) (host room id now : ℕ)
    → is_some
        (find (viable_bonus_of host room) (issue_viable_host_bonus db host room id now).1.credits)
      ≡ true
unfolding issue_viable_host_bonus
viable_bonus_issued db host room id now = ground (
  arith,
  find-append (viable_bonus_of host room) db.credits (viable_host_credit host room id now ∷ []),
  find_new_bonus host room id now,
)

-- The call touches no table but the credits.
pub rooms-viable_bonus :
    (db : Db) (host room id now : ℕ)
    → (issue_viable_host_bonus db host room id now).1.rooms ≡ db.rooms
unfolding issue_viable_host_bonus
rooms-viable_bonus db host room id now = ground arith

count_new_bonus :
    (u r host room id now : ℕ)
    → count (viable_bonus_of u r) (viable_host_credit host room id now ∷ [])
      ≡ (if host == u then if room == r then 1 else 0 else 0)
unfolding count
count_new_bonus u r host room id now = ground arith

-- If every host has at most one bonus for a room, then so after any call.
viable_bonus_once :
    (db : Db) (host room id now u r : ℕ)
    → count (viable_bonus_of u r) db.credits ≤ 1
    → count (viable_bonus_of u r) (issue_viable_host_bonus db host room id now).1.credits ≤ 1
unfolding issue_viable_host_bonus
viable_bonus_once db host room id now u r h =
    elim (Option-cases (find (viable_bonus_of host room) db.credits)) [
      | inr (c, e) ↦ rw (e, issue_viable_host_bonus) h
      | inl absent ↦ ground (
        arith,
        absent,
        count-append (viable_bonus_of u r) db.credits (viable_host_credit host room id now ∷ []),
        count_new_bonus u r host room id now,
        count-none (viable_bonus_of u r) db.credits,
      )
    ]
