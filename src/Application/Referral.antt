-- ===== src/Application/Referral.antt =====
-- A referred applicant's bonus: `_maybe_emit_referral_bonus` pays once, then never again.
use rolling_api.Prelude.{
  ℕ, ◌≡◌, inl, inr, true, arith, Bool-cases, get, Option-cases, get-save_self, key-get,
}
use rolling_api.Model.{Db, User, user_row}
use rolling_api.Credit.{PairDraw, issue_referral_pair}
use rolling_api.Application.{maybe_emit_referral_bonus}

users-issue :
    (db : Db) (referrer friend : ℕ) (d : PairDraw)
    → (issue_referral_pair db referrer friend d).1.users ≡ db.users
unfolding issue_referral_pair
users-issue db referrer friend d = ground arith

-- An applicant's referral is paid by the first of his confirmations: a further call for him,
-- whatever it draws, changes nothing.
emit_idempotent :
    (db : Db) (user_id : ℕ) (d d' : PairDraw)
    → maybe_emit_referral_bonus (maybe_emit_referral_bonus db user_id d) user_id d'
      ≡ maybe_emit_referral_bonus db user_id d
unfolding maybe_emit_referral_bonus
emit_idempotent db user_id d d' = elim (Option-cases (get user_id db.users)) [
  | inl absent ↦ ground (arith, absent)
  | inr (a, found) ↦ elim (Option-cases a.referred_by_user_id) [
    | inl unreferred ↦ ground (arith, found, unreferred)
    | inr (referrer, referred) ↦ elim (Bool-cases a.referral_bonus_emitted) [
      | inl paid ↦ ground (arith, found, referred, paid)
      | inr unpaid ↦
          let key = key-get user_id db.users a found in
          let c : User = record a { referral_bonus_emitted = true } in
          let same = users-issue db referrer a.id d in
          let there = get-save_self c db.users a (ground (arith, key, found)) in
          ground (arith, found, referred, unpaid, same, there, key)
    ]
  ]
]
