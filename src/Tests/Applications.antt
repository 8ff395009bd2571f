-- ===== src/Tests/Applications.antt =====
-- Runs of the applications: anna's is approved and confirmed, ben's is decided.
use rolling_api.Prelude.{
  ◌≤◌, ◌≡◌, refl, true, none, some, arith, find, get, save, count, UniqueKeys, ok,
}
use rolling_api.Model.{
  Db, Room, RoomStatus, RoomApplication, ApplicationStatus, Credit, room_row, application_row,
  user_row,
}
use rolling_api.Credit.{PairDraw, issue_referral_pair, issue_viable_host_bonus}
use rolling_api.Viability.{
  PromoteDraw, maybe_promote_to_viable, promote_room, get_capacity_summary, sum_case,
  viable_threshold_male, viable_threshold_female,
}
use rolling_api.Application.{
  mark_application_paid, owned_application, maybe_emit_referral_bonus, emit_for, application_of,
}
use rolling_api.Application.Operations.{Request, run}
use rolling_api.Application.Final.{Step, History, one_application_each, decided_is_final}
use rolling_api.Application.Rights.{run_succeeds_iff, is_ok, HasRight, permits}
use rolling_api.Prelude.{◌↔◌, true}
use rolling_api.Tests.Data.{value_or, host, room_in, db_with, application}

abbrev before : Db
before = db_with (room_in RoomStatus.published none)

abbrev promote_draw : PromoteDraw
promote_draw = record { viable_now = 500; bonus_id = 601; bonus_now = 501 }

abbrev pair_draw : PairDraw
pair_draw = record {
  referrer_credit_id = 602;
  friend_credit_id = 603;
  referrer_now = 502;
  friend_now = 503;
}

-- the host marks anna's application as paid
abbrev payment : Request
payment = Request.pay 102 promote_draw pair_draw

abbrev confirmed : RoomApplication × Db
confirmed = value_or (application 0 0 ApplicationStatus.submitted, before) (run before host payment)

pays : run before host payment ≡ ok confirmed
unfolding run mark_application_paid owned_application maybe_promote_to_viable promote_room
    get_capacity_summary sum_case viable_threshold_male viable_threshold_female
    issue_viable_host_bonus maybe_emit_referral_bonus emit_for issue_referral_pair get find save
    count
pays = refl

-- the room has become VIABLE, and the host's and the referral's credits are there
paid_effect :
    (count (λ (r : Room). true) confirmed.1.rooms ≡ 1)
    × (count (λ (c : Credit). true) confirmed.1.credits ≡ 3)
unfolding run mark_application_paid owned_application maybe_promote_to_viable promote_room
    get_capacity_summary sum_case viable_threshold_male viable_threshold_female
    issue_viable_host_bonus maybe_emit_referral_bonus emit_for issue_referral_pair get find save
    count
paid_effect = (refl, refl)

before_unique : UniqueKeys before.applications
before_unique = (((λ e. ground (arith, e)), tt), (tt, tt))

anna_at : get 102 before.applications ≡ some (application 102 2 ApplicationStatus.approved)
unfolding get find
anna_at = refl

ben_at : get 103 before.applications ≡ some (application 103 3 ApplicationStatus.confirmed)
unfolding get find
ben_at = refl

one_at_most : count (application_of 10 2) before.applications ≤ 1
unfolding count
one_at_most = omega arith

one_application_each_example : count (application_of 10 2) confirmed.1.applications ≤ 1
one_application_each_example =
    one_application_each before host payment confirmed.0 confirmed.1 before_unique pays 10 2
      one_at_most

confirmed_unique : UniqueKeys confirmed.1.applications
unfolding run mark_application_paid owned_application maybe_promote_to_viable promote_room
    get_capacity_summary sum_case viable_threshold_male viable_threshold_female
    issue_viable_host_bonus maybe_emit_referral_bonus emit_for issue_referral_pair get find save
    count
confirmed_unique = (((λ e. ground (arith, e)), tt), (tt, tt))

decided_is_final_example :
    get 103 confirmed.1.applications ≡ some (application 103 3 ApplicationStatus.confirmed)
decided_is_final_example =
    decided_is_final before confirmed.1 103 (application 103 3 ApplicationStatus.confirmed)
      before_unique
      (History.then_step History.start (Step.served host payment confirmed.0 confirmed_unique pays))
      refl ben_at

run_succeeds_iff_example : (is_ok (run before host payment) ≡ true) ↔ (
    HasRight before host payment (application 102 2 ApplicationStatus.approved)
    × (permits payment ApplicationStatus.approved ≡ true))
run_succeeds_iff_example =
    run_succeeds_iff before host payment 102 (application 102 2 ApplicationStatus.approved) refl
      anna_at
