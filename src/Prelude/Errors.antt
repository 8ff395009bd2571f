-- ===== src/Prelude/Errors.antt =====
-- app/core/exceptions.py: a service call returns a value or raises an `ApiError`. The message text
-- is left out; the code and the HTTP status are what a client tells errors apart by.
use Prim.Native.Nat.{ℕ}
use mathlib.Core.Path.{◌≡◌, refl}
use mathlib.Core.Logic.{◌⊎◌, inl, inr}
use mathlib.Core.Bool.{Bool, true, false}
use mathlib.Core.Option.{Option, none, some}

-- the strings that the services pass as `code`
pub data ErrorCode : Type 0 where
  unauthorized forbidden_code invalid_state validation_error integrity_error : ErrorCode
  room_not_found application_not_found checkin_not_found match_not_found : ErrorCode
  user_not_found planner_not_found report_not_found profile_not_found : ErrorCode
  rotation_not_started rotation_already_started no_checked_in_participants : ErrorCode
  rotation_gender_imbalance already_last_round invalid_choice_target : ErrorCode
  room_not_ready over_capacity no_confirmed_participants : ErrorCode
  room_not_accepting_applications application_deadline_passed profile_incomplete : ErrorCode
  application_already_exists email_already_exists invalid_role invalid_referral_code : ErrorCode
  invalid_target planner_not_approved invalid_report_target feedback_already_submitted : ErrorCode
  no_unique_code internal_error : ErrorCode

pub record ApiError : Type 0 where
  pub code : ErrorCode
  pub status_code : ℕ

abbrev pub api_error : ErrorCode → ℕ → ApiError
api_error c s = record { code = c; status_code = s }

abbrev pub unauthorized_error : ApiError
unauthorized_error = api_error unauthorized 401

abbrev pub forbidden : ApiError
forbidden = api_error forbidden_code 403

abbrev pub not_found : ErrorCode → ApiError
not_found c = api_error c 404

abbrev pub conflict : ErrorCode → ApiError
conflict c = api_error c 409

abbrev pub invalid_state_transition : ApiError
invalid_state_transition = api_error invalid_state 409

pub data Result {ℓ} (A : Type ℓ) : Type ℓ where
  ok : A → Result A
  err : ApiError → Result A

infixl 5 ◌>>=◌ ◌>>◌
abbrev pub ◌>>=◌ {ℓ κ} : {V : Type ℓ} {W : Type κ} → Result V → (V → Result W) → Result W
err raised >>= rest = err raised
ok value >>= rest = rest value

abbrev pub ◌>>◌ {ℓ} : {V : Type ℓ} → Result (Unit {0}) → Result V → Result V
err raised >> rest = err raised
ok _ >> rest = rest

-- `if not test: raise e`
abbrev pub require : Bool → ApiError → Result (Unit {0})
require true e = ok tt
require false e = err e

-- `if test: raise e`
abbrev pub raise_if : Bool → ApiError → Result (Unit {0})
raise_if true e = err e
raise_if false e = ok tt

-- `if x is None: raise e`
abbrev pub or_raise {ℓ} : {A : Type ℓ} → Option A → ApiError → Result A
or_raise none e = err e
or_raise (some a) e = ok a

-- the parts of a call that returned

pub >>=-eq-ok {ℓ κ} :
    {V : Type ℓ} {W : Type κ} (call : Result V) (rest : V → Result W) (w : W)
    → (call >>= rest) ≡ ok w
    → (v : V) × (call ≡ ok v) × (rest v ≡ ok w)
>>=-eq-ok (err raised) rest w h = cc
>>=-eq-ok (ok v) rest w h = (v, refl, h)

pub Result-cases {ℓ} :
    {A : Type ℓ} (m : Result A) → ((a : A) × (m ≡ ok a)) ⊎ ((e : ApiError) × (m ≡ err e))
Result-cases (ok a) = inl (a, refl)
Result-cases (err e) = inr (e, refl)
