-- ===== src/Viability/Confirmed.antt =====
-- The confirmed guests of a room, counted over the pairs of an application and a profile of one user.
use rolling_api.Prelude.{
  ℕ, ◌≡◌, inl, inr, refl, Bool, true, false, ◌&&◌, if◌then◌else◌, List, [], ◌∷◌, ◌==◌, arith, count,
  count-append, select, join, pair_all, Bool-cases,
}
use rolling_api.Model.{Db, Profile, Room, RoomApplication, ApplicationStatus, Gender}
use rolling_api.Viability.{get_capacity_summary, sum_case, is_confirmed, is_male, is_female}

-- a confirmed guest of the wanted gender
abbrev pub confirmed_as : Gender → ApplicationStatus → Gender → Bool
confirmed_as Gender.male ApplicationStatus.confirmed Gender.male = true
confirmed_as Gender.female ApplicationStatus.confirmed Gender.female = true
confirmed_as wanted status gender = false

abbrev pub same_guest : RoomApplication → Profile → Bool
same_guest a p = p.user_id == a.user_id

abbrev pub counts_for : ℕ → Gender → RoomApplication × Profile → Bool
counts_for k wanted (a, p) = a.room_id == k && confirmed_as wanted a.status p.gender

-- the confirmed guests of a gender in a room, of the pairs of an application and a profile of one user
abbrev pub confirmed_guests : Db → ℕ → Gender → ℕ
confirmed_guests db k wanted =
    count (counts_for k wanted) (join same_guest db.applications db.profiles)

count-pair_all :
    (k : ℕ) (wanted : Gender) (a : RoomApplication) (q : Profile → Bool) (ps : List Profile)
    → count (counts_for k wanted) (pair_all a (select q ps))
      ≡ count (λ p. q p && counts_for k wanted (a, p)) ps
unfolding count select pair_all
count-pair_all k wanted a q [] = refl
count-pair_all k wanted a q (p ∷ ps) = ground (arith, count-pair_all k wanted a q ps)

count-outside :
    (q : Profile → Bool) (ps : List Profile) → ((p : Profile) → q p ≡ false) → count q ps ≡ 0
unfolding count
count-outside q [] h = refl
count-outside q (p ∷ ps) h = ground (arith, h p, count-outside q ps h)

count-congr :
    (q r : Profile → Bool) (ps : List Profile)
    → ((p : Profile) → q p ≡ r p)
    → count q ps ≡ count r ps
unfolding count
count-congr q r [] h = refl
count-congr q r (p ∷ ps) h = ground (arith, h p, count-congr q r ps h)

module _ (k : ℕ) (wanted : Gender) (test : Gender → Bool)
    (right : (s : ApplicationStatus) (g : Gender)
      → confirmed_as wanted s g ≡ (is_confirmed s && test g)) where
  one_guest :
      (a : RoomApplication) (ps : List Profile)
      → count (λ p. same_guest a p && counts_for k wanted (a, p)) ps ≡ (
          if a.room_id == k && is_confirmed a.status
          then count (λ (p : Profile). p.user_id == a.user_id && test p.gender) ps
          else 0)
  one_guest a ps = elim (Bool-cases (a.room_id == k && is_confirmed a.status)) [
    | inl here ↦ rw here (count-congr _ _ ps (λ p. ground (arith, here, right a.status p.gender)))
    | inr away ↦ rw away (count-outside _ ps (λ p. ground (arith, away, right a.status p.gender)))
  ]

  sum_case-eq :
      (apps : List RoomApplication) (ps : List Profile)
      → sum_case apps ps k is_confirmed test ≡ count (counts_for k wanted) (join same_guest apps ps)
  unfolding sum_case join
  sum_case-eq [] ps = unfold count in refl
  sum_case-eq (a ∷ apps) ps =
      let one = one_guest a ps in
      let pairs = count-pair_all k wanted a (same_guest a) ps in
      let rest = sum_case-eq apps ps in
      let both =
        count-append (counts_for k wanted) (pair_all a (select (same_guest a) ps))
          (join same_guest apps ps) in
      elim (Bool-cases (a.room_id == k && is_confirmed a.status)) [
        | inl here ↦ rw here (omega (arith, rw here at one, pairs, rest, both))
        | inr away ↦ rw away (omega (arith, rw away at one, pairs, rest, both))
      ]

males_are :
    (s : ApplicationStatus) (g : Gender)
    → confirmed_as Gender.male s g ≡ (is_confirmed s && is_male g)
males_are s g = ground arith

females_are :
    (s : ApplicationStatus) (g : Gender)
    → confirmed_as Gender.female s g ≡ (is_confirmed s && is_female g)
females_are s g = ground arith

pub males-confirmed :
    (db : Db) (k : ℕ) (room : Room)
    → (get_capacity_summary db k room).male_confirmed ≡ confirmed_guests db k Gender.male
unfolding get_capacity_summary
males-confirmed db k room = sum_case-eq k Gender.male is_male males_are db.applications db.profiles

pub females-confirmed :
    (db : Db) (k : ℕ) (room : Room)
    → (get_capacity_summary db k room).female_confirmed ≡ confirmed_guests db k Gender.female
unfolding get_capacity_summary
females-confirmed db k room =
    sum_case-eq k Gender.female is_female females_are db.applications db.profiles
