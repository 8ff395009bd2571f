-- ===== src/Choice/Targets.antt =====
-- `list_choice_targets` of app/services/choice_service.py, and that the targets it lists are the
-- ones that `submit_choices` takes. The collation of the database, by which the names are ordered,
-- is the parameter `name_le`.
use rolling_api.Prelude.{
  ℕ, String, ◌≡◌, ◌≢◌, refl, ◌∙◌, inl, inr, Bool, true, false, ◌&&◌, not, Option, none, some, List,
  [], ◌∷◌, map, arith, ◌==◌, if◌then◌else◌, any, find, select, get, order_by, join, Bool-cases,
  Result, ok, err, ErrorCode, api_error, forbidden, not_found, invalid_state_transition, ◌>>=◌,
  ◌>>◌, require, or_raise, >>=-eq-ok, any-map, any-order_by, any-select, any-join, any-congr,
  any-and, ApiError, ◌↔◌,
}
use rolling_api.Model.{Db, User, Profile, CheckIn, ParticipantChoice, ChoiceType, Gender, room_row}
use rolling_api.Choice.{
  ChoiceItem, Work, is_open_for_choices, is_checked_in, is_attendance, ensure_attended, same_gender,
  is_valid_target, take_item, take_items, flush, work_on, submit_choices,
}

pub record ChoiceTarget : Type 0 where
  pub user_id : ℕ
  pub display_name : String
  pub gender : Gender
  pub birth_year : ℕ
  pub region : Option String
  pub job_title : Option String
  pub intro : Option String
  pub my_choice : Option ChoiceType

-- ON CheckIn.user_id = Profile.user_id
abbrev pub same_user : Profile → CheckIn → Bool
same_user p c = c.user_id == p.user_id

-- the WHERE clause of the rows
abbrev pub is_target : User → Gender → ℕ → Profile × CheckIn → Bool
is_target user gender room_id (p, c) =
    (c.room_id == room_id && is_checked_in c.status)
    && (not (p.user_id == user.id) && not (same_gender p.gender gender))

abbrev pub name_order : (String → String → Bool) → Profile × CheckIn → Profile × CheckIn → Bool
name_order name_le (p, _) (q, _) = name_le p.display_name q.display_name

unfoldable pub target_rows :
    (String → String → Bool) → Db → User → Gender → ℕ → List (Profile × CheckIn)
target_rows name_le db user gender room_id =
    order_by (name_order name_le)
      (select (is_target user gender room_id) (join same_user db.profiles db.check_ins))

-- `my_choice_by_chosen`: of two rows for one user the later one is kept
unfoldable pub my_choice_of : List ParticipantChoice → ℕ → ℕ → ℕ → Option ChoiceType
my_choice_of [] room_id user_id chosen_id = none
my_choice_of (c ∷ cs) room_id user_id chosen_id =
    let later = my_choice_of cs room_id user_id chosen_id in
    elim later [
      | some t ↦ some t
      | none ↦
          if (c.room_id == room_id && c.chooser_id == user_id) && c.chosen_id == chosen_id
          then some c.choice_type
          else none
    ]

abbrev pub target_of : Db → User → ℕ → Profile × CheckIn → ChoiceTarget
target_of db user room_id (p, _) = record {
  user_id = p.user_id;
  display_name = p.display_name;
  gender = p.gender;
  birth_year = p.birth_year;
  region = p.region;
  job_title = p.job_title;
  intro = p.intro;
  my_choice = my_choice_of db.choices room_id user.id p.user_id;
}

unfoldable pub list_choice_targets :
    (String → String → Bool) → Db → User → ℕ → Result (List ChoiceTarget)
list_choice_targets name_le db user room_id = do
  room ← or_raise (get room_id db.rooms) (not_found ErrorCode.room_not_found)
  require (is_open_for_choices room.status) invalid_state_transition
  me_profile ← or_raise (find (λ (p : Profile). p.user_id == user.id) db.profiles) forbidden
  _ ← ensure_attended db user room.id
  ok (map (target_of db user room_id) (target_rows name_le db user me_profile.gender room_id))

abbrev pub is_for : ℕ → ChoiceTarget → Bool
is_for k t = t.user_id == k

module _ (name_le : String → String → Bool) (db : Db) (user : User) (gender : Gender)
    (room_id k : ℕ) where
  abbrev fits_target : Profile → Bool
  fits_target p = p.user_id == k && not (same_gender p.gender gender)

  regroup :
      (p : Profile) (c : CheckIn)
      → same_user p c && (is_target user gender room_id (p, c) && (p.user_id == k))
        ≡ is_attendance room_id k c && (fits_target p && not (k == user.id))
  regroup p c = ground arith

  row_of :
      (p : Profile)
      → any
          (λ c. same_user p c && (is_target user gender room_id (p, c) && (p.user_id == k)))
          db.check_ins
        ≡ fits_target p && (not (k == user.id) && any (is_attendance room_id k) db.check_ins)
  row_of p =
      any-congr _ _ db.check_ins (regroup p)
      ∙ any-and (is_attendance room_id k) _ db.check_ins
      ∙ ground arith

  -- A user is among the rows exactly if the loop of `submit_choices` finds him in `valid_targets`.
  rows-valid :
      any (is_for k) (map (target_of db user room_id) (target_rows name_le db user gender room_id))
      ≡ is_valid_target db user gender room_id k
  unfolding target_rows is_valid_target
  rows-valid =
      any-map (is_for k) (target_of db user room_id) _
      ∙ any-order_by _ (name_order name_le) _
      ∙ any-select _ (is_target user gender room_id) _
      ∙ any-join _ same_user db.profiles db.check_ins
      ∙ any-congr _ _ db.profiles row_of
      ∙ any-and fits_target _ db.profiles
      ∙ ground arith

-- Every item of a submission names a user of the list.
abbrev pub all_listed : List ChoiceTarget → List ChoiceItem → Bool
all_listed targets [] = true
all_listed targets (item ∷ items) = any (is_for item.chosen_id) targets && all_listed targets items

abbrev pub invalid_target : ApiError
invalid_target = api_error ErrorCode.invalid_choice_target 409

module _ (db : Db) (user : User) (gender : Gender) (room_id : ℕ) where
  all_valid : List ChoiceItem → Bool
  all_valid [] = true
  all_valid (item ∷ items) =
      is_valid_target db user gender room_id item.chosen_id && all_valid items

  all_listed-valid :
      (name_le : String → String → Bool) (items : List ChoiceItem)
      → all_listed
          (map (target_of db user room_id) (target_rows name_le db user gender room_id))
          items
        ≡ all_valid items
  unfolding all_valid
  all_listed-valid name_le [] = refl
  all_listed-valid name_le (item ∷ items) =
      rw (rows-valid name_le db user gender room_id item.chosen_id, all_listed-valid name_le items)
        refl

  take_items_valid :
      (items : List ChoiceItem) (w : Work)
      → all_valid items ≡ true
      → (w' : Work) × (take_items db user gender room_id items w ≡ ok w')
  unfolding take_items all_valid
  take_items_valid [] w h = (w, refl)
  take_items_valid (item ∷ items) w h =
      let (w', e) = take_items_valid items (take_item w room_id user.id item) (ground (arith, h)) in
      (w', ground (arith, h, e))

  take_items_invalid :
      (items : List ChoiceItem) (w : Work)
      → all_valid items ≡ false
      → take_items db user gender room_id items w ≡ err invalid_target
  unfolding take_items all_valid
  take_items_invalid [] w h = cc
  take_items_invalid (item ∷ items) w h =
      ground (arith, h, take_items_invalid items (take_item w room_id user.id item))

flush-ne-invalid : (db : Db) (w : Work) → flush db w ≢ err invalid_target
unfolding flush
flush-ne-invalid db w h = ground (arith, h)

-- the part of `submit_choices` that follows the guards, which are those of the list
abbrev submit_rest : Db → User → Gender → ℕ → List ChoiceItem → Result ((ℕ × ℕ) × Db)
submit_rest db user gender room_id items = do
  w ← take_items db user gender room_id items (work_on db)
  db' ← flush db w
  ok ((w.accepted, w.new_mutual), db')

same_guards :
    (name_le : String → String → Bool) (db : Db) (user : User) (room_id : ℕ)
    (targets : List ChoiceTarget) (items : List ChoiceItem)
    → list_choice_targets name_le db user room_id ≡ ok targets
    → (me : Profile) × (targets
        ≡ map (target_of db user room_id) (target_rows name_le db user me.gender room_id))
      × (submit_choices db user room_id items ≡ submit_rest db user me.gender room_id items)
unfolding list_choice_targets submit_choices
same_guards name_le db user room_id targets items h =
    let (room, found, h1) = >>=-eq-ok (or_raise (get room_id db.rooms) _) _ targets h in
    elim (Bool-cases (is_open_for_choices room.status)) [
      | inr shut ↦ absurd (ground (arith, h1, shut))
      | inl opened ↦
          let (me, mine, h2) =
            >>=-eq-ok
              (or_raise (find (λ (p : Profile). p.user_id == user.id) db.profiles) forbidden) _
              targets (rw opened at h1) in
          let (ck, there, h3) = >>=-eq-ok (ensure_attended db user room.id) _ targets h2 in
          (me, ground (arith, h3), rw (found, opened, mine, there) refl)
    ]

refused_iff :
    (db : Db) (user : User) (gender : Gender) (room_id : ℕ) (items : List ChoiceItem)
    → (submit_rest db user gender room_id items ≡ err invalid_target)
      ↔ (all_valid db user gender room_id items ≡ false)
refused_iff db user gender room_id items =
    elim (Bool-cases (all_valid db user gender room_id items)) [
      | inr bad ↦ (
        λ _. bad,
        λ _. rw (take_items_invalid db user gender room_id items (work_on db) bad) refl,
      )
      | inl good ↦
          let (w, taken) = take_items_valid db user gender room_id items (work_on db) good in
          (
            λ refused. absurd (ground (arith, refused, taken, flush-ne-invalid db w)),
            λ bad. absurd (ground (arith, good, bad)),
          )
    ]

-- The list of targets and the submission agree: where the list was returned, a submission is refused
-- for an invalid target exactly if one of its items names a user who is not on the list.
pub submission_takes_listed :
    (name_le : String → String → Bool) (db : Db) (user : User) (room_id : ℕ)
    (targets : List ChoiceTarget)
    → list_choice_targets name_le db user room_id ≡ ok targets
    → (items : List ChoiceItem)
    → (submit_choices db user room_id items ≡ err invalid_target)
      ↔ (all_listed targets items ≡ false)
submission_takes_listed name_le db user room_id targets h items =
    let (me, listed, rest) = same_guards name_le db user room_id targets items h in
    let same = all_listed-valid db user me.gender room_id name_le items in
    rw (listed, same, rest) (refused_iff db user me.gender room_id items)
