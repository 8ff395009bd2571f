-- ===== src/Tests/Rooms.antt =====
-- Runs of a room's life: created, edited, made viable, assigned and confirmed.
use rolling_api.Prelude.{
  ◌<◌, ◌≡◌, ◌↔◌, refl, true, false, none, some, [], ◌∷◌, find, get, save, count, is_some, All, ok,
}
use rolling_api.Model.{
  Db, Room, RoomStatus, RoomType, RoomVisibility, ApplicationStatus, room_row, planner_row,
}
use rolling_api.Credit.{viable_bonus_of}
use rolling_api.Viability.{
  PromoteDraw, maybe_promote_to_viable, promote_room, get_capacity_summary, sum_case,
  viable_threshold_male, viable_threshold_female, promoted, viable_room,
}
use rolling_api.Viability.Promotion.{IsPromotable, promotion_iff, promotion_effect}
use rolling_api.Host.{
  RoomCreate, is_valid_create, RoomUpdate, update_room, edit, edited, host_room, is_editable,
}
use rolling_api.Host.Edits.{IsEdited, updated_room}
use rolling_api.Planner.{confirm_room, assigned_room}
use rolling_api.Admin.{Actor, assign_planner_to_room, log_action}
use rolling_api.Admin.Trail.{Command, execute, IsLogged, command-IsLogged}
use rolling_api.Lifecycle.{RoomStep, RoomHistory}
use rolling_api.Lifecycle.Order.{IsSound, rooms_stay-IsSound}
use rolling_api.Prelude.{◌↔◌, ◌⊎◌, false}
use rolling_api.Tests.Data.{value_or, host, chief, planner, room_in, db_with, application}

abbrev body : RoomCreate
body = record {
  title = "party";
  subtitle = none;
  description = none;
  room_type = RoomType.four_by_four;
  region = "Busan";
  venue_name = none;
  venue_address = none;
  starts_at = 5_000;
  ends_at = 6_000;
  min_age = some 20;
  max_age = some 30;
  male_capacity = 4;
  female_capacity = 4;
  price_amount = 0;
  deposit_amount = 0;
  currency = "KRW";
  application_deadline = some 4_000;
  visibility = RoomVisibility.public;
  payment_instructions = none;
}

abbrev drafts : Db
drafts = db_with (room_in RoomStatus.draft none)

valid_body : is_valid_create body ≡ true
unfolding is_valid_create
valid_body = refl

-- only the end is set
abbrev change : RoomUpdate
change = record {
  title = none;
  subtitle = none;
  description = none;
  region = none;
  venue_name = none;
  venue_address = none;
  starts_at = none;
  ends_at = some (some 3_000);
  min_age = none;
  max_age = none;
  male_capacity = none;
  female_capacity = none;
  price_amount = none;
  deposit_amount = none;
  application_deadline = none;
  visibility = none;
  payment_instructions = none;
}

abbrev longer : Room × Db
longer = value_or (room_in RoomStatus.draft none, drafts) (update_room drafts host 10 change)

edits : update_room drafts host 10 change ≡ ok longer
unfolding update_room edit edited host_room get find save
edits = refl

updated_room_example :
    (a : Room) × IsEdited drafts host 10 a longer.0 longer.1
    × (is_editable a.status ≡ true)
    × (longer.0.status ≡ a.status)
    × (longer.0.starts_at < longer.0.ends_at)
updated_room_example = updated_room drafts host 10 change longer.0 longer.1 edits

abbrev draw : PromoteDraw
draw = record { viable_now = 500; bonus_id = 601; bonus_now = 501 }

-- both guests are confirmed
abbrev full : Room → Db
full room = record (db_with room) {
  applications =
      application 102 2 ApplicationStatus.confirmed
      ∷ application 103 3 ApplicationStatus.confirmed
      ∷ [];
}

abbrev listed : Room
listed = room_in RoomStatus.published none

listed_there : get 10 (full listed).rooms ≡ some listed
unfolding get find
listed_there = refl

promotion_iff_example :
    ((maybe_promote_to_viable (full listed) 10 draw ≡ (true, promoted (full listed) listed draw))
      ↔ IsPromotable (full listed) 10 listed)
    × ((maybe_promote_to_viable (full listed) 10 draw ≡ (true, promoted (full listed) listed draw))
        ⊎ (maybe_promote_to_viable (full listed) 10 draw ≡ (false, full listed)))
promotion_iff_example = promotion_iff (full listed) 10 listed draw listed_there

promotes : (maybe_promote_to_viable (full listed) 10 draw).0 ≡ true
unfolding maybe_promote_to_viable promote_room get_capacity_summary sum_case viable_threshold_male
    viable_threshold_female get find count
promotes = refl

promotion_effect_example :
    let db' = (maybe_promote_to_viable (full listed) 10 draw).1 in
    (get 10 db'.rooms ≡ some (viable_room listed 500))
    × (is_some (find (viable_bonus_of 1 10) db'.credits) ≡ true)
    × (maybe_promote_to_viable db' 10 draw ≡ (false, db'))
promotion_effect_example = promotion_effect (full listed) 10 listed draw draw listed_there promotes

abbrev actor : Actor
actor = record { user = chief; ip = none; ua = none; log_id = 701 }

abbrev waiting : Db
waiting = full (room_in RoomStatus.viable none)

abbrev assigned : Room × Db
assigned = value_or (listed, waiting) (assign_planner_to_room waiting actor 10 7)

assigns : assign_planner_to_room waiting actor 10 7 ≡ ok assigned
unfolding assign_planner_to_room log_action get find save
assigns = refl

executes : execute waiting actor (Command.assign 10 7) ≡ ok assigned.1
unfolding execute assign_planner_to_room log_action get find save
executes = refl

command-IsLogged_example : IsLogged waiting actor (Command.assign 10 7) assigned.1
command-IsLogged_example = command-IsLogged waiting actor (Command.assign 10 7) assigned.1 executes

abbrev handed : Room
handed = room_in RoomStatus.assigned (some 7)

abbrev settled : Room × Db
settled = value_or (listed, waiting) (confirm_room assigned.1 planner 10)

confirms : confirm_room assigned.1 planner 10 ≡ ok settled
unfolding assign_planner_to_room log_action confirm_room assigned_room get_capacity_summary sum_case
    get find save count
confirms = refl

-- assigned, and then confirmed
life : RoomHistory waiting settled.1
life =
    RoomHistory.and_then
      (RoomHistory.and_then RoomHistory.begin (RoomStep.assign actor 10 7 assigned.0 assigns))
      (RoomStep.confirm planner 10 settled.0 confirms)

waiting_there : get 10 waiting.rooms ≡ some (room_in RoomStatus.viable none)
unfolding get find
waiting_there = refl

rooms_stay-IsSound_example : All IsSound settled.1.rooms
rooms_stay-IsSound_example = rooms_stay-IsSound waiting settled.1 life (refl, tt)
