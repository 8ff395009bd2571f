-- ===== src/Listing.antt =====
-- app/services/room_service.py: the public list of rooms with its filters and pages, the page of one
-- room, and the items that are sent. `get_capacity_summary` of that file is the same query as the
-- one of host_service.py, in Viability.antt.
pub mod Pages
use text.Mathlib.Text.{◌==◌ as str_eq}
use rolling_api.Prelude.{
  ℕ, String, Bool, true, false, ◌&&◌, ◌||◌, not, Option, none, some, List, leb, ◌==◌, if◌then◌else◌,
  count, select, get, order_by, page, Result, ok, err, ErrorCode, not_found, ◌>>=◌, ◌>>◌, require,
  or_raise,
}
use rolling_api.Model.{
  Db, Planner, Room, RoomStatus, RoomType, RoomVisibility, room_row, planner_row,
}
use rolling_api.Viability.{RoomCapacitySummary, get_capacity_summary}

-- PUBLIC_VIEWABLE_STATUSES
abbrev pub is_viewable : RoomStatus → Bool
is_viewable RoomStatus.draft = false
is_viewable RoomStatus.cancelled = false
is_viewable _ = true

-- APPLICATION_OPEN_STATUSES of this file
abbrev pub is_listed_status : RoomStatus → Bool
is_listed_status RoomStatus.published = true
is_listed_status RoomStatus.recruiting = true
is_listed_status RoomStatus.viable = true
is_listed_status RoomStatus.assigned = true
is_listed_status _ = false

abbrev pub is_public : RoomVisibility → Bool
is_public RoomVisibility.public = true
is_public RoomVisibility.private = false

abbrev pub same_type : RoomType → RoomType → Bool
same_type RoomType.three_by_three RoomType.three_by_three = true
same_type RoomType.four_by_four RoomType.four_by_four = true
same_type RoomType.six_by_six RoomType.six_by_six = true
same_type RoomType.offline_party RoomType.offline_party = true
same_type RoomType.theme_based RoomType.theme_based = true
same_type _ _ = false

pub record RoomQuery : Type 0 where
  pub region : Option String
  pub room_type : Option RoomType
  pub starts_after : Option ℕ
  pub starts_before : Option ℕ
  pub min_age : Option ℕ
  pub max_age : Option ℕ

-- `if region: ...`, so that an empty text filters nothing
abbrev pub region_fits : Option String → String → Bool
region_fits none region = true
region_fits (some wanted) region = str_eq wanted "" || str_eq region wanted

abbrev pub type_fits : Option RoomType → RoomType → Bool
type_fits none t = true
type_fits (some wanted) t = same_type t wanted

abbrev pub at_least : ℕ → Option ℕ → Bool
at_least t none = true
at_least t (some lo) = leb lo t

abbrev pub at_most : ℕ → Option ℕ → Bool
at_most t none = true
at_most t (some hi) = leb t hi

-- `max_age IS NULL OR max_age >= wanted`
abbrev pub reaches_age : Option ℕ → Option ℕ → Bool
reaches_age max_age none = true
reaches_age none (some wanted) = true
reaches_age (some max_age) (some wanted) = leb wanted max_age

-- `min_age IS NULL OR min_age <= wanted`
abbrev pub starts_at_age : Option ℕ → Option ℕ → Bool
starts_at_age min_age none = true
starts_at_age none (some wanted) = true
starts_at_age (some min_age) (some wanted) = leb min_age wanted

-- the filters of the query
unfoldable pub fits : RoomQuery → Room → Bool
fits q room =
    region_fits q.region room.region
    && (type_fits q.room_type room.room_type
        && (at_least room.starts_at q.starts_after
            && (at_most room.starts_at q.starts_before
                && (reaches_age room.max_age q.min_age && starts_at_age room.min_age q.max_age))))

-- the WHERE clause of `base`
unfoldable pub is_listed : RoomQuery → Room → Bool
unfolding fits
is_listed q room = (is_public room.visibility && is_listed_status room.status) && fits q room

abbrev pub starts_first : Room → Room → Bool
starts_first a b = leb a.starts_at b.starts_at

-- The query orders by the start only. Rooms of equal start come in the order in which the database
-- finds them, which may be another one for each query: `rank` is that order.
abbrev pub comes_first : (Room → ℕ) → Room → Room → Bool
comes_first rank a b =
    if a.starts_at == b.starts_at then leb (rank a) (rank b) else leb a.starts_at b.starts_at

-- the rows of `base` in their order, of which a call sends one page
unfoldable pub listed_rooms : (Room → ℕ) → Db → RoomQuery → List Room
unfolding is_listed
listed_rooms rank db q = order_by (comes_first rank) (select (is_listed q) db.rooms)

unfoldable pub list_public_rooms : (Room → ℕ) → Db → RoomQuery → ℕ → ℕ → List Room × ℕ
unfolding is_listed listed_rooms
list_public_rooms rank db q limit offset =
    (page limit offset (listed_rooms rank db q), count (is_listed q) db.rooms)

unfoldable pub get_public_room : Db → ℕ → Result Room
get_public_room db room_id = do
  room ← or_raise (get room_id db.rooms) (not_found ErrorCode.room_not_found)
  require (is_viewable room.status) (not_found ErrorCode.room_not_found)
  ok room

-- `PlannerBrief`, without the rating
pub record PlannerBrief : Type 0 where
  pub id : ℕ
  pub name : String
  pub bio : Option String
  pub region : Option String
  pub total_rooms : ℕ

pub record RoomListItem : Type 0 where
  pub id : ℕ
  pub title : String
  pub subtitle : Option String
  pub room_type : RoomType
  pub status : RoomStatus
  pub region : String
  pub starts_at : ℕ
  pub ends_at : ℕ
  pub min_age : Option ℕ
  pub max_age : Option ℕ
  pub price_amount : ℕ
  pub deposit_amount : ℕ
  pub currency : String
  pub male_capacity : ℕ
  pub female_capacity : ℕ
  pub application_deadline : Option ℕ
  pub planner : Option PlannerBrief

abbrev pub brief : Option Planner → Option PlannerBrief
brief none = none
brief (some p) = some (record {
  id = p.id;
  name = p.name;
  bio = p.bio;
  region = p.region;
  total_rooms = p.total_rooms;
})

-- the relationship `room.planner`, which the query loads
abbrev pub planner_of : Db → Option ℕ → Option Planner
planner_of db none = none
planner_of db (some planner_id) = get planner_id db.planners

unfoldable pub to_list_item : Db → Room → RoomListItem
to_list_item db room = record {
  id = room.id;
  title = room.title;
  subtitle = room.subtitle;
  room_type = room.room_type;
  status = room.status;
  region = room.region;
  starts_at = room.starts_at;
  ends_at = room.ends_at;
  min_age = room.min_age;
  max_age = room.max_age;
  price_amount = room.price_amount;
  deposit_amount = room.deposit_amount;
  currency = room.currency;
  male_capacity = room.male_capacity;
  female_capacity = room.female_capacity;
  application_deadline = room.application_deadline;
  planner = brief (planner_of db room.planner_id);
}

-- the item's fields stand in `item`
pub record RoomDetail : Type 0 where
  pub item : RoomListItem
  pub description : Option String
  pub venue_name : Option String
  pub venue_address : Option String
  pub visibility : RoomVisibility
  pub capacity_summary : RoomCapacitySummary

unfoldable pub to_detail : Db → Room → RoomCapacitySummary → RoomDetail
unfolding to_list_item
to_detail db room capacity = record {
  item = to_list_item db room;
  description = room.description;
  venue_name = room.venue_name;
  venue_address = room.venue_address;
  visibility = room.visibility;
  capacity_summary = capacity;
}
