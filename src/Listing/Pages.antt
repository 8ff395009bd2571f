-- ===== src/Listing/Pages.antt =====
-- What the public list sends, over all pages, and that what it sends can be opened and applied to.
use rolling_api.Prelude.{
  ℕ, zero, suc, ◌+◌, ◌*◌, ◌≤◌, ◌≡◌, refl, ap, ◌∙◌, Bool, true, ◌&&◌, List, [], ◌∷◌, ◌++◌, arith,
  count, select, All, IsOrdered, pages, page, pages_all, count-order_by, length, length-order_by,
  length-select, order_by-IsOrdered, page-IsOrdered, All-page, IsOrdered-weaken, order_by-agree,
  Pairwise, not, ◌==◌, All-order_by, select_All, All-map,
}
use rolling_api.Model.{Db, Room, room_row}
use rolling_api.Application.{is_open_for_applications}
use rolling_api.Listing.{
  RoomQuery, is_listed, fits, listed_rooms, list_public_rooms, starts_first, comes_first, is_public,
}

abbrev pub starts_apart : Room → Room → Bool
starts_apart a b = not (a.starts_at == b.starts_at)

-- what a client reads who asks for `n` pages of `limit` rooms, each with the next offset; each query
-- has its own order of rooms that start together, the first one `ranks 0`
unfoldable pub read_pages : (ℕ → Room → ℕ) → Db → RoomQuery → ℕ → ℕ → ℕ → List Room
read_pages ranks db q limit offset zero = []
read_pages ranks db q limit offset (suc n) =
    (list_public_rooms (ranks 0) db q limit offset).0
    ++ read_pages (λ i. ranks (suc i)) db q limit (offset + limit) n

abbrev no_rank : Room → ℕ
no_rank room = 0

-- Where no two listed rooms start together, the order is the same for every query.
listed_once :
    (rank : Room → ℕ) (db : Db) (q : RoomQuery)
    → Pairwise starts_apart (select (is_listed q) db.rooms)
    → listed_rooms rank db q ≡ listed_rooms no_rank db q
unfolding listed_rooms
listed_once rank db q h =
    order_by-agree (comes_first rank) (comes_first no_rank) starts_apart
      (λ x y k. ground (arith, k)) _ h

read_pages-pages :
    (ranks : ℕ → Room → ℕ) (db : Db) (q : RoomQuery) (limit offset n : ℕ)
    → Pairwise starts_apart (select (is_listed q) db.rooms)
    → read_pages ranks db q limit offset n ≡ pages limit offset n (listed_rooms no_rank db q)
unfolding read_pages pages list_public_rooms
read_pages-pages ranks db q limit offset zero h = refl
read_pages-pages ranks db q limit offset (suc n) h =
    ap (λ l. page limit offset l ++ read_pages (λ i. ranks (suc i)) db q limit (offset + limit) n)
      (listed_once (ranks 0) db q h)
    ∙ ap (λ l. page limit offset (listed_rooms no_rank db q) ++ l)
        (read_pages-pages (λ i. ranks (suc i)) db q limit (offset + limit) n h)

length-listed :
    (rank : Room → ℕ) (db : Db) (q : RoomQuery)
    → length (listed_rooms rank db q) ≡ count (is_listed q) db.rooms
unfolding listed_rooms
length-listed rank db q =
    length-order_by (comes_first rank) _ ∙ length-select (is_listed q) db.rooms

count-select :
    (p r : Room → Bool) (xs : List Room) → count r (select p xs) ≡ count (λ x. p x && r x) xs
unfolding select count
count-select p r [] = refl
count-select p r (x ∷ xs) = ground (arith, count-select p r xs)

-- Where no two of the rooms that match start at the same time, a client that reads pages until it
-- has asked for as many rooms as the total says reads every room that matches, exactly as often as
-- the table has it, and no other, in whichever order each query finds rooms that start together: any
-- test of rooms holds for as many of the rooms read as of the rooms in the table that are public, in
-- an open status and fit.
pub pages_are_complete :
    (ranks : ℕ → Room → ℕ) (db : Db) (q : RoomQuery) (limit n : ℕ) (test : Room → Bool)
    → Pairwise starts_apart (select (is_listed q) db.rooms)
    → (list_public_rooms (ranks 0) db q limit 0).1 ≤ n * limit
    → count test (read_pages ranks db q limit 0 n)
      ≡ count (λ room. is_listed q room && test room) db.rooms
unfolding list_public_rooms
pages_are_complete ranks db q limit n test apart h =
    ap (count test) (
      read_pages-pages ranks db q limit 0 n apart
      ∙ pages_all limit n (listed_rooms no_rank db q)
          (omega (arith, length-listed no_rank db q, h)))
    ∙ unfold listed_rooms in
      count-order_by test (comes_first no_rank) _ ∙ count-select (is_listed q) test db.rooms

listed_parts :
    (q : RoomQuery) (room : Room)
    → is_listed q room ≡ true
    → (is_public room.visibility && is_open_for_applications room.status) && fits q room ≡ true
unfolding is_listed
listed_parts q room h = ground (arith, h)

listed-IsOrdered :
    (rank : Room → ℕ) (db : Db) (q : RoomQuery) → IsOrdered starts_first (listed_rooms rank db q)
unfolding listed_rooms
listed-IsOrdered rank db q =
    IsOrdered-weaken (comes_first rank) starts_first (λ x y h. ground (arith, h)) _
      (order_by-IsOrdered (comes_first rank) (λ x y h. ground (arith, h))
        (λ x y z h k. ground (arith, h, k)) _)

-- Every page of the public list is in the order of the start times, in whichever order the query
-- finds rooms that start together, and each of its rooms is public, in a status that takes
-- applications, and fits the query.
pub public_page-IsOrdered :
    (rank : Room → ℕ) (db : Db) (q : RoomQuery) (limit offset : ℕ)
    → IsOrdered starts_first (list_public_rooms rank db q limit offset).0
      × All
          (λ (room : Room).
            (is_public room.visibility && is_open_for_applications room.status) && fits q room
            ≡ true)
          (list_public_rooms rank db q limit offset).0
unfolding list_public_rooms
public_page-IsOrdered rank db q limit offset = (
  page-IsOrdered starts_first limit offset _ (listed-IsOrdered rank db q),
  All-map _ _ (page limit offset (listed_rooms rank db q)) (listed_parts q) (
      All-page (is_listed q) limit offset _
        (All-order_by (comes_first rank) (is_listed q) _ (select_All (is_listed q) db.rooms))),
)
