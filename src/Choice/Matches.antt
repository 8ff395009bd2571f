-- ===== src/Choice/Matches.antt =====
-- Who sees a match, and who may propose a date from it.
use rolling_api.Prelude.{
  ℕ, String, ◌≡◌, ◌↔◌, ◌⊎◌, inl, inr, refl, true, Option, some, List, [], ◌∷◌, ◌++◌, map, arith,
  ◌==◌, is_some, find, select, get, save, key-get, All, Member, Bool-cases, ok,
}
use rolling_api.Model.{Db, User, Room, MatchResult, room_row, match_row}
use rolling_api.Choice.{ensure_attended, is_current, is_attendance}
use rolling_api.Choice.Proposals.{
  is_mine, is_shown, is_visible, in_my_list, summary_of, list_my_matches, MatchSummary,
  propose_after_date, new_proposal, proposed_status,
}

-- A summary shows a match of the user in that room, of a status that is shown, and, unless the
-- user is the room's host, after its embargo.
pub record IsEntitled (db : Db) (user : User) (room : Room) (room_id now : ℕ) (s : MatchSummary)
    : Type 0 where
  pub source : MatchResult
  pub stored : Member source db.matches
  pub same : s ≡ summary_of db user source
  pub in_room : source.room_id ≡ room_id
  pub mine : is_mine user source ≡ true
  pub shown : is_shown source.status ≡ true
  pub lifted : (room.host_user_id ≡ user.id) ⊎ (is_visible source.visible_at now ≡ true)

IsEntitled-from :
    (db : Db) (user : User) (room : Room) (room_id now : ℕ) (ms : List MatchResult)
    → ((m : MatchResult) → Member m ms → Member m db.matches)
    → All
        (IsEntitled db user room room_id now)
        (map (summary_of db user) (select (in_my_list room user room_id now) ms))
unfolding select
IsEntitled-from db user room room_id now [] inside = tt
IsEntitled-from db user room room_id now (m ∷ ms) inside =
    let rest = IsEntitled-from db user room room_id now ms (λ x h. inside x (inr h)) in
    elim (Bool-cases (in_my_list room user room_id now m)) [
      | inr out ↦ rw out rest
      | inl listed ↦ rw listed (
        record {
          source = m;
          stored = inside m (inl refl);
          same = refl;
          in_room = ground (arith, listed);
          mine = ground (arith, listed);
          shown = ground (arith, listed);
          lifted = elim (Bool-cases (room.host_user_id == user.id)) [
            | inl host ↦ inl (ground (arith, host))
            | inr guest ↦ inr (ground (arith, listed, guest))
          ];
        },
        rest,
      )
    ]

-- A list of matches that was returned went to a checked-in attendee, and shows no match before
-- its embargo to anyone but the room's host, and nobody a match that is not theirs.
pub listed_matches :
    (db : Db) (user : User) (room : Room) (room_id now : ℕ) (out : List MatchSummary)
    → get room_id db.rooms ≡ some room
    → list_my_matches db user room_id now ≡ ok out
    → (is_some (find (is_attendance room_id user.id) db.check_ins) ≡ true)
      × All (IsEntitled db user room room_id now) out
unfolding list_my_matches ensure_attended
listed_matches db user room room_id now out found h =
    let key = key-get room_id db.rooms room found in
    let is : out ≡ map (summary_of db user) (select (in_my_list room user room_id now) db.matches) =
      ground (arith, found, h) in
    (
      ground (arith, found, h, key),
      rw is (IsEntitled-from db user room room_id now db.matches (λ m i. i)),
    )

-- A proposal succeeds exactly for one of the two users of a match that is MUTUAL or AFTER_PROPOSED.
proposal_iff :
    (db : Db) (user : User) (k : ℕ) (m : MatchResult) (date : Option ℕ) (place : Option String)
    (id : ℕ)
    → get k db.matches ≡ some m
    → let q = new_proposal m user date place id in
      (propose_after_date db user k date place id
        ≡ ok (
          q,
          record db {
            proposals = db.proposals ++ q ∷ [];
            matches = save (record m { status = proposed_status m.status }) db.matches;
          },
        ))
      ↔ ((is_mine user m ≡ true) × (is_current m.status ≡ true))
unfolding propose_after_date
proposal_iff db user k m date place id found = (
  λ h. (ground (arith, found, h), ground (arith, found, h)),
  λ h. ground (arith, found, h.0, h.1),
)
