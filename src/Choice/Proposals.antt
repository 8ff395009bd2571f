-- ===== src/Choice/Proposals.antt =====
-- `list_my_matches` and `propose_after_date` of app/services/choice_service.py.
use rolling_api.Prelude.{
  ℕ, String, Bool, true, false, ◌&&◌, ◌||◌, Option, none, some, List, [], ◌∷◌, ◌++◌, map, leb, ◌==◌,
  if◌then◌else◌, any, find, select, get, save, Result, ok, ErrorCode, forbidden, not_found,
  invalid_state_transition, ◌>>=◌, ◌>>◌, require, or_raise,
}
use rolling_api.Model.{
  Db, User, Profile, Room, MatchResult, MatchStatus, AfterDateProposal, AfterDateProposalStatus,
  room_row, choice_row, match_row,
}
use rolling_api.Choice.{ensure_attended, is_current}

abbrev pub is_mine : User → MatchResult → Bool
is_mine user m = m.user_a_id == user.id || m.user_b_id == user.id

-- `status.in_((MUTUAL, AFTER_PROPOSED, AFTER_CONFIRMED))`
abbrev pub is_shown : MatchStatus → Bool
is_shown MatchStatus.mutual_match = true
is_shown MatchStatus.after_proposed = true
is_shown MatchStatus.after_confirmed = true
is_shown _ = false

abbrev pub is_visible : Option ℕ → ℕ → Bool
is_visible none now = true
is_visible (some t) now = leb t now

abbrev pub in_my_list : Room → User → ℕ → ℕ → MatchResult → Bool
in_my_list room user room_id now m =
    m.room_id == room_id
    && (is_mine user m
        && (is_shown m.status && (room.host_user_id == user.id || is_visible m.visible_at now)))

pub record MatchSummary : Type 0 where
  pub id : ℕ
  pub room_id : ℕ
  pub status : MatchStatus
  pub counterpart_user_id : ℕ
  pub counterpart : Option Profile
  pub after_proposed : Bool

abbrev pub counterpart_of : User → MatchResult → ℕ
counterpart_of user m = if m.user_a_id == user.id then m.user_b_id else m.user_a_id

-- `p.display_name if p else None` and the other columns of the counterpart are the profile's
abbrev pub summary_of : Db → User → MatchResult → MatchSummary
summary_of db user m =
    let cid = counterpart_of user m in
    record {
      id = m.id;
      room_id = m.room_id;
      status = m.status;
      counterpart_user_id = cid;
      counterpart = find (λ (p : Profile). p.user_id == cid) db.profiles;
      after_proposed = any (λ (q : AfterDateProposal). q.match_result_id == m.id) db.proposals;
    }

unfoldable pub list_my_matches : Db → User → ℕ → ℕ → Result (List MatchSummary)
list_my_matches db user room_id now = do
  room ← or_raise (get room_id db.rooms) (not_found ErrorCode.room_not_found)
  _ ← ensure_attended db user room.id
  ok (map (summary_of db user) (select (in_my_list room user room_id now) db.matches))

abbrev pub is_mutual : MatchStatus → Bool
is_mutual MatchStatus.mutual_match = true
is_mutual _ = false

abbrev pub new_proposal : MatchResult → User → Option ℕ → Option String → ℕ → AfterDateProposal
new_proposal m user date place id = record {
  id = id;
  match_result_id = m.id;
  proposer_id = user.id;
  proposed_date = date;
  proposed_place = place;
  status = AfterDateProposalStatus.proposed;
}

abbrev pub proposed_status : MatchStatus → MatchStatus
proposed_status s = if is_mutual s then MatchStatus.after_proposed else s

unfoldable pub propose_after_date :
    Db → User → ℕ → Option ℕ → Option String → ℕ → Result (AfterDateProposal × Db)
propose_after_date db user match_id date place id = do
  m ← or_raise (get match_id db.matches) (not_found ErrorCode.match_not_found)
  require (is_mine user m) forbidden
  require (is_current m.status) invalid_state_transition
  let q = new_proposal m user date place id
  ok (
    q,
    record db {
      proposals = db.proposals ++ q ∷ [];
      matches = save (record m { status = proposed_status m.status }) db.matches;
    },
  )
