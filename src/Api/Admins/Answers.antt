-- ===== src/Api/Admins/Answers.antt =====
-- What the route that blocks an account answers.
use mathlib.Core.List.{reverse, reverse-append}
use rolling_api.Prelude.{
  ℕ, ◌≡◌, ◌≢◌, refl, ap, ◌∙◌, inl, inr, true, Option, none, some, List, [], ◌∷◌, ◌++◌, map, arith,
  ◌==◌, if◌then◌else◌, find, select, get, get-save_self, save, key-get, page, take, drop,
  outer_join, pair_or_none, Option-cases, ok, Result-cases,
}
use rolling_api.Model.{Db, User, UserStatus, Profile, user_row}
use rolling_api.Admin.{Actor, set_user_status, log_action}
use rolling_api.Admin.Lists.{AdminUserItem, list_users, user_item, profile_on}
use rolling_api.Api.{Http, actor_of, ◌>>=◌, query, read, call, commit, run}
use rolling_api.Api.Admins.{block_user, found_or_first}

save-last :
    (u last : User) (us : List User)
    → last.id ≢ u.id
    → save u (us ++ last ∷ []) ≡ save u us ++ last ∷ []
unfolding save
save-last u last [] ne = ground (arith, ne)
save-last u last (x ∷ us) ne =
    ap (λ l. (if x.id == u.id then u else x) ∷ l) (save-last u last us ne)

-- the first row of an outer join
first_row :
    (last : User) (ps : List Profile) (rest : List (User × Option Profile))
    → (p : Option Profile) × (take 1 (pair_or_none last ps ++ rest) ≡ (last, p) ∷ [])
unfolding take pair_or_none
first_row last [] rest = (none, refl)
first_row last (p ∷ []) rest = (some p, refl)
first_row last (p ∷ q ∷ ps) rest = (some p, refl)

-- A page of one account is that of the newest.
newest_page :
    (db : Db) (us : List User) (last : User)
    → db.users ≡ us ++ last ∷ []
    → (p : Option Profile) × (list_users db none none 1 0 ≡ user_item (last, p) ∷ [])
unfolding list_users page drop outer_join select
newest_page db us last e =
    let back : reverse db.users ≡ last ∷ reverse us =
      ap reverse e ∙ reverse-append us (last ∷ []) in
    let others = outer_join profile_on (select (λ (u : User). true) (reverse us)) db.profiles in
    let (p, first) = first_row last (select (profile_on last) db.profiles) others in
    (p, rw back (ap (map user_item) first))

set_parts :
    (db db' : Db) (actor : Actor) (k : ℕ) (s : UserStatus) (u : User)
    → set_user_status db actor k s ≡ ok (u, db')
    → (u.id ≡ k) × (db'.users ≡ save u db.users) × (get k db'.users ≡ some u) × (u.status ≡ s)
unfolding set_user_status log_action
set_parts db db' actor k s u h = elim (Option-cases (get k db.users)) [
  | inl absent ↦ absurd (ground (arith, absent, h))
  | inr (old, found) ↦
      let key : u.id ≡ k = ground (arith, found, h, key-get k db.users old found) in
      let wrote : db'.users ≡ save u db.users = ground (arith, found, h) in
      let at_id : get u.id db.users ≡ some old = ground (arith, key, found) in
      let there = get-save_self u db.users old at_id in
      (key, wrote, ground (arith, wrote, key, there), ground (arith, found, h))
]

one_item :
    (k : ℕ) (only item : AdminUserItem)
    → only.id ≢ k
    → found_or_first (find (λ (x : AdminUserItem). x.id == k) (only ∷ [])) (only ∷ []) ≡ ok item
    → item ≡ only
unfolding find
one_item k only item ne h = ground (arith, ne, h)

-- Whoever is blocked, the answer is about the newest account: where that is another one than the
-- account to block and the request is answered by an item, the account is committed as BLOCKED, and
-- the item is that of the newest account, with the status that one has.
pub block_answers_newest :
    (http : Http) (user : User) (k : ℕ) (db : Db) (us : List User) (last : User)
    (item : AdminUserItem)
    → db.users ≡ us ++ last ∷ []
    → last.id ≢ k
    → (run (block_user http user k) db).0 ≡ ok item
    → (item.id ≡ last.id)
      × (item.status ≡ last.status)
      × ((u : User) × (get k (run (block_user http user k) db).1.users ≡ some u)
          × (u.status ≡ UserStatus.blocked))
unfolding block_user ◌>>=◌ query read call commit
block_answers_newest http user k db us last item e ne answered =
    elim (Result-cases (set_user_status db (actor_of http user) k UserStatus.blocked)) [
      | inr (e', refused) ↦ absurd (ground (arith, refused, answered))
      | inl ((u, db'), returned) ↦
          let (key, users, there, blocked) =
            set_parts db db' (actor_of http user) k UserStatus.blocked u returned in
          let apart : last.id ≢ u.id = λ same. ne (same ∙ key) in
          let saved : db'.users ≡ save u us ++ last ∷ [] =
            users ∙ ap (save u) e ∙ save-last u last us apart in
          let (p, page) = newest_page db' (save u us) last saved in
          let same =
            one_item u.id (user_item (last, p)) item apart (rw (returned, page) at answered) in
          (
            ap (λ (x : AdminUserItem). x.id) same,
            ap (λ (x : AdminUserItem). x.status) same,
            (u, rw returned there, blocked),
          )
    ]
