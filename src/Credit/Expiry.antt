-- ===== src/Credit/Expiry.antt =====
-- `list_my_credits` flips the lapsed credits of its user, and changes nothing that can be spent.
use rolling_api.Prelude.{ℕ, ◌≤◌, ◌≡◌, refl, ap, List, [], ◌∷◌, map, arith, select, count}
use rolling_api.Model.{Db, Credit}
use rolling_api.Credit.{list_my_credits, active_credits, is_lapsed, lapse, is_usable}

select-lapse :
    (xs : List Credit) (user v now now' : ℕ)
    → now ≤ now'
    → select (is_usable v now') (map (lapse user now) xs) ≡ select (is_usable v now') xs
unfolding select
select-lapse [] user v now now' h = refl
select-lapse (c ∷ xs) user v now now' h = ground (arith, select-lapse xs user v now now' h)

count-lapse :
    (xs : List Credit) (user now : ℕ) → count (is_lapsed user now) (map (lapse user now) xs) ≡ 0
unfolding count
count-lapse [] user now = refl
count-lapse (c ∷ xs) user now = ground (arith, count-lapse xs user now)

map-lapse :
    (xs : List Credit) (user now : ℕ)
    → map (lapse user now) (map (lapse user now) xs) ≡ map (lapse user now) xs
map-lapse [] user now = refl
map-lapse (c ∷ xs) user now = ground (arith, map-lapse xs user now)

-- After the listing none of the user's ACTIVE credits has expired by the listing's time; a second
-- listing at that time leaves the database as it is; and from then on every user's spendable
-- credits are the same as without the listing.
pub list_my_credits_lem :
    (db : Db) (user v now now' : ℕ)
    → now ≤ now'
    → let (credits, db') = list_my_credits db user now in
      (count (is_lapsed user now) db'.credits ≡ 0)
      × ((list_my_credits db' user now).1 ≡ db')
      × (active_credits db' v now' ≡ active_credits db v now')
unfolding list_my_credits active_credits
list_my_credits_lem db user v now now' h = (
  count-lapse db.credits user now,
  ap (λ cs. record db { credits = cs }) (map-lapse db.credits user now),
  select-lapse db.credits user v now now' h,
)
