-- ===== src/DonationIntake/Stocked.antt =====
-- From the entry of a donation to the stock of the warehouse.
use dmis_feature_branch.Base.{
  ℕ, ◌+◌, ◌≡◌, refl, ap, subst, String, Option, none, List, [], ◌∷◌, arith, total, All,
}
use dmis_feature_branch.Base.Table.{first}
use dmis_feature_branch.Base.Action.{ok}
use dmis_feature_branch.Store.{Text, StockKey}
use dmis_feature_branch.DonationIntake.Rows.{DonationIntakeItem, Depot, is_intake}
use dmis_feature_branch.DonationIntake.Check.{VerifyForm}
use dmis_feature_branch.DonationIntake.Verify.{verify_intake}
use dmis_feature_branch.DonationIntake.Entry.{IntakeForm, Good, goods_items}
use dmis_feature_branch.DonationIntake.Record.{intake_form}
use dmis_feature_branch.DonationIntake.Sorted.{of_item}
use dmis_feature_branch.DonationIntake.Kept.{
  Settled, lines_of, held_total, IsPosted, verify_intake-IsPosted,
}
use dmis_feature_branch.DonationIntake.Recorded.{
  of_good, AllRecordedInFull, IsEntered, intake_form-IsEntered,
}

-- the key of a good's stock in a warehouse
abbrev pub good_key : ℕ → Good → StockKey
good_key warehouse g = record { item_id = g.0.item_id; inventory_id = warehouse }

of_good_same :
    (warehouse : ℕ) (g : Good) (rs : List DonationIntakeItem)
    → total (of_item (good_key warehouse g) warehouse) rs ≡ total (of_good g.0.item_id) rs
of_good_same w g [] = refl
of_good_same w g (r ∷ rs) = ground (arith, of_good_same w g rs)

-- Every good of the donation has come to the warehouse in full.
abbrev pub AllStocked : ℕ → Depot → Depot → List Good → Type 0
AllStocked warehouse s u =
    All (λ g.
      held_total (good_key warehouse g) u ≡ held_total (good_key warehouse g) s + g.0.item_qty)

stocked :
    (donation warehouse : ℕ) (s t u : Depot) (goods : List Good)
    → t.stock ≡ s.stock
    → AllRecordedInFull donation warehouse t goods
    → ((k : StockKey)
        → held_total k u
          ≡ held_total k t + total (of_item k warehouse) (lines_of donation warehouse t))
    → AllStocked warehouse s u goods
stocked d w s t u [] same full posted = tt
stocked d w s t u (g ∷ goods) same full posted = (
  omega (
    arith,
    posted (good_key w g),
    full.0,
    of_good_same w g (lines_of d w t),
    ap (λ db. held_total (good_key w g) (record s { stock = db })) same,
  ),
  stocked d w s t u goods same full.1 posted,
)

-- A donation that is entered for a warehouse, and whose entry is then verified, is in the stock in
-- full: of each of its goods the batches of the warehouse hold the donated quantity more than before,
-- usable, defective and expired together, however the two forms split it.
pub verify_intake_after_entry :
    (clerk manager : String) (now later today later_day : ℕ) (donation warehouse : ℕ)
    (upper : Text → Text) (accepts : Depot → Option String) (f : IntakeForm) (form : ℕ → VerifyForm)
    (s t u : Depot)
    → (first (is_intake donation warehouse) s.intakes ≡ none → lines_of donation warehouse s ≡ [])
    → intake_form clerk now donation warehouse upper today accepts f s ≡ (ok tt, t)
    → verify_intake manager later upper later_day accepts donation warehouse form t ≡ (ok tt, u)
    → AllStocked warehouse s u (goods_items donation s.items s.donation_items)
verify_intake_after_entry c m n n' d d' donation warehouse upper accepts f form s t u kept e v =
    let entered : IsEntered donation warehouse f s t =
      subst (λ r. Settled s (IsEntered donation warehouse f s) r) e
        (intake_form-IsEntered c n donation warehouse upper d accepts s kept f) in
    let posted : IsPosted donation warehouse t u =
      subst (λ r. Settled t (IsPosted donation warehouse t) r) v
        (verify_intake-IsPosted m n' upper d' accepts donation warehouse form t) in
    stocked donation warehouse s t u (goods_items donation s.items s.donation_items) entered.2
      entered.0 posted.0
