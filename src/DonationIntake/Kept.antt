-- ===== src/DonationIntake/Kept.antt =====
-- The verification of an intake keeps the invariants of the stock, adds to it exactly the quantities
-- of the intake, and happens once.
use dmis_feature_branch.Base.{
  ℕ, ◌+◌, ◌≡◌, refl, sym, ap, ◌∙◌, subst, inl, inr, String, true, Option, none, some, List, [], ◌∷◌,
  arith, ◌==◌, filter, total, ⊤, if◌then◌else◌, Bool-cases,
}
use dmis_feature_branch.Base.Table.{first, modify, first-modify_self, first_holds}
use dmis_feature_branch.Base.Action.{Result, ok, err}
use dmis_feature_branch.Store.{Text, StockKey}
use dmis_feature_branch.Store.Query.{in_stock}
use dmis_feature_branch.DonationIntake.Rows.{
  DonationIntake, DonationIntakeItem, Depot, is_intake, of_intake,
}
use dmis_feature_branch.DonationIntake.Check.{VerifyForm, LineError, Verified}
use dmis_feature_branch.DonationIntake.Failures.{IntakeFailure, already_verified}
use dmis_feature_branch.DonationIntake.Verify.{
  add_to_batch, new_batch, post, post_all, post_intake, mark_verified,
  process_verification_submission, verify_found, verify_intake, checked_lines, post_checked, commit,
}
use dmis_feature_branch.DonationIntake.Posted.{IsReceived, post-IsReceived, total-post_batches}
use dmis_feature_branch.DonationIntake.Sorted.{held, of_item, of_line, total-check_lines}

-- what the batches of an item in a warehouse hold
abbrev pub held_total : StockKey → Depot → ℕ
held_total k s = total (λ b. if in_stock k b then held b else 0) s.stock.batches

module _ (user : String) (now : ℕ) where
  held_total-post :
      (warehouse : ℕ) (k : StockKey) (v : Verified) (s : Depot)
      → held_total k (post user now warehouse v s) ≡ held_total k s + of_line k warehouse v
  unfolding post add_to_batch new_batch
  held_total-post w k v s =
      let sum =
        total-post_batches user now w v held (v.usable_qty + v.defective_qty + v.expired_qty)
          s.next_batch_id k s.stock.batches (λ b. omega arith) refl in
      ground arith

  held_total-post_all :
      (warehouse : ℕ) (k : StockKey) (vs : List Verified) (s : Depot)
      → held_total k (post_all user now warehouse vs s)
        ≡ held_total k s + total (of_line k warehouse) vs
  unfolding post_all
  held_total-post_all w k [] s = omega arith
  held_total-post_all w k (v ∷ vs) s =
      omega (arith, held_total-post_all w k vs (post user now w v s), held_total-post w k v s)

  post_all-IsReceived :
      (warehouse : ℕ) (vs : List Verified) (s : Depot)
      → IsReceived s.stock
      → IsReceived (post_all user now warehouse vs s).stock
  unfolding post_all
  post_all-IsReceived w [] s h = h
  post_all-IsReceived w (v ∷ vs) s h =
      post_all-IsReceived w vs (post user now w v s) (post-IsReceived user now w v s h)

  post_all_intakes :
      (warehouse : ℕ) (vs : List Verified) (s : Depot)
      → (post_all user now warehouse vs s).intakes ≡ s.intakes
  unfolding post_all post
  post_all_intakes w [] s = refl
  post_all_intakes w (v ∷ vs) s = post_all_intakes w vs (post user now w v s)

-- What a call made of the depot `s`: nothing if it failed, and what `P` says if it succeeded.
abbrev pub Settled : Depot → (Depot → Type 0) → Result IntakeFailure ⊤ × Depot → Type 0
Settled s P (ok a, t) = P t
Settled s P (err e, t) = t ≡ s

-- the lines of an intake
abbrev pub lines_of : ℕ → ℕ → Depot → List DonationIntakeItem
lines_of donation warehouse s = filter (of_intake donation warehouse) s.intake_items

-- The batches hold what they held and the quantities of the intake, item by item; and the intake is on
-- file as verified.
abbrev pub IsPosted : ℕ → ℕ → Depot → Depot → Type 0
IsPosted donation warehouse s t =
    ((k : StockKey)
      → held_total k t
        ≡ held_total k s + total (of_item k warehouse) (lines_of donation warehouse s))
    × ((i : DonationIntake) × (first (is_intake donation warehouse) t.intakes ≡ some i)
        × (i.status_code ≡ b'V'))

module _ (i : DonationIntake) (donation warehouse : ℕ) where
  donation_of : is_intake donation warehouse i ≡ true → i.donation_id ≡ donation
  donation_of h = ground arith

  warehouse_of : is_intake donation warehouse i ≡ true → i.inventory_id ≡ warehouse
  warehouse_of h = ground arith

  own_intake :
      (is : List DonationIntake)
      → is_intake donation warehouse i ≡ true
      → first (is_intake donation warehouse) is ≡ some i
      → first (is_intake i.donation_id i.inventory_id) is ≡ some i
  own_intake is h e =
      subst (λ d. first (is_intake d i.inventory_id) is ≡ some i) (sym (donation_of h))
        (subst (λ w. first (is_intake donation w) is ≡ some i) (sym (warehouse_of h)) e)

module _ (user : String) (now : ℕ) (upper : Text → Text) (today : ℕ)
    (accepts : Depot → Option String) where
  module _ (s : Depot) (i : DonationIntake)
      (found : first (is_intake i.donation_id i.inventory_id) s.intakes ≡ some i) where
    post_intake-IsPosted :
        (lines : List Verified)
        → ((k : StockKey)
            → total (of_line k i.inventory_id) lines
              ≡ total (of_item k i.inventory_id) (lines_of i.donation_id i.inventory_id s))
        → IsPosted i.donation_id i.inventory_id s (post_intake user now i lines s)
    unfolding post_intake mark_verified
    post_intake-IsPosted lines sum =
        let own = is_intake i.donation_id i.inventory_id in
        let marked = record s { intakes = modify own (mark_verified user now) s.intakes } in
        (
          λ k.
              held_total-post_all user now i.inventory_id k lines marked
              ∙ ap (λ n. held_total k s + n) (sum k),
          (
            mark_verified user now i,
            ap (first own) (post_all_intakes user now i.inventory_id lines marked)
                ∙ first-modify_self own (mark_verified user now) s.intakes i found
                    (first_holds own s.intakes i found),
            refl,
          ),
        )

    commit_settles :
        (P : Depot → Type 0) (t : Depot) (answer : Option String)
        → P t
        → Settled s P (commit user now upper today accepts s t answer)
    commit_settles P t none h = h
    commit_settles P t (some e) h = refl

    post_checked-IsPosted :
        (cl : List (ℕ × LineError) × List Verified)
        → ((k : StockKey)
            → cl.0 ≡ []
            → total (of_line k i.inventory_id) cl.1
              ≡ total (of_item k i.inventory_id) (lines_of i.donation_id i.inventory_id s))
        → Settled s
            (IsPosted i.donation_id i.inventory_id s)
            (post_checked user now upper today accepts i cl s)
    post_checked-IsPosted ([], lines) sum =
        let posted = post_intake user now i lines s in
        commit_settles (IsPosted i.donation_id i.inventory_id s) posted (accepts posted)
          (post_intake-IsPosted lines (λ k. sum k refl))
    post_checked-IsPosted (e ∷ es, lines) sum = refl

    process-IsPosted :
        (form : ℕ → VerifyForm)
        → Settled s
            (IsPosted i.donation_id i.inventory_id s)
            (process_verification_submission user now upper today accepts i form s)
    unfolding process_verification_submission
    process-IsPosted form =
        post_checked-IsPosted (checked_lines user now upper today accepts i form s) (λ k.
          total-check_lines upper today s.items _ form (lines_of i.donation_id i.inventory_id s) k
            i.inventory_id)

  verify_found-IsPosted :
      (donation warehouse : ℕ) (o : Option DonationIntake) (form : ℕ → VerifyForm) (s : Depot)
      → first (is_intake donation warehouse) s.intakes ≡ o
      → Settled s
          (IsPosted donation warehouse s)
          (verify_found user now upper today accepts o form s)
  unfolding verify_found
  verify_found-IsPosted donation warehouse none form s e = refl
  verify_found-IsPosted donation warehouse (some i) form s e =
      let own = first_holds (is_intake donation warehouse) s.intakes i e in
      elim (Bool-cases (i.status_code == b'C')) [
        | inl t ↦ rw t (
            subst
              (λ d.
                Settled s (IsPosted d warehouse s)
                  (process_verification_submission user now upper today accepts i form s))
              (donation_of i donation warehouse own)
              (subst
                (λ w.
                  Settled s (IsPosted i.donation_id w s)
                    (process_verification_submission user now upper today accepts i form s))
                (warehouse_of i donation warehouse own)
                (process-IsPosted s i (own_intake i donation warehouse s.intakes own e) form)))
        | inr t ↦
            rw t
              (elim (Bool-cases (i.status_code == b'V')) [ inl u ↦ rw u refl | inr u ↦ rw u refl ])
      ]

  -- A verification that succeeds adds the quantities of the intake's lines to the batches of their
  -- items in the warehouse, no more and no less, and leaves the intake verified; one that fails
  -- changes nothing.
  pub verify_intake-IsPosted :
      (donation warehouse : ℕ) (form : ℕ → VerifyForm) (s : Depot)
      → Settled s
          (IsPosted donation warehouse s)
          (verify_intake user now upper today accepts donation warehouse form s)
  unfolding verify_intake
  verify_intake-IsPosted donation warehouse form s =
      verify_found-IsPosted donation warehouse (first (is_intake donation warehouse) s.intakes) form
        s refl

  process-IsReceived :
      (i : DonationIntake) (form : ℕ → VerifyForm) (s : Depot)
      → IsReceived s.stock
      → IsReceived (process_verification_submission user now upper today accepts i form s).1.stock
  unfolding process_verification_submission post_intake
  process-IsReceived i form s h = branch (checked_lines user now upper today accepts i form s)
    where
      marked : Depot
      marked = record s {
        intakes =
            modify (is_intake i.donation_id i.inventory_id) (mark_verified user now) s.intakes;
      }

      answered :
          (lines : List Verified) (answer : Option String)
          → IsReceived
              (commit user now upper today accepts s
                (post_intake user now i lines s)
                answer).1.stock
      answered lines none = post_all-IsReceived user now i.inventory_id lines marked h
      answered lines (some e) = h

      branch :
          (cl : List (ℕ × LineError) × List Verified)
          → IsReceived (post_checked user now upper today accepts i cl s).1.stock
      branch ([], lines) = answered lines (accepts (post_intake user now i lines s))
      branch (e ∷ es, lines) = h

  -- Whether a verification succeeds or fails, it keeps the invariants of the stock: no batch has more
  -- reserved than usable; the reserved and the usable quantity of each active warehouse row are the
  -- sums over its batches; and each batch has a row.
  pub verify_intake-IsReceived :
      (donation warehouse : ℕ) (form : ℕ → VerifyForm) (s : Depot)
      → IsReceived s.stock
      → IsReceived (verify_intake user now upper today accepts donation warehouse form s).1.stock
  unfolding verify_intake verify_found
  verify_intake-IsReceived donation warehouse form s h =
      branch (first (is_intake donation warehouse) s.intakes)
    where
      branch :
          (o : Option DonationIntake)
          → IsReceived (verify_found user now upper today accepts o form s).1.stock
      branch none = h
      branch (some i) = elim (Bool-cases (i.status_code == b'C')) [
        | inl t ↦ rw t (process-IsReceived i form s h)
        | inr t ↦
            rw t (elim (Bool-cases (i.status_code == b'V')) [ inl u ↦ rw u h | inr u ↦ rw u h ])
      ]

-- An intake that has just been verified is not verified again: a further call on the state that the
-- first one left, by anyone at any time, is refused, and changes nothing.
pub verify_intake_once :
    (user user' : String) (now now' : ℕ) (upper : Text → Text) (today today' : ℕ)
    (accepts : Depot → Option String) (donation warehouse : ℕ) (form form' : ℕ → VerifyForm)
    (s t : Depot)
    → verify_intake user now upper today accepts donation warehouse form s ≡ (ok tt, t)
    → verify_intake user' now' upper today' accepts donation warehouse form' t
      ≡ (err already_verified, t)
unfolding verify_intake verify_found
verify_intake_once u u' n n' upper d d' accepts donation warehouse f f' s t h =
    let posted = verify_intake-IsPosted u n upper d accepts donation warehouse f s in
    let (i, found, status) =
      (subst (λ r. Settled s (IsPosted donation warehouse s) r) h posted).1 in
    rw (found, verify_found, status) refl

-- A verification keeps the invariants of the stock, whether it succeeds or fails: no batch has more
-- reserved than usable; the reserved and the usable quantity of each active warehouse row are the
-- sums over its batches; and each batch has a row. If it succeeds, it adds the quantities of the
-- intake's lines to the batches of their items in the warehouse, no more and no less, and leaves the
-- intake verified; if it fails, it changes nothing.
pub verify_intake-IsSafe :
    (user : String) (now : ℕ) (upper : Text → Text) (today : ℕ) (accepts : Depot → Option String)
    (donation warehouse : ℕ) (form : ℕ → VerifyForm) (s : Depot)
    → IsReceived s.stock
    → IsReceived (verify_intake user now upper today accepts donation warehouse form s).1.stock
      × Settled s
          (IsPosted donation warehouse s)
          (verify_intake user now upper today accepts donation warehouse form s)
verify_intake-IsSafe user now upper today accepts donation warehouse form s h = (
  verify_intake-IsReceived user now upper today accepts donation warehouse form s h,
  verify_intake-IsPosted user now upper today accepts donation warehouse form s,
)
