-- ===== src/Packaging/Handover.antt =====
-- A package is handed over once.
use dmis_feature_branch.Base.{
  ℕ, ◌≡◌, refl, ap, ◌∙◌, inl, inr, String, true, some, List, [], ◌∷◌, ⊤, ◌==◌, Bool-cases,
  Option-cases, arith, ==_iff,
}
use dmis_feature_branch.Base.Table.{first, modify, first_holds, first-modify_self}
use dmis_feature_branch.Base.Action.{Result, ok, err}
use dmis_feature_branch.Store.{Db, ReliefPkg}
use dmis_feature_branch.Dispatch.Submit.{is_package}
use dmis_feature_branch.Packaging.Routes.{
  Roles, RouteFailure, denied, no_warehouse, not_dispatched, handed_over, is_some, hand_over,
  handover_found, mark_handover,
}

-- the answer of a call that refuses and writes nothing
abbrev pub IsRefused : Db → Result RouteFailure ⊤ × Db → Type 0
IsRefused s r = (e : RouteFailure) × (r ≡ (err e, s))

found-IsRefused :
    (ws : List ℕ) (user : String) (now : ℕ) (p : ReliefPkg) (s : Db)
    → is_some p.received_dtime ≡ true
    → IsRefused s (handover_found ws user now p s)
unfolding handover_found
found-IsRefused ws user now p s h = elim (Bool-cases (p.status_code == b'D')) [
  | inl t ↦ rw t (rw h (handed_over, refl))
  | inr t ↦ rw t (not_dispatched, refl)
]

-- The tests on the package pass exactly if something is written.
handover_found_ok :
    (ws : List ℕ) (user : String) (now : ℕ) (p : ReliefPkg) (s t : Db)
    → handover_found ws user now p s ≡ (ok tt, t)
    → t.packages ≡ modify (is_package p.reliefpkg_id) (hand_over user now) s.packages
unfolding handover_found
handover_found_ok ws user now p s t h = ground arith

mark-IsRefused :
    (roles : Roles) (ws : List ℕ) (user : String) (now pkg : ℕ) (s : Db) (p : ReliefPkg)
    → first (is_package pkg) s.packages ≡ some p
    → is_some p.received_dtime ≡ true
    → IsRefused s (mark_handover roles ws user now pkg s)
unfolding mark_handover
mark-IsRefused roles [] user now pkg s p e h = elim (Bool-cases roles.clerk) [
  | inl t ↦ rw t (no_warehouse, refl)
  | inr t ↦ rw t (denied, refl)
]
mark-IsRefused roles (w ∷ ws) user now pkg s p e h = elim (Bool-cases roles.clerk) [
  | inl t ↦ rw t (rw (e, mark_handover) (found-IsRefused (w ∷ ws) user now p s h))
  | inr t ↦ rw t (denied, refl)
]

hand_over_keeps :
    (user : String) (now pkg : ℕ) (p : ReliefPkg)
    → is_package pkg p ≡ true
    → is_package pkg (hand_over user now p) ≡ true
unfolding hand_over
hand_over_keeps user now pkg p h = h

received :
    (user : String) (now : ℕ) (p : ReliefPkg) → is_some (hand_over user now p).received_dtime ≡ true
unfolding hand_over
received user now p = refl

-- A handover that succeeds has written to the package of that number.
handover_written :
    (roles : Roles) (ws : List ℕ) (user : String) (now pkg : ℕ) (s t : Db)
    → mark_handover roles ws user now pkg s ≡ (ok tt, t)
    → (p : ReliefPkg) × (first (is_package pkg) t.packages ≡ some (hand_over user now p))
unfolding mark_handover
handover_written roles [] user now pkg s t h = ground arith
handover_written roles (w ∷ ws) user now pkg s t h =
    elim (Option-cases (first (is_package pkg) s.packages)) [
      | inl e ↦ ground arith
      | inr (p, e) ↦
          let called : handover_found (w ∷ ws) user now p s ≡ (ok tt, t) = ground arith in
          let same : p.reliefpkg_id ≡ pkg =
            (==_iff p.reliefpkg_id pkg).0 (first_holds (is_package pkg) s.packages p e) in
          (
            p,
            ap (first (is_package pkg)) (handover_found_ok (w ∷ ws) user now p s t called)
                ∙ ap
                    (λ n.
                      first (is_package pkg)
                        (modify (is_package n) (hand_over user now) s.packages))
                    same
                ∙ first-modify_self (is_package pkg) (hand_over user now) s.packages p e
                    (hand_over_keeps user now pkg p (first_holds (is_package pkg) s.packages p e)),
          )
    ]

-- A package that has just been handed over cannot be handed over again: every further call on the
-- state that the first one left, by anyone at any time, is refused and changes nothing.
pub mark_handover_once :
    (roles : Roles) (ws : List ℕ) (user : String) (now pkg : ℕ) (s t : Db)
    → mark_handover roles ws user now pkg s ≡ (ok tt, t)
    → (roles' : Roles) (ws' : List ℕ) (user' : String) (now' : ℕ)
    → IsRefused t (mark_handover roles' ws' user' now' pkg t)
mark_handover_once roles ws user now pkg s t h roles' ws' user' now' =
    let (p, e) = handover_written roles ws user now pkg s t h in
    mark-IsRefused roles' ws' user' now' pkg t (hand_over user now p) e (received user now p)
