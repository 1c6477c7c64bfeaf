-- ===== src/Community/Views.antt =====
-- The views that a node asks for (network/community.py, `_next_view`).
use mathlib.Core.Path.{subst}
use hs_fob.Base.{
  ◌≡◌, refl, ◌∙◌, Bool, true, false, ◌||◌, List, [], ◌∷◌, map, ◌==◌, if◌then◌else◌, arith, keep,
}
use hs_fob.Base.Int.{ℤ, pos, ◌+ℤ◌, ltb_ℤ, leb_ℤ, int_eq, int_beq_iff}
use hs_fob.Base.Dict.{contains, keys, elem-keys}
use hs_fob.Base.Sets.{elem}
use hs_fob.Community.{AttestationCommunity, Slot, slot_eq, slot_equal_iff, highest, next_view}

highest-le : (v : ℤ) (vs : List ℤ) → elem v vs ≡ true → leb_ℤ v (highest vs) ≡ true
highest-le v [] h = absurd (cc)
highest-le v (w ∷ vs) h = ground (arith, h, int_beq_iff v w, highest-le v vs)

elem-view :
    (slot : Slot) (slots : List Slot)
    → elem slot slots ≡ true
    → elem slot.view (map Slot.view (keep (λ s. s.height == slot.height) slots)) ≡ true
elem-view slot [] h = absurd (cc)
elem-view slot (s ∷ slots) h = of (slot == s) refl (elem-view slot slots) h
  where
    of :
        (z : Bool)
        → (slot == s) ≡ z
        → (elem slot slots ≡ true
            → elem slot.view (map Slot.view (keep (λ s. s.height == slot.height) slots)) ≡ true)
        → (z || elem slot slots) ≡ true
        → elem slot.view (map Slot.view (keep (λ s. s.height == slot.height) (s ∷ slots))) ≡ true
    of true e rest q =
        subst
          (λ (x : Slot).
            elem slot.view (map Slot.view (keep (λ s. s.height == slot.height) (x ∷ slots))) ≡ true)
          ((slot_equal_iff slot s).0 e)
          (rw
            ((int_beq_iff slot.height slot.height).1 refl, (int_beq_iff slot.view slot.view).1 refl)
            refl)
    of false e rest q = later (s.height == slot.height) (rest q)
      where
        later :
            (z : Bool)
            → elem slot.view (map Slot.view (keep (λ s. s.height == slot.height) slots)) ≡ true
            → elem slot.view (
                map Slot.view (
                  if z
                  then s ∷ keep (λ s. s.height == slot.height) slots
                  else keep (λ s. s.height == slot.height) slots))
              ≡ true
        later true r = ground (arith, r)
        later false r = r

below_suc : (a b : ℤ) → leb_ℤ a b ≡ true → ltb_ℤ a (b +ℤ pos 1) ≡ true
unfolding ◌+ℤ◌
below_suc a b h = ground (arith, h)

-- The next view that a node asks for at a height is above every view that it has a vote for there.
pub next_view-above :
    (n : AttestationCommunity) (slot : Slot)
    → contains slot n.view_change_votes ≡ true
    → ltb_ℤ slot.view (next_view n slot.height) ≡ true
unfolding next_view
next_view-above n slot h =
    let there =
      elem-view slot (keys n.view_change_votes) (elem-keys slot n.view_change_votes ∙ h) in
    below_suc slot.view _ (highest-le slot.view _ there)
