-- ===== src/Community/Genuine.antt =====
-- The view-change votes that a node has recorded are genuine (network/community.py, `_apply_view_change`).
use mathlib.Core.Option.{some-injective}
use mathlib.Core.Path.{subst}
use hs_fob.Base.{
  ◌≡◌, refl, sym, ap, ◌∙◌, Bool, true, false, ◌||◌, not, Option, none, some, List, [], ◌∷◌, String,
  string_eq, ◌==◌, if◌then◌else◌, arith,
}
use hs_fob.Base.Int.{pos, leb_ℤ}
use hs_fob.Base.Dict.{Dict, lookup, lookup_or, insert, contains, keys, elem-keys}
use hs_fob.Base.Sets.{elem}
use hs_fob.Values.{int}
use hs_fob.Crypto
use hs_fob.Crypto.{Platform}
use hs_fob.Block.{genuine, view_change_signing_bytes}
use hs_fob.Chain.{validator_set}
use hs_fob.Community.{AttestationCommunity, Slot, slot_eq, slot_equal_iff, limit, apply_view_change}

module _ (p : Platform) where
  -- the message of a vote
  abbrev pub statement : Slot → String
  statement slot = view_change_signing_bytes p slot.height (int slot.view)

  abbrev pub AreGenuine : String → Dict String String → Type 0
  AreGenuine message [] = Unit
  AreGenuine message ((signer, signature) ∷ votes) =
      (Crypto.verify p signer message signature ≡ true) × AreGenuine message votes

  abbrev pub HasGenuine : Dict Slot (Dict String String) → Type 0
  HasGenuine [] = Unit
  HasGenuine ((slot, votes) ∷ d) = AreGenuine (statement slot) votes × HasGenuine d

  insert-AreGenuine :
      (message signer signature : String) (votes : Dict String String)
      → Crypto.verify p signer message signature ≡ true
      → elem signer (keys votes) ≡ false
      → AreGenuine message votes
      → AreGenuine message (insert signer signature votes)
  insert-AreGenuine message signer signature [] v new good = (v, tt)
  insert-AreGenuine message signer signature ((k, w) ∷ votes) v new good =
      ground (arith, new, good, insert-AreGenuine message signer signature votes v)

  pub lookup-AreGenuine :
      (slot : Slot) (d : Dict Slot (Dict String String))
      → HasGenuine d
      → AreGenuine (statement slot) (lookup_or [] slot d)
  lookup-AreGenuine slot [] good = tt
  lookup-AreGenuine slot ((s, votes) ∷ d) good =
      of (slot == s) refl (lookup-AreGenuine slot d good.1)
    where
      of :
          (z : Bool)
          → (slot == s) ≡ z
          → AreGenuine (statement slot) (lookup_or [] slot d)
          → AreGenuine
              (statement slot)
              (elim (if z then some votes else lookup slot d) [ none ↦ [] | some v ↦ v ])
      of true e rest =
          subst (λ (x : Slot). AreGenuine (statement x) votes) (sym ((slot_equal_iff slot s).0 e))
            good.0
      of false e rest = rest

  insert-HasGenuine :
      (slot : Slot) (votes : Dict String String) (d : Dict Slot (Dict String String))
      → AreGenuine (statement slot) votes
      → HasGenuine d
      → HasGenuine (insert slot votes d)
  insert-HasGenuine slot votes [] new good = (new, tt)
  insert-HasGenuine slot votes ((s, old) ∷ d) new good =
      of (slot == s) refl (insert-HasGenuine slot votes d new good.1)
    where
      of :
          (z : Bool)
          → (slot == s) ≡ z
          → HasGenuine (insert slot votes d)
          → HasGenuine (if z then (s, votes) ∷ d else (s, old) ∷ insert slot votes d)
      of true e rest = (
        subst (λ (x : Slot). AreGenuine (statement x) votes) ((slot_equal_iff slot s).0 e) new,
        good.1,
      )
      of false e rest = (good.0, rest)

  -- the signers that a block counts are all of the votes
  pub genuine-keys :
      (message : String) (votes : Dict String String)
      → AreGenuine message votes
      → genuine p message votes ≡ keys votes
  genuine-keys message [] good = refl
  genuine-keys message ((k, w) ∷ votes) good =
      rw good.0 (ap (λ (l : List String). k ∷ l) (genuine-keys message votes good.1))

  -- A vote that `_apply_view_change` records is genuine.
  pub apply_view_change-genuine :
      (n : AttestationCommunity) (slot : Slot) (signer signature : String)
      {n' : AttestationCommunity} {new : Bool}
      → apply_view_change p n slot signer signature ≡ some (n', new)
      → HasGenuine n.view_change_votes
      → HasGenuine n'.view_change_votes
  unfolding apply_view_change
  apply_view_change-genuine n slot signer signature {n'} {new} e good =
      of (leb_ℤ slot.view (pos 0)) (Crypto.verify p signer (statement slot) signature) refl e
    where
      votes : Dict String String
      votes = lookup_or [] slot n.view_change_votes

      good_votes : AreGenuine (statement slot) votes
      good_votes = lookup-AreGenuine slot n.view_change_votes good

      Is : Option (AttestationCommunity × Bool) → Type 0
      Is r = r ≡ some (n', new)

      kept :
          (m : AttestationCommunity)
          → HasGenuine m.view_change_votes
          → Is (some (m, false))
          → HasGenuine n'.view_change_votes
      kept m h q =
          subst (λ (r : AttestationCommunity × Bool). HasGenuine r.0.view_change_votes)
            (some-injective _ _ q) h

      counted :
          (member old : Bool)
          → contains signer votes ≡ old
          → Crypto.verify p signer (statement slot) signature ≡ true
          → Is (
              if not member
              then some (n, false)
              else if old
              then some
                  (record n { view_change_votes = insert slot votes n.view_change_votes }, false)
              else some (
                record n {
                  view_change_votes =
                      insert slot (insert signer signature votes) n.view_change_votes;
                },
                true,
              ))
          → HasGenuine n'.view_change_votes
      counted false old o v q = kept n good q
      counted true true o v q =
          kept _ (insert-HasGenuine slot votes n.view_change_votes good_votes good) q
      counted true false o v q =
          subst (λ (r : AttestationCommunity × Bool). HasGenuine r.0.view_change_votes)
            (some-injective _ _ q)
            (insert-HasGenuine slot (insert signer signature votes) n.view_change_votes
              (insert-AreGenuine (statement slot) signer signature votes v
                (elem-keys signer votes ∙ o) good_votes)
              good)

      judged :
          (o : Option (List String))
          → Crypto.verify p signer (statement slot) signature ≡ true
          → Is (elim o [
            | none ↦ none
            | some validators ↦
                if not (elem signer validators)
                then some (n, false)
                else if contains signer votes
                then some
                    (record n { view_change_votes = insert slot votes n.view_change_votes }, false)
                else some (
                  record n {
                    view_change_votes =
                        insert slot (insert signer signature votes) n.view_change_votes;
                  },
                  true,
                )
          ])
          → HasGenuine n'.view_change_votes
      judged none v q = absurd (cc)
      judged (some validators) v q =
          counted (elem signer validators) (contains signer votes) refl v q

      of :
          (low valid : Bool)
          → Crypto.verify p signer (statement slot) signature ≡ valid
          → Is (
              if low || not valid
              then some (n, false)
              else elim (validator_set p n.blockchain.blocks n.blockchain.genesis
                  (limit slot.height)) [
                    | none ↦ none
                    | some validators ↦
                        if not (elem signer validators)
                        then some (n, false)
                        else if contains signer votes
                        then some (
                          record n { view_change_votes = insert slot votes n.view_change_votes },
                          false,
                        )
                        else some (
                          record n {
                            view_change_votes =
                                insert slot (insert signer signature votes) n.view_change_votes;
                          },
                          true,
                        )
                  ])
          → HasGenuine n'.view_change_votes
      of true valid v q = kept n good q
      of false false v q = kept n good q
      of false true v q =
          judged (validator_set p n.blockchain.blocks n.blockchain.genesis (limit slot.height)) v q
