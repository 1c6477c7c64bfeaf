-- ===== src/Validity/Adopt.antt =====
-- What `replace_chain` leaves, whatever it is given (blockchain/blockchain.py).
use hs_fob.Base.{
  ℕ, ◌≡◌, refl, Bool, true, false, Option, none, some, List, [], string_eq, if◌then◌else◌,
  get_elem?,
}
use hs_fob.Crypto.{Platform}
use hs_fob.Block.{Block, hash}
use hs_fob.Derive.Prefix.{IsIndexed}
use hs_fob.Chain.{Blockchain, is_final}
use hs_fob.Chain.Choice.{preferred, adopt}
use hs_fob.Chain.Kept.{preferred-keeps_final}
use hs_fob.Validity.{is_valid_chain, replace_chain}

module _ (p : Platform) (ours : Blockchain) (offered : List Block) where
  -- the candidate, in isolation
  abbrev isolated : Blockchain
  isolated = record ours { blocks = offered; mempool = [] }

  -- The two outcomes: what holds of ours and of the adopted chain holds of the result.
  replaced :
      (Q : Blockchain × Bool → Type 0)
      → Q (ours, false)
      → (is_valid_chain p isolated ≡ true
          → preferred p ours isolated ≡ some true
          → Q (adopt p ours offered, true))
      → Q (replace_chain p ours offered)
  unfolding replace_chain
  replaced Q refused adopted = valid (is_valid_chain p isolated) refl
    where
      valid :
          (z : Bool)
          → is_valid_chain p isolated ≡ z
          → Q (
              if z
              then elim (preferred p ours isolated) [
                | some true ↦ (adopt p ours offered, true)
                | _ ↦ (ours, false)
              ]
              else (ours, false))
      valid false e = refused
      valid true e = better (preferred p ours isolated) refl
        where
          better :
              (o : Option Bool)
              → preferred p ours isolated ≡ o
              → Q (elim o [ some true ↦ (adopt p ours offered, true) | _ ↦ (ours, false) ])
          better none q = refused
          better (some false) q = refused
          better (some true) q = adopted e q

  -- Whatever blocks it is given, `replace_chain` leaves a valid chain valid.
  pub replace_chain-valid :
      is_valid_chain p ours ≡ true → is_valid_chain p (replace_chain p ours offered).0 ≡ true
  unfolding adopt is_valid_chain
  replace_chain-valid sound =
      replaced (λ r. is_valid_chain p r.0 ≡ true) sound (λ valid better. valid)

  -- Whatever blocks it is given, `replace_chain` keeps what is final: if our blocks carry their positions,
  -- each block that is final in our chain has a block with the same hash at its height afterwards.
  pub replace_chain-keeps_final :
      (i : ℕ) (b : Block)
      → IsIndexed ours.blocks
      → get_elem? ours.blocks i ≡ some b
      → is_final p ours b ≡ some true
      → (b' : Block) × (get_elem? (replace_chain p ours offered).0.blocks i ≡ some b')
        × (hash p b' ≡ hash p b)
  unfolding adopt
  replace_chain-keeps_final i b indexed place final =
      replaced (λ r. (b' : Block) × (get_elem? r.0.blocks i ≡ some b') × (hash p b' ≡ hash p b))
        (b, place, refl)
        (λ valid better. preferred-keeps_final p ours isolated i b indexed place final better)
