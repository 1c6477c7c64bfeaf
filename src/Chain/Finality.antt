-- ===== src/Chain/Finality.antt =====
-- Finality (blockchain/blockchain.py, `is_final` and `_reverts_our_finality`).
use mathlib.Core.Option.{some-injective}
use hs_fob.Base.{
  ◌*◌, ◌≤◌, ◌<◌, ◌≡◌, refl, sym, ap, ◌∙◌, Bool, true, false, some, List, String, string_eq, nat_eq,
  ◌==◌, leb→le, &&-true, arith, length,
}
use hs_fob.Base.Dict.{keys}
use hs_fob.Base.Sets.{elem, Distinct, inter, elem-keep, keep-Distinct}
use hs_fob.Base.Count.{Subset}
use hs_fob.Crypto.{Platform}
use hs_fob.Block.{Block, commit_signers, signing_bytes, hash}
use hs_fob.Block.Votes.{genuine-Distinct}
use hs_fob.Consensus.{quorum_size}
use hs_fob.Consensus.Quorum.{quorum-honest}
use hs_fob.Slashing.{some_one}
use hs_fob.Chain.{Blockchain, has_quorum, is_final, validator_set}

module _ (p : Platform) where
  -- the commits that count
  abbrev commits : Block → List String → List String
  commits b validators = inter (commit_signers p b) validators

  is_final-has_quorum :
      (c : Blockchain) (b : Block) (validators : List String)
      → 0 < b.index
      → validator_set p c.blocks c.genesis b.index ≡ some validators
      → is_final p c b ≡ some true
      → has_quorum p b validators ≡ true
  unfolding is_final
  is_final-has_quorum c b validators h e final = of (b.index == 0) refl
    where
      of : (z : Bool) → (b.index == 0) ≡ z → has_quorum p b validators ≡ true
      of true zero_height = ground arith
      of false later = some-injective _ _ (sym (rw (later, e, is_final) refl) ∙ final)

  -- a quorum as facts
  quorum_facts :
      (b : Block) (validators : List String)
      → Distinct (keys b.commit_signatures)
      → has_quorum p b validators ≡ true
      → Distinct (commits b validators)
        × Subset (commits b validators) validators
        × (quorum_size (length validators) ≤ length (commits b validators))
  unfolding has_quorum commit_signers
  quorum_facts b validators d h = (
    keep-Distinct (λ x. elem x validators) (commit_signers p b)
        (genuine-Distinct p (signing_bytes p b) b.commit_signatures d),
    λ v hv. ground (arith, hv, elem-keep (λ x. elem x validators) v (commit_signers p b)),
    leb→le _ _ ((&&-true (some_one p validators) _ h).1),
  )

  -- Finality is safe. Two blocks of one height above 0 that are final for nodes with the same
  -- validators there have the same hash, if fewer than a third of the validators are faulty and no validator outside the
  -- faulty ones has committed two blocks with different headers. No pubkey has two commit entries in
  -- a block.
  pub final_agree :
      (c1 c2 : Blockchain) (b1 b2 : Block) (validators faulty : List String)
      → 0 < b1.index
      → b1.index ≡ b2.index
      → validator_set p c1.blocks c1.genesis b1.index ≡ some validators
      → validator_set p c2.blocks c2.genesis b2.index ≡ some validators
      → Distinct (keys b1.commit_signatures)
      → Distinct (keys b2.commit_signatures)
      → is_final p c1 b1 ≡ some true
      → is_final p c2 b2 ≡ some true
      → 3 * length faulty < length validators
      → ((v : String)
          → elem v faulty ≡ false
          → elem v (commit_signers p b1) ≡ true
          → elem v (commit_signers p b2) ≡ true
          → signing_bytes p b1 ≡ signing_bytes p b2)
      → hash p b1 ≡ hash p b2
  unfolding hash
  final_agree c1 c2 b1 b2 validators faulty h same e1 e2 d1 d2 f1 f2 few honest =
      let (da, sa, qa) =
        quorum_facts b1 validators d1 (is_final-has_quorum c1 b1 validators h e1 f1) in
      let (db, sb, qb) =
        quorum_facts b2 validators d2
          (is_final-has_quorum c2 b2 validators (omega (arith, same)) e2 f2) in
      let (v, ina, inb, good) =
        quorum-honest validators (commits b1 validators) (commits b2 validators) da db sa sb qa qb
          faulty few in
      ap p.sha256 (honest v good (signer v b1 ina) (signer v b2 inb))
    where
      signer :
          (v : String) (b : Block)
          → elem v (commits b validators) ≡ true
          → elem v (commit_signers p b) ≡ true
      signer v b hv = ground (arith, hv, elem-keep (λ x. elem x validators) v (commit_signers p b))
