-- ===== src/Validity/Certificates.antt =====
-- No certificate counts twice in a valid chain (blockchain/blockchain.py, `seen_certificate_ids`).
use mathlib.Core.Option.{some-injective}
use mathlib.Core.Path.{subst}
use hs_fob.Base.{
  ℕ, suc, ◌≡◌, refl, sym, ap, Bool, true, false, ◌&&◌, Option, none, some, List, [], ◌∷◌, ◌++◌,
  String, string_eq, ◌==◌, if◌then◌else◌, take,
}
use hs_fob.Base.Sets.{Distinct, union}
use hs_fob.Crypto.{Platform}
use hs_fob.Block
use hs_fob.Block.{Block}
use hs_fob.Registry.{ReputationRegistry}
use hs_fob.Derive.{consensus_validators, derive_registry}
use hs_fob.Economy.{Economy, derive_balances}
use hs_fob.Chain.{Blockchain, genesis_block}
use hs_fob.Validity.{
  Carried, Within, Context, start, accept_all, header_ok, links, accept_block, accept_blocks,
  validated, is_valid_chain,
}
use hs_fob.Validity.Seen.{certificate_ids, Saw, Saw-none, Saw-more, accept_all-seen}

module _ (p : Platform) where
  abbrev pub certificates_in : List Block → List String
  certificates_in [] = []
  certificates_in (b ∷ blocks) = certificate_ids p b.transactions ++ certificates_in blocks

  accept_block-seen :
      (blocks : List Block) (i : ℕ) (s t : Carried) (previous b : Block)
      (registry : Option ReputationRegistry) (economy : Option Economy)
      → accept_block p blocks i s previous b registry economy ≡ some t
      → Distinct s.seen
      → Saw p s.seen (certificate_ids p b.transactions) t.seen
  unfolding accept_block
  accept_block-seen blocks i s t previous b none economy e d = absurd (cc)
  accept_block-seen blocks i s t previous b (some r) none e d = absurd (cc)
  accept_block-seen blocks i s t previous b (some r) (some m) e d =
      of (links p i previous b && header_ok p b (union (consensus_validators r) s.promoted)) e
    where
      context : Context
      context = record { height = i; prefix = take i blocks; registry = r; ledger = m.ledger }

      begin : Within
      begin = record {
        carried = s;
        block_validators = union (consensus_validators r) s.promoted;
        block_locked = [];
      }

      run :
          (o : Option Within)
          → accept_all p context begin b.transactions ≡ o
          → elim o [ none ↦ none | some s' ↦ some s'.carried ] ≡ some t
          → Saw p s.seen (certificate_ids p b.transactions) t.seen
      run none f q = absurd (cc)
      run (some u) f q =
          subst (λ (x : Carried). Saw p s.seen (certificate_ids p b.transactions) x.seen)
            (some-injective _ _ q) (accept_all-seen p context begin u b.transactions f d)

      of :
          (z : Bool)
          → (if z
              then elim (accept_all p context begin b.transactions) [
                | none ↦ none
                | some s' ↦ some s'.carried
              ]
              else none)
            ≡ some t
          → Saw p s.seen (certificate_ids p b.transactions) t.seen
      of false q = absurd (cc)
      of true q = run (accept_all p context begin b.transactions) refl q

  accept_blocks-seen :
      (c : Blockchain) (blocks rest : List Block) (i : ℕ) (s t : Carried) (previous : Block)
      → accept_blocks p blocks c.genesis c.endowments i s previous rest ≡ some t
      → Distinct s.seen
      → Saw p s.seen (certificates_in rest) t.seen
  unfolding accept_blocks
  accept_blocks-seen c blocks [] i s t previous e d =
      subst (λ (x : Carried). Saw p s.seen [] x.seen) (some-injective _ _ e) (Saw-none p s.seen d)
  accept_blocks-seen c blocks (b ∷ rest) i s t previous e d =
      of
        (accept_block p blocks i s previous b (derive_registry p blocks i c.genesis)
          (derive_balances p blocks i c.endowments c.genesis))
        refl (λ s' q d'. accept_blocks-seen c blocks rest (suc i) s' t b q d') e
    where
      of :
          (o : Option Carried)
          → accept_block p blocks i s previous b
              (derive_registry p blocks i c.genesis)
              (derive_balances p blocks i c.endowments c.genesis)
            ≡ o
          → ((s' : Carried)
              → accept_blocks p blocks c.genesis c.endowments (suc i) s' b rest ≡ some t
              → Distinct s'.seen
              → Saw p s'.seen (certificates_in rest) t.seen)
          → elim o [
            | none ↦ none
            | some s' ↦ accept_blocks p blocks c.genesis c.endowments (suc i) s' b rest
          ]
            ≡ some t
          → Saw p s.seen (certificates_in (b ∷ rest)) t.seen
      of none step next q = absurd (cc)
      of (some s') step next q =
          let first =
            accept_block-seen blocks i s s' previous b (derive_registry p blocks i c.genesis)
              (derive_balances p blocks i c.endowments c.genesis) step d in
          Saw-more p s.seen (certificate_ids p b.transactions) s'.seen (certificates_in rest) t.seen
            first (next s' q first.1)

  -- No certificate counts twice in a valid chain: the certificates in all the blocks after the first have
  -- distinct ids.
  pub valid-certificates_once :
      (c : Blockchain) (first : Block) (rest : List Block)
      → c.blocks ≡ first ∷ rest
      → is_valid_chain p c ≡ true
      → Distinct (certificates_in rest)
  unfolding is_valid_chain validated
  valid-certificates_once c first rest same e =
      of (validated p c c.blocks) (ap (validated p c) (sym same)) e
    where
      genesis_same :
          (z : Bool) {t : Carried}
          → (if z
              then accept_blocks p (first ∷ rest) c.genesis c.endowments 1 start first rest
              else none)
            ≡ some t
          → Distinct (certificates_in rest)
      genesis_same false q = absurd (cc)
      genesis_same true {t} q =
          let (all, d) = accept_blocks-seen c (first ∷ rest) rest 1 start t first q tt in
          subst (λ (l : List String). Distinct l) all d

      of :
          (o : Option Carried)
          → validated p c (first ∷ rest) ≡ o
          → elim o [ none ↦ false | some s ↦ true ] ≡ true
          → Distinct (certificates_in rest)
      of none run q = absurd (cc)
      of (some t) run q = genesis_same (Block.hash p first == Block.hash p genesis_block) run
