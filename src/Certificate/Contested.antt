-- ===== src/Certificate/Contested.antt =====
-- attestation/aggregator.py: a certificate is contested only by a genuine slash.
use mathlib.Core.Path.{subst}
use mathlib.Core.List.{Mem, mem-cons_self, mem-cons_of_mem}
use mathlib.Core.Option.{none-ne-some, some-injective}
use hs_fob.Base.{
  ℕ, ◌<◌, Bool, true, false, ◌&&◌, Option, none, some, List, [], ◌∷◌, ◌++◌, ltb, take,
  if◌then◌else◌, ◌≡◌, refl, ap, ◌∙◌, arith, ltb→lt, eq_iff,
}
use hs_fob.Base.Errors.{◌>>=◌, bind-some}
use hs_fob.Values.{Value, Fields, text_at}
use hs_fob.Crypto.{Platform}
use hs_fob.Transaction.{Transaction}
use hs_fob.Attestation.{fields}
use hs_fob.Block.{Block}
use hs_fob.Registry.{Weights, ReputationRegistry}
use hs_fob.Slashing.{validate_slash}
use hs_fob.Derive.{derive_registry, consensus_validators}
use hs_fob.Credentials.Verify.{get, holds}
use hs_fob.Certificate.Statuses.{
  Slashed, certificate_contested, certificate_valid, block_slashes, slashes_of, has_slash,
  collect_slashes, evidence_submissions, member, granted, is_contested, status_of,
}

module _ (p : Platform) (chain : List Block) (genesis : Weights) where
  -- A slash in one of the chain's blocks that holds against the chain before that block.
  pub record IsGenuine (s : Slashed) : Type 0 where
    pub block : Block
    pub tx : Transaction
    pub on_chain : Mem block chain
    pub in_block : Mem tx block.transactions
    pub registry : ReputationRegistry
    pub derived : derive_registry p chain block.index genesis ≡ some registry
    pub validated :
        validate_slash p tx.payload (take block.index chain) (consensus_validators registry) ≡ true
    pub at_index : s.index ≡ block.index
    pub by_offender : s.offender ≡ text_at "offender" (fields tx)
    pub on : s.submissions ≡ evidence_submissions p chain genesis (fields tx)

  abbrev pub AreGenuine : List Slashed → Type 0
  AreGenuine [] = Unit
  AreGenuine (s ∷ ss) = IsGenuine s × AreGenuine ss

  append-AreGenuine : (ss ts : List Slashed) → AreGenuine ss → AreGenuine ts → AreGenuine (ss ++ ts)
  append-AreGenuine [] ts g h = h
  append-AreGenuine (s ∷ ss) ts g h = (g.0, append-AreGenuine ss ts g.1 h)

  block_slashes-AreGenuine :
      (b : Block) (registry : ReputationRegistry) (txs : List Transaction)
      → derive_registry p chain b.index genesis ≡ some registry
      → Mem b chain
      → ((tx : Transaction) → Mem tx txs → Mem tx b.transactions)
      → AreGenuine (block_slashes p chain genesis b.index (consensus_validators registry) txs)
  unfolding block_slashes
  block_slashes-AreGenuine b registry [] d on_chain part = tt
  block_slashes-AreGenuine b registry (tx ∷ txs) d on_chain part =
      of (validate_slash p tx.payload (take b.index chain) (consensus_validators registry)) refl
        (block_slashes-AreGenuine b registry txs d on_chain (λ t m. part t (mem-cons_of_mem _ m)))
    where
      of :
          (v : Bool)
          → validate_slash p tx.payload (take b.index chain) (consensus_validators registry) ≡ v
          → AreGenuine (block_slashes p chain genesis b.index (consensus_validators registry) txs)
          → AreGenuine (
              if v
              then record {
                index = b.index;
                offender = text_at "offender" (fields tx);
                submissions = evidence_submissions p chain genesis (fields tx);
              }
                ∷ block_slashes p chain genesis b.index (consensus_validators registry) txs
              else block_slashes p chain genesis b.index (consensus_validators registry) txs)
      of true e g = (
        record {
          block = b;
          tx = tx;
          on_chain = on_chain;
          in_block = part tx (mem-cons_self);
          registry = registry;
          derived = d;
          validated = e;
          at_index = refl;
          by_offender = refl;
          on = refl;
        },
        g,
      )
      of false e g = g

  slashes_of-AreGenuine :
      (b : Block) (ss : List Slashed)
      → Mem b chain
      → slashes_of p chain genesis b ≡ some ss
      → AreGenuine ss
  unfolding slashes_of
  slashes_of-AreGenuine b ss on_chain h = of (has_slash p chain genesis b) h
    where
      of :
          (t : Bool)
          → elim t as (λ _. Option (List Slashed)) [
            | false ↦ some []
            | true ↦ derive_registry p chain b.index genesis >>= λ registry. some (
                block_slashes p chain genesis b.index
                  (consensus_validators registry)
                  b.transactions)
          ]
            ≡ some ss
          → AreGenuine ss
      of false e = subst AreGenuine (some-injective _ _ e) tt
      of true e =
          let (registry, d, g) = bind-some (derive_registry p chain b.index genesis) _ e in
          subst AreGenuine (some-injective _ _ g)
            (block_slashes-AreGenuine b registry b.transactions d on_chain (λ t m. m))

  collect_slashes-AreGenuine :
      (blocks : List Block) (ss : List Slashed)
      → ((b : Block) → Mem b blocks → Mem b chain)
      → collect_slashes p chain genesis blocks ≡ some ss
      → AreGenuine ss
  unfolding collect_slashes
  collect_slashes-AreGenuine [] ss part h = subst AreGenuine (some-injective _ _ h) tt
  collect_slashes-AreGenuine (b ∷ blocks) ss part h =
      let (here, e, h1) = bind-some (slashes_of p chain genesis b) _ h in
      let (rest, f, h2) = bind-some (collect_slashes p chain genesis blocks) _ h1 in
      subst AreGenuine (some-injective _ _ h2) (
        append-AreGenuine here rest (slashes_of-AreGenuine b here (part b (mem-cons_self)) e)
          (collect_slashes-AreGenuine blocks rest (λ c m. part c (mem-cons_of_mem _ m)) f))

  -- A later slash of someone whom the certificate credits, for a review of the same submission
  pub record IsContesting (index : ℕ) (names : List Value) (submission : Value) : Type 0 where
    pub slash : Slashed
    pub genuine : IsGenuine slash
    pub later : index < slash.index
    pub credited : holds slash.offender names ≡ true
    pub same_work : member p chain genesis submission slash.submissions ≡ some true

  is_contested-IsContesting :
      (index : ℕ) (names : List Value) (submission : Value) (ss : List Slashed)
      → AreGenuine ss
      → is_contested p chain genesis index names submission ss ≡ some true
      → IsContesting index names submission
  unfolding is_contested
  is_contested-IsContesting index names submission [] g h = cc
  is_contested-IsContesting index names submission (s ∷ ss) g h =
      of (ltb index s.index) refl (holds s.offender names) refl
        (member p chain genesis submission s.submissions) refl h
        (is_contested-IsContesting index names submission ss g.1)
    where
      of :
          (l : Bool)
          → ltb index s.index ≡ l
          → (c : Bool) → holds s.offender names ≡ c
          → (m : Option Bool) → member p chain genesis submission s.submissions ≡ m
          → (if l && c
              then elim m as (λ _. Option Bool) [
                | none ↦ none
                | some true ↦ some true
                | some false ↦ is_contested p chain genesis index names submission ss
              ]
              else is_contested p chain genesis index names submission ss)
            ≡ some true
          → (is_contested p chain genesis index names submission ss ≡ some true
              → IsContesting index names submission)
          → IsContesting index names submission
      of true el true ec none em h rec = elim (none-ne-some _ h) [ ]
      of true el true ec (some true) em h rec = record {
        slash = s;
        genuine = g.0;
        later = ltb→lt index s.index el;
        credited = ec;
        same_work = em;
      }
      of true el true ec (some false) em h rec = rec h
      of true el false ec m em h rec = rec h
      of false el c ec m em h rec = rec h

  only_contested :
      (b : Bool)
      → (if b then certificate_contested else certificate_valid) ≡ certificate_contested
      → b ≡ true
  only_contested true h = refl
  only_contested false h = ground (arith, eq_iff certificate_valid certificate_contested, h)

  -- A certificate in a block at `index` is contested only if a later block slashes one of those
  -- whom it credits, for a review of the certificate's own submission, and that slash is genuine: a
  -- transaction of a block of this chain that holds against the chain before the block and the
  -- validators there.
  pub status_of-IsContesting :
      (slashes : List Slashed) (index : ℕ) (certificate : Fields)
      → collect_slashes p chain genesis chain ≡ some slashes
      → status_of p chain genesis slashes index certificate ≡ some certificate_contested
      → (names : List Value) × (granted p chain genesis certificate ≡ some names)
        × IsContesting index names (get "submission_tx_hash" certificate)
  unfolding status_of
  status_of-IsContesting slashes index certificate c h =
      let (names, e, h1) = bind-some (granted p chain genesis certificate) _ h in
      let (contested, f, h2) =
        bind-some
          (is_contested p chain genesis index names (get "submission_tx_hash" certificate) slashes)
          _ h1 in
      (
        names,
        e,
        is_contested-IsContesting index names (get "submission_tx_hash" certificate) slashes
            (collect_slashes-AreGenuine chain slashes (λ b m. m) c)
            (f ∙ ap some (only_contested contested (some-injective _ _ h2))),
      )
