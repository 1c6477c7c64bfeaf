-- ===== src/Bridge/All.antt =====
-- network/http_bridge.py, `_submissions_payload`: the panel leaves no submission out.
use mathlib.Core.Option.{some-injective}
use hs_fob.Base.{
  ◌≡◌, refl, sym, ap, ◌∙◌, Bool, true, false, ◌&&◌, ◌||◌, not, some, List, [], ◌∷◌, ◌++◌, String,
  string_eq, ◌==◌, if◌then◌else◌, length, all, arith, eq_iff,
}
use hs_fob.Base.Int.{pos}
use hs_fob.Base.Dict.{Dict}
use hs_fob.Base.Sets.{elem, add, elem-add, elem-append}
use hs_fob.Base.Errors.{bind-some}
use hs_fob.Values.{Value, null, int, text_at, fields_of}
use hs_fob.Crypto.{Platform}
use hs_fob.Transaction
use hs_fob.Transaction.{Transaction}
use hs_fob.Submission.{is_submission}
use hs_fob.Block.{Block}
use hs_fob.Registry.{ReputationRegistry}
use hs_fob.Tally.{all_transactions}
use hs_fob.Derive.{derive_registry}
use hs_fob.Certificate.Statuses.{certificate_statuses}
use hs_fob.Rubric.{Rubric}
use hs_fob.Community.{AttestationCommunity}
use hs_fob.Bridge.Panel.{cert_by_scope, summarise, summaries, block_loop, submissions_payload}

-- the submissions that the entries are about
abbrev pub names : List Value → List String
names [] = []
names (v ∷ vs) = text_at "submission_tx_hash" (fields_of (some v)) ∷ names vs

-- every submission of a list is among the names
abbrev pub covers : Platform → List String → List Transaction → Bool
covers p hashes txs = all (λ tx. not (is_submission tx) || elem (Transaction.hash p tx) hashes) txs

names-append : (vs ws : List Value) → names (vs ++ ws) ≡ names vs ++ names ws
names-append [] ws = refl
names-append (v ∷ vs) ws =
    ap (λ (l : List String). text_at "submission_tx_hash" (fields_of (some v)) ∷ l)
      (names-append vs ws)

module _ (p : Platform) where
  covers-append :
      (hashes : List String) (xs ys : List Transaction)
      → covers p hashes (xs ++ ys) ≡ (covers p hashes xs && covers p hashes ys)
  covers-append hashes [] ys = refl
  covers-append hashes (x ∷ xs) ys = ground (arith, covers-append hashes xs ys)

  covers-more :
      (hashes more : List String) (xs : List Transaction)
      → ((h : String) → elem h hashes ≡ true → elem h more ≡ true)
      → covers p hashes xs ≡ true
      → covers p more xs ≡ true
  covers-more hashes more [] sub c = refl
  covers-more hashes more (x ∷ xs) sub c =
      ground (arith, c, sub (Transaction.hash p x), covers-more hashes more xs sub)

  module _ (blocks : List Block) (registry : ReputationRegistry) (rubrics : Dict String Rubric)
      (certificates : Dict String Transaction) (statuses : Dict String String) where
    -- what a loop has seen at its end: what it had seen before, and what it shows
    abbrev IsTold : List String → List String × List Value → Type 0
    IsTold seen r = (h : String) → elem h r.0 ≡ (elem h seen || elem h (names r.1))

    named :
        (tx : Transaction) (place : String) (index : Value) (vs : List Value)
        → names (summarise p blocks registry rubrics certificates statuses tx place index ∷ vs)
          ≡ Transaction.hash p tx ∷ names vs
    unfolding summarise
    named tx place index vs = refl

    summaries-IsTold :
        (place : String) (index : Value) (txs : List Transaction) (seen : List String)
        → IsTold seen
            (summaries p blocks registry rubrics certificates statuses place index txs seen)
    unfolding summaries
    summaries-IsTold place index [] seen h = ground arith
    summaries-IsTold place index (tx ∷ txs) seen h =
        of (is_submission tx && not (elem (Transaction.hash p tx) seen))
          (λ s. summaries-IsTold place index txs s h)
      where
        rest : List String → List String × List Value
        rest s = summaries p blocks registry rubrics certificates statuses place index txs s

        of :
            (new : Bool)
            → ((s : List String) → elem h (rest s).0 ≡ (elem h s || elem h (names (rest s).1)))
            → elem h (rest (if new then add (Transaction.hash p tx) seen else seen)).0 ≡ (
                elem h seen
                || elem h (
                    names (
                      if new
                      then summarise p blocks registry rubrics certificates statuses tx place index
                        ∷ (rest (if new then add (Transaction.hash p tx) seen else seen)).1
                      else (rest (if new then add (Transaction.hash p tx) seen else seen)).1)))
        of false told = told seen
        of true told =
            told (add (Transaction.hash p tx) seen)
            ∙ regroup (elem h seen) (h == Transaction.hash p tx)
                (elem h (names (rest (add (Transaction.hash p tx) seen)).1))
                (elem-add (Transaction.hash p tx) h seen)
            ∙ ap (λ (l : List String). elem h seen || elem h l)
                (sym (named tx place index (rest (add (Transaction.hash p tx) seen)).1))
          where
            regroup :
                (s e n : Bool)
                → elem h (add (Transaction.hash p tx) seen) ≡ (e || s)
                → (elem h (add (Transaction.hash p tx) seen) || n) ≡ (s || (e || n))
            regroup s e n q = ground (arith, q)

    summaries-covers :
        (place : String) (index : Value) (txs : List Transaction) (seen : List String)
        → covers p
            (summaries p blocks registry rubrics certificates statuses place index txs seen).0
            txs
          ≡ true
    unfolding summaries
    summaries-covers place index [] seen = refl
    summaries-covers place index (tx ∷ txs) seen =
        let h = Transaction.hash p tx in
        let s = if is_submission tx && not (elem h seen) then add h seen else seen in
        ground (
          arith,
          elem-add h h seen,
          eq_iff h h,
          summaries-IsTold place index txs s h,
          summaries-covers place index txs s,
        )

    block_loop-IsTold :
        (bs : List Block) (seen : List String)
        → IsTold seen (block_loop p blocks registry rubrics certificates statuses bs seen)
    unfolding block_loop
    block_loop-IsTold [] seen h = ground arith
    block_loop-IsTold (b ∷ bs) seen h =
        let (s, here) =
          summaries p blocks registry rubrics certificates statuses "block" (int (pos b.index))
            b.transactions seen in
        let (last, later) = block_loop p blocks registry rubrics certificates statuses bs s in
        ground (
          arith,
          block_loop-IsTold bs s h,
          summaries-IsTold "block" (int (pos b.index)) b.transactions seen h,
          names-append here later,
          elem-append h (names here) (names later),
        )

    block_loop-covers :
        (bs : List Block) (seen : List String)
        → covers p
            (block_loop p blocks registry rubrics certificates statuses bs seen).0
            (all_transactions bs)
          ≡ true
    unfolding block_loop
    block_loop-covers [] seen = refl
    block_loop-covers (b ∷ bs) seen =
        let s =
          (summaries p blocks registry rubrics certificates statuses "block" (int (pos b.index))
            b.transactions seen).0 in
        let last = (block_loop p blocks registry rubrics certificates statuses bs s).0 in
        ground (
          arith,
          block_loop-covers bs s,
          covers-append last b.transactions (all_transactions bs),
          covers-more s last b.transactions (λ h e. ground (arith, e, block_loop-IsTold bs s h))
              (summaries-covers "block" (int (pos b.index)) b.transactions seen),
        )

-- The panel leaves nothing out: every submission in the node's chain or pool is among those that the
-- entries are about, by its hash.
pub submissions_payload-covers :
    (p : Platform) (n : AttestationCommunity) (rubrics : Dict String Rubric) (shown : List Value)
    → submissions_payload p n rubrics ≡ some shown
    → covers p (names shown) (all_transactions n.blockchain.blocks ++ n.blockchain.mempool) ≡ true
unfolding submissions_payload
submissions_payload-covers p n rubrics shown h =
    let blocks = n.blockchain.blocks in
    let (registry, d, h1) =
      bind-some (derive_registry p blocks (length blocks) n.blockchain.genesis) _ h in
    let (statuses, s, h2) = bind-some (certificate_statuses p blocks n.blockchain.genesis) _ h1 in
    let certificates = cert_by_scope p blocks [] in
    let (seen, mined) = block_loop p blocks registry rubrics certificates statuses blocks [] in
    let (last, pooled) =
      summaries p blocks registry rubrics certificates statuses "mempool" null n.blockchain.mempool
        seen in
    let told_seen = block_loop-IsTold p blocks registry rubrics certificates statuses blocks [] in
    let told_last =
      summaries-IsTold p blocks registry rubrics certificates statuses "mempool" null
        n.blockchain.mempool seen in
    let on_panel : (x : String) → elem x last ≡ true → elem x (names (mined ++ pooled)) ≡ true =
      λ x e. ground (
        arith,
        e,
        told_seen x,
        told_last x,
        names-append mined pooled,
        elem-append x (names mined) (names pooled),
      ) in
    let all_seen : covers p last (all_transactions blocks ++ n.blockchain.mempool) ≡ true = ground (
      arith,
      covers-append p last (all_transactions blocks) n.blockchain.mempool,
      covers-more p seen last (all_transactions blocks) (λ x e. ground (arith, e, told_last x))
          (block_loop-covers p blocks registry rubrics certificates statuses blocks []),
      summaries-covers p blocks registry rubrics certificates statuses "mempool" null
          n.blockchain.mempool seen,
    ) in
    ap (λ (vs : List Value). covers p (names vs) (all_transactions blocks ++ n.blockchain.mempool))
      (sym (some-injective _ _ h2))
    ∙ covers-more p last (names (mined ++ pooled)) (all_transactions blocks ++ n.blockchain.mempool)
        on_panel all_seen
