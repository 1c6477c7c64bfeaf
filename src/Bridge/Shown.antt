-- ===== src/Bridge/Shown.antt =====
-- network/http_bridge.py, `_submissions_payload`: what the panel shows of every submission is the bar
-- that attestation/aggregator.py sets for its certificate.
use mathlib.Core.Path.{subst}
use mathlib.Core.List.{Mem, mem-cons_self, mem-cons_of_mem, mem-append_left, mem-append_right}
use mathlib.Core.Option.{some-injective}
use hs_fob.Base.{
  ◌≡◌, refl, sym, ap, ◌∙◌, Bool, true, false, ◌&&◌, not, &&-true, some, List, [], ◌∷◌, ◌++◌, String,
  string_eq, if◌then◌else◌, length,
}
use hs_fob.Base.Int.{ℤ, pos, ltb_ℤ}
use hs_fob.Base.Dict.{Dict, lookup}
use hs_fob.Base.Sets.{elem, add}
use hs_fob.Base.Errors.{bind-some}
use hs_fob.Values.{
  Value, null, int, str, Items, nil, cons, text_at, int_at, fields_of, items_of, get_field,
}
use hs_fob.Crypto.{Platform}
use hs_fob.Transaction
use hs_fob.Transaction.{Transaction}
use hs_fob.Attestation.{fields}
use hs_fob.Submission.{is_submission}
use hs_fob.Block.{Block}
use hs_fob.Registry.{ReputationRegistry}
use hs_fob.Tally.{all_transactions, positive_attesters_by_item}
use hs_fob.Derive.{derive_registry}
use hs_fob.Certificate.{certify, of_ints}
use hs_fob.Certificate.Statuses.{certificate_statuses}
use hs_fob.Rubric.{Rubric}
use hs_fob.Community.{AttestationCommunity}
use hs_fob.Bridge.Panel.{
  coverage, cert_by_scope, summarise, summaries, block_loop, submissions_payload,
}
use hs_fob.Bridge.Bar.{is_empty, issues, items_of_rubric, certify-coverage, scope, weights}

-- an entry of the panel shows no item as uncovered
abbrev pub shows_none : Items → Bool
shows_none nil = true
shows_none (cons v vs) = false

shows_none-of_ints : (ns : List ℤ) → shows_none (of_ints ns) ≡ is_empty ns
shows_none-of_ints [] = refl
shows_none-of_ints (n ∷ ns) = refl

-- `certify` decides as the support and the uncovered items of an entry say.
abbrev pub bar_shown : ℤ → Value → Bool
bar_shown threshold v =
    not (ltb_ℤ (int_at "support" (fields_of (some v))) threshold)
    && shows_none (items_of (get_field "uncovered_items" (fields_of (some v))))

module _ (p : Platform) (blocks : List Block) (registry : ReputationRegistry)
    (rubrics : Dict String Rubric) (threshold : ℤ) (issuer : String) (now : Value) where
  -- An entry is about a submission of `txs`, and shows whether its certificate would be issued.
  pub record IsShown (txs : List Transaction) (v : Value) : Type 0 where
    pub tx : Transaction
    pub submitted : is_submission tx ≡ true
    pub known : Mem tx txs
    pub named :
        get_field "submission_tx_hash" (fields_of (some v)) ≡ some (str (Transaction.hash p tx))
    pub bar :
        issues (
          certify p blocks registry
            (text_at "subject" (fields tx))
            (text_at "rubric_root" (fields tx))
            (text_at "domain" (fields tx))
            (Transaction.hash p tx)
            threshold
            (items_of_rubric (lookup (text_at "rubric_root" (fields tx)) rubrics))
            issuer
            now)
        ≡ bar_shown threshold v

  abbrev pub AreShown : List Transaction → List Value → Type 0
  AreShown txs [] = Unit
  AreShown txs (v ∷ vs) = IsShown txs v × AreShown txs vs

  append-AreShown :
      (txs : List Transaction) (vs ws : List Value)
      → AreShown txs vs
      → AreShown txs ws
      → AreShown txs (vs ++ ws)
  append-AreShown txs [] ws h k = k
  append-AreShown txs (v ∷ vs) ws h k = (h.0, append-AreShown txs vs ws h.1 k)

  module _ (certificates : Dict String Transaction) (statuses : Dict String String)
      (everywhere : List Transaction) where
    summarise-IsShown :
        (tx : Transaction) (place : String) (index : Value)
        → is_submission tx ≡ true
        → Mem tx everywhere
        → IsShown everywhere
            (summarise p blocks registry rubrics certificates statuses tx place index)
    unfolding summarise
    summarise-IsShown tx place index s m =
        let subject = text_at "subject" (fields tx) in
        let root = text_at "rubric_root" (fields tx) in
        let domain = text_at "domain" (fields tx) in
        let h = Transaction.hash p tx in
        let c =
          coverage (lookup root rubrics)
            (positive_attesters_by_item blocks (scope p blocks registry subject root domain h))
            (weights p blocks registry subject root domain h) in
        let support = int_at "support" (
          fields_of
            (some (summarise p blocks registry rubrics certificates statuses tx place index))) in
        record {
          tx = tx;
          submitted = s;
          known = m;
          named = refl;
          bar =
              certify-coverage p blocks registry subject root domain h (lookup root rubrics)
                threshold issuer now
              ∙ ap (λ (z : Bool). not (ltb_ℤ support threshold) && z)
                  (sym (shows_none-of_ints c.uncovered));
        }

    summaries-AreShown :
        (place : String) (index : Value) (txs : List Transaction) (seen : List String)
        → ((tx : Transaction) → Mem tx txs → Mem tx everywhere)
        → AreShown everywhere
            (summaries p blocks registry rubrics certificates statuses place index txs seen).1
    unfolding summaries
    summaries-AreShown place index [] seen part = tt
    summaries-AreShown place index (tx ∷ txs) seen part =
        let new = is_submission tx && not (elem (Transaction.hash p tx) seen) in
        of new refl _ (
          summaries-AreShown place index txs
            (if new then add (Transaction.hash p tx) seen else seen)
            (λ t m. part t (mem-cons_of_mem _ m)))
      where
        of :
            (new : Bool)
            → (is_submission tx && not (elem (Transaction.hash p tx) seen)) ≡ new
            → (rest : List Value) → AreShown everywhere rest
            → AreShown everywhere (
                if new
                then summarise p blocks registry rubrics certificates statuses tx place index ∷ rest
                else rest)
        of true e rest h =
            (summarise-IsShown tx place index (&&-true _ _ e).0 (part tx mem-cons_self), h)
        of false e rest h = h

    block_loop-AreShown :
        (bs : List Block) (seen : List String)
        → ((tx : Transaction) → Mem tx (all_transactions bs) → Mem tx everywhere)
        → AreShown everywhere (block_loop p blocks registry rubrics certificates statuses bs seen).1
    unfolding block_loop
    block_loop-AreShown [] seen part = tt
    block_loop-AreShown (b ∷ bs) seen part =
        append-AreShown everywhere _ _
          (summaries-AreShown "block" (int (pos b.index)) b.transactions seen
            (λ t m. part t (mem-append_left (all_transactions bs) m)))
          (block_loop-AreShown bs _ (λ t m. part t (mem-append_right b.transactions m)))

-- Every entry that the panel of submissions shows is about a submission in the node's chain or pool,
-- named by its hash, and shows the bar for its certificate: from the reputation that the node derives
-- from its chain, and for the required items of the submission's rubric (none, if the node does not
-- know it), `certify` issues a certificate at a threshold exactly if the support that is shown is not
-- below the threshold and no item is shown as uncovered.
pub submissions_payload-AreShown :
    (p : Platform) (n : AttestationCommunity) (rubrics : Dict String Rubric) (threshold : ℤ)
    (issuer : String) (now : Value) (registry : ReputationRegistry) (shown : List Value)
    → derive_registry p n.blockchain.blocks (length n.blockchain.blocks) n.blockchain.genesis
      ≡ some registry
    → submissions_payload p n rubrics ≡ some shown
    → AreShown p n.blockchain.blocks registry rubrics threshold issuer now
        (all_transactions n.blockchain.blocks ++ n.blockchain.mempool)
        shown
unfolding submissions_payload
submissions_payload-AreShown p n rubrics threshold issuer now registry shown d h =
    let blocks = n.blockchain.blocks in
    let everywhere = all_transactions blocks ++ n.blockchain.mempool in
    let (registry', d', h1) =
      bind-some (derive_registry p blocks (length blocks) n.blockchain.genesis) _ h in
    let (statuses, s, h2) = bind-some (certificate_statuses p blocks n.blockchain.genesis) _ h1 in
    let same : registry' ≡ registry = some-injective _ _ (sym d' ∙ d) in
    let certificates = cert_by_scope p blocks [] in
    let panel =
      append-AreShown p blocks registry' rubrics threshold issuer now everywhere _ _
        (block_loop-AreShown p blocks registry' rubrics threshold issuer now certificates statuses
          everywhere blocks [] (λ t m. mem-append_left n.blockchain.mempool m))
        (summaries-AreShown p blocks registry' rubrics threshold issuer now certificates statuses
          everywhere "mempool" null n.blockchain.mempool
          (block_loop p blocks registry' rubrics certificates statuses blocks []).0
          (λ t m. mem-append_right (all_transactions blocks) m)) in
    subst
      (λ (r : ReputationRegistry).
        AreShown p blocks r rubrics threshold issuer now everywhere shown)
      same
      (subst (AreShown p blocks registry' rubrics threshold issuer now everywhere)
        (some-injective _ _ h2) panel)
