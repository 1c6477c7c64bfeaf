-- ===== src/Block.antt =====
-- blockchain/block.py: blocks, their hashed header, and the votes that ride outside it. The decoder
-- may leave any JSON value as the view; heights are natural numbers here.
pub mod Votes
use hs_fob.Base.{
  ℕ, ◌≡◌, Bool, true, false, Option, none, some, List, [], ◌∷◌, map, String, string_eq,
  if◌then◌else◌,
}
use hs_fob.Base.Int.{ℤ, pos}
use hs_fob.Base.Dict.{Dict, insert}
use hs_fob.Values.{Value, null, int, str, list, dict, Items, nil, cons, Fields, end, field}
use hs_fob.Crypto
use hs_fob.Crypto.{Platform}
use hs_fob.Merkle
use hs_fob.Transaction
use hs_fob.Transaction.{Transaction, nullable}

-- `Block`
pub record Block : Type 0 where
  pub index : ℕ
  pub previous_hash : String
  pub transactions : List Transaction
  pub timestamp : Value
  pub view : Value
  pub producer : String
  pub producer_signature : Option String
  pub commit_signatures : Dict String String
  pub view_change_messages : Dict String String

-- a dict of texts as JSON
abbrev pub text_fields : Dict String String → Fields
text_fields [] = end
text_fields ((k, v) ∷ d) = field k (str v) (text_fields d)

-- The pubkeys whose entry is a signature of theirs over the message.
abbrev pub genuine : Platform → String → Dict String String → List String
genuine p message [] = []
genuine p message ((pubkey, signature) ∷ d) =
    if Crypto.verify p pubkey message signature
    then pubkey ∷ genuine p message d
    else genuine p message d

module _ (p : Platform) where
  -- `view_change_signing_bytes`
  unfoldable pub view_change_signing_bytes : ℤ → Value → String
  view_change_signing_bytes height view = p.dumps (
      dict (field "type" (str "view-change") (field "height" (int height) (field "view" view end))))

  -- `merkle_root`
  unfoldable pub merkle_root : Block → String
  merkle_root b = Merkle.root p.sha256 (map (Transaction.hash p) b.transactions)

  -- `header`
  unfoldable pub header : Block → Fields
  unfolding merkle_root
  header b = field "index" (int (pos b.index)) (
      field "previous_hash" (str b.previous_hash) (
        field "merkle_root" (str (merkle_root b)) (
          field "timestamp" b.timestamp
            (field "view" b.view (field "producer" (str b.producer) end)))))

  -- `signing_bytes`
  unfoldable pub signing_bytes : Block → String
  unfolding header
  signing_bytes b = p.dumps (dict (header b))

  -- `hash`
  unfoldable pub hash : Block → String
  hash b = p.sha256 (signing_bytes b)

  -- `sign_as_producer`, in place: the producer is set first, and is part of what is signed.
  unfoldable pub sign_as_producer : String → Block → Block
  sign_as_producer private_key b =
      let named = record b { producer = Crypto.public_hex p private_key } in
      record named { producer_signature = some (Crypto.sign p private_key (signing_bytes named)) }

  -- `verify_producer_signature`
  unfoldable pub verify_producer_signature : Block → Bool
  verify_producer_signature b = elim b.producer_signature [
    | none ↦ false
    | some signature ↦ Crypto.verify p b.producer (signing_bytes b) signature
  ]

  -- `add_commit_signature`, in place
  unfoldable pub add_commit_signature : String → Block → Block
  add_commit_signature private_key b = record b {
    commit_signatures =
        insert (Crypto.public_hex p private_key) (Crypto.sign p private_key (signing_bytes b))
          b.commit_signatures;
  }

  -- `commit_signers`
  unfoldable pub commit_signers : Block → List String
  commit_signers b = genuine p (signing_bytes b) b.commit_signatures

  -- `view_change_signers`
  unfoldable pub view_change_signers : Block → List String
  view_change_signers b =
      genuine p (view_change_signing_bytes (pos b.index) b.view) b.view_change_messages

  abbrev transactions_json : List Transaction → Items
  transactions_json [] = nil
  transactions_json (tx ∷ txs) = cons (Transaction.to_dict tx) (transactions_json txs)

  -- `to_dict`
  unfoldable pub to_dict : Block → Value
  unfolding merkle_root hash
  to_dict b = dict (
      field "index" (int (pos b.index)) (
        field "previous_hash" (str b.previous_hash) (
          field "merkle_root" (str (merkle_root b)) (
            field "timestamp" b.timestamp (
              field "view" b.view (
                field "producer" (str b.producer) (
                  field "producer_signature" (nullable b.producer_signature) (
                    field "commit_signatures" (dict (text_fields b.commit_signatures)) (
                      field "view_change_messages" (dict (text_fields b.view_change_messages)) (
                        field "hash" (str (hash b)) (
                          field "transactions" (list (transactions_json b.transactions))
                            end)))))))))))
