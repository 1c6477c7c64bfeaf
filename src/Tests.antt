-- ===== src/Tests.antt =====
-- Shared data of the examples: a small stand-in for the libraries, keys, attestations and blocks. The
-- modules below it apply each theorem to concrete input.
pub mod Trees
pub mod Votes
pub mod Ledgers
pub mod Proposals
pub mod Chains
pub mod Forks
pub mod Bonds
pub mod Valid
pub mod Issue
pub mod Nodes
pub mod Rounds
pub mod Reviewers
pub mod Admissions
use Prim.Native.Nat.{ℕ, zero, suc}
use Prim.Native.String.{◌++◌ as concat}
use hs_fob.Base.{
  ◌≡◌, Bool, true, false, Option, none, some, List, [], ◌∷◌, String, ◌==◌, string_eq, ==-refl,
}
use hs_fob.Base.Int.{ℤ, pos, negsuc}
use hs_fob.Values.{
  Value, null, bool, int, float, str, list, dict, Items, nil, cons, Fields, end, field,
}
use hs_fob.Crypto
use hs_fob.Crypto.{Platform, IsCorrect}
use hs_fob.Transaction
use hs_fob.Transaction.{Transaction}
use hs_fob.Attestation.{make_attestation}
use hs_fob.Block.{Block}

-- a number in unary
abbrev tally_marks : ℕ → String
tally_marks zero = ""
tally_marks (suc n) = concat "|" (tally_marks n)

abbrev mutual
  pub encode : Value → String
  encode null = "null"
  encode (bool true) = "true"
  encode (bool false) = "false"
  encode (int (pos n)) = tally_marks n
  encode (int (negsuc n)) = concat "-" (tally_marks n)
  encode (float s) = s
  encode (str s) = concat "'" (concat s "'")
  encode (list vs) = concat "[" (encode_items vs)
  encode (dict fs) = concat "{" (encode_fields fs)

  pub encode_items : Items → String
  encode_items nil = "]"
  encode_items (cons v vs) = concat (encode v) (concat "," (encode_items vs))

  pub encode_fields : Fields → String
  encode_fields end = "}"
  encode_fields (field k v fs) =
      concat k (concat ":" (concat (encode v) (concat "," (encode_fields fs))))

-- A signature is the public key and the message, one after the other.
abbrev pub toy : Platform
toy = record {
  sha256 = λ s. s;
  dumps = encode;
  dumps_in_order = encode;
  integral = λ s. none;
  public_bytes = λ key. concat "pub-" key;
  sign_bytes = λ key message. concat (concat "pub-" key) message;
  parse_key = λ key. some key;
  parse_signature = λ signature. some signature;
  check = λ key signature message. signature == concat key message;
}

pub toy-IsCorrect : IsCorrect toy
unfolding Crypto.verify Crypto.public_hex Crypto.sign
toy-IsCorrect = record { verify-sign = λ key message. ==-refl (concat (concat "pub-" key) message) }

abbrev pub attest : String → Option Bool → Transaction
attest key verdict = Transaction.sign toy key (
    make_attestation (concat "pub-" key) "alice" "root" (pos 0) verdict (pos 3) "ab" "rust"
      (float "1.0"))

abbrev pub block_of : ℕ → List Transaction → Block
block_of i txs = record {
  index = i;
  previous_hash = "00";
  transactions = txs;
  timestamp = float "1.0";
  view = int (pos 0);
  producer = "";
  producer_signature = none;
  commit_signatures = [];
  view_change_messages = [];
}
