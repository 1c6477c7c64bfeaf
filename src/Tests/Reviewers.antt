-- ===== src/Tests/Reviewers.antt =====
-- Examples for identifiers, credentials, presentations and challenges.
use Prim.Native.Char.{Char, code}
use hs_fob.Base.{
  ℕ, ◌+◌, ◌%◌, ◌≡◌, refl, none, some, List, [], ◌∷◌, String, ◌==◌, string_eq, ==-refl, arith, leb,
  ◌≤◌, if◌then◌else◌,
}
use hs_fob.Base.Int.{pos}
use hs_fob.Base.Digits.{repeat, value}
use hs_fob.Base.Text.{chars}
use hs_fob.Values.{Value, Fields, str, list, of_texts}
use hs_fob.Crypto
use hs_fob.Crypto.{Platform, IsCorrect}
use hs_fob.Did.Base58.{
  b58encode, encode_loop, symbol, b58decode, decode_chars, read_number, index, body_bytes, to_bytes,
  bit_length, bits,
}
use hs_fob.Did.Hex.{to_hex, from_hex, read_hex}
use hs_fob.Did.Keys.{public_key_to_did_key, did_key_to_public_key, did_key_to_public_hex}
use hs_fob.Did.Identity.{
  did_key_to_public_key-public_key_to_did_key, public_key_to_did_key-did_key_to_public_hex,
}
use hs_fob.Credentials.Dates.{parse_iso, to_utc}
use hs_fob.Credentials.Checks.{ok, refused, domain_not_granted}
use hs_fob.Credentials.Verify.{Office}
use hs_fob.Credentials.Issue.{issue_reviewer_credential, end_of_validity}
use hs_fob.Credentials.Presentation.{make_presentation, verify_presentation}
use hs_fob.Credentials.Issued.{HexSignatures}
use hs_fob.Credentials.Accepted.{IsInForce, issue_reviewer_credential-accepted}
use hs_fob.Credentials.Challenges.{
  Use, asks, spends, times_spent, times_issued, new_store, consume, issue, purge,
  times_spent-times_issued, consume-issue,
}
use hs_fob.Base.Sets.{elem}

-- a holder's public key, its identifier, and an authority's
abbrev pub holder : String
holder = "1111111111111111111111111111111111111111111111111111111111111111"

abbrev pub holder_did : String
holder_did = "did:key:z6Mkfbt52NAcPcYKV36L6eWTnyfxyGrGrxvJBxF5pjjCctGQ"

abbrev pub authority : String
authority = "2222222222222222222222222222222222222222222222222222222222222222"

abbrev pub authority_did : String
authority_did = "did:key:z6MkgkW6TV5nSgbAraLxWj45jrnw7yRhK3bEgtaEpCVPKYkR"

holder_named : public_key_to_did_key holder ≡ some holder_did
unfolding public_key_to_did_key from_hex read_hex b58encode encode_loop value symbol
holder_named = refl

did_key_to_public_key-public_key_to_did_key_example :
    did_key_to_public_key holder_did ≡ from_hex holder
did_key_to_public_key-public_key_to_did_key_example =
    did_key_to_public_key-public_key_to_did_key holder holder_did holder_named

pub holder_owns : did_key_to_public_hex holder_did ≡ some holder
unfolding did_key_to_public_hex did_key_to_public_key b58decode decode_chars read_number index
    body_bytes to_bytes bit_length bits to_hex
holder_owns = refl

pub authority_owns : did_key_to_public_hex authority_did ≡ some authority
unfolding did_key_to_public_hex did_key_to_public_key b58decode decode_chars read_number index
    body_bytes to_bytes bit_length bits to_hex
authority_owns = refl

public_key_to_did_key-did_key_to_public_hex_example : public_key_to_did_key holder ≡ some holder_did
public_key_to_did_key-did_key_to_public_hex_example =
    public_key_to_did_key-did_key_to_public_hex holder_did holder holder_owns

-- A signature is a checksum of the key and the message, on 64 bytes.
abbrev pub checksum : List Char → ℕ
checksum [] = 0
checksum (c ∷ cs) = code c + checksum cs

abbrev pub stamp : String → String → List ℕ
stamp key message = (checksum (chars key) + checksum (chars message)) % 256 ∷ repeat 63 0

abbrev pub stamps : Platform
stamps = record {
  sha256 = λ s. s;
  dumps = λ v. "";
  dumps_in_order = λ v. "";
  integral = λ s. none;
  public_bytes = λ key. key;
  sign_bytes = λ key message. to_hex (stamp key message);
  parse_key = λ key. some key;
  parse_signature = λ signature. some signature;
  check = λ key signature message. signature == to_hex (stamp key message);
}

stamps-IsCorrect : IsCorrect stamps
unfolding Crypto.verify Crypto.public_hex Crypto.sign
stamps-IsCorrect = record { verify-sign = λ key message. ==-refl (to_hex (stamp key message)) }

stamps-hex : HexSignatures stamps
unfolding Crypto.sign
stamps-hex key message = (stamp key message, ground arith, refl, refl)

-- dates are texts of one moment
abbrev pub office : Office
office = record {
  platform = stamps;
  encoder = record { quote = λ s. s; show = λ n. "0" };
  calendar = record {
    fromisoformat = λ t. some (record { reading = pos 5; offset = none });
    iso = λ t. "5";
  };
  raw = λ s. s;
}

in_force :
    IsInForce office
      (authority_did ∷ [])
      authority
      authority_did
      holder
      holder_did
      (pos 5)
      (pos 5)
      (pos 5)
unfolding parse_iso to_utc Crypto.public_hex
in_force = record {
  correct = stamps-IsCorrect;
  hexes = stamps-hex;
  named = authority_owns;
  known = refl;
  owned = holder_owns;
  read_start = pos 5;
  read_finish = pos 5;
  starts = refl;
  ends = refl;
  started = refl;
  unexpired = refl;
}

issue_reviewer_credential-accepted_example :
    (c : Fields) × (issue_reviewer_credential office holder_did
        (list (of_texts ("rust" ∷ "ai" ∷ [])))
        authority
        authority_did
        0
        (pos 5)
        (some (pos 5))
      ≡ some c)
    × (presentation : Value) × (make_presentation stamps holder c "challenge" ≡ some presentation)
    × ((x : String)
        → verify_presentation office
            (authority_did ∷ [])
            (pos 5)
            presentation
            (Crypto.public_hex stamps holder)
            x
          ≡ (if elem x ("rust" ∷ "ai" ∷ []) then ok tt else refused domain_not_granted))
unfolding end_of_validity
issue_reviewer_credential-accepted_example =
    issue_reviewer_credential-accepted in_force "rust" ("ai" ∷ []) 0 (some (pos 5)) "challenge" refl
      refl refl

-- a challenge that is spent twice, the second time in vain
abbrev day : List Use
day = asks "c1" 0 ∷ spends (str "c1") 10 ∷ spends (str "c1") 20 ∷ asks "c2" 30 ∷ []

times_spent-times_issued_example : times_spent "c1" day (new_store 300) ≤ times_issued "c1" day
times_spent-times_issued_example = times_spent-times_issued "c1" day 300

day_spends : times_spent "c1" day (new_store 300) ≡ 1
unfolding consume issue purge
day_spends = refl

consume-issue_example : (consume (str "c1") 301 (issue "c1" 0 (new_store 300)).0).1 ≡ leb 301 300
consume-issue_example = consume-issue "c1" 0 301 (new_store 300) refl
