-- ===== src/Block/Votes.antt =====
-- Signatures outside the header (blockchain/block.py): they leave the block's identity alone, a vote
-- that is cast counts, and voting twice counts once.
use hs_fob.Base.{
  ◌≡◌, refl, ap, ◌∙◌, Bool, true, false, ◌||◌, Option, none, some, [], ◌∷◌, String, string_eq, ◌==◌,
  eq_iff, arith,
}
use hs_fob.Base.Dict.{Dict, insert, lookup, keys, lookup-insert, insert-insert, insert-Distinct}
use hs_fob.Base.Sets.{elem, Distinct}
use hs_fob.Crypto
use hs_fob.Crypto.{Platform, IsCorrect}
use hs_fob.Block.{
  Block, genuine, signing_bytes, hash, add_commit_signature, commit_signers, sign_as_producer,
  verify_producer_signature,
}

genuine-keys :
    (p : Platform) (m pk : String) (d : Dict String String)
    → elem pk (keys d) ≡ false
    → elem pk (genuine p m d) ≡ false
genuine-keys p m pk [] h = refl
genuine-keys p m pk ((j, s) ∷ d) h = ground (arith, genuine-keys p m pk d)

-- Who signed genuinely is listed once, if no pubkey has two entries.
pub genuine-Distinct :
    (p : Platform) (m : String) (d : Dict String String)
    → Distinct (keys d)
    → Distinct (genuine p m d)
genuine-Distinct p m [] h = tt
genuine-Distinct p m ((j, s) ∷ d) h =
    ground (arith, genuine-Distinct p m d h.1, genuine-keys p m j d h.0)

abbrev pub valid_entry : Platform → String → String → Option String → Bool
valid_entry p m pk none = false
valid_entry p m pk (some s) = Crypto.verify p pk m s

-- A pubkey counts exactly when its entry is a signature of its own over the message.
pub elem-genuine :
    (p : Platform) (m pk : String) (d : Dict String String)
    → Distinct (keys d)
    → elem pk (genuine p m d) ≡ valid_entry p m pk (lookup pk d)
elem-genuine p m pk [] h = refl
elem-genuine p m pk ((j, s) ∷ d) h =
    ground (arith, eq_iff pk j, elem-genuine p m pk d h.1, genuine-keys p m j d h.0)

-- An entry that verifies adds its pubkey to the genuine ones.
pub genuine-insert :
    (p : Platform) (m k s pk : String) (d : Dict String String)
    → Distinct (keys d)
    → Crypto.verify p k m s ≡ true
    → elem pk (genuine p m (insert k s d)) ≡ (pk == k || elem pk (genuine p m d))
genuine-insert p m k s pk d h v =
    elem-genuine p m pk (insert k s d) (insert-Distinct k s d h)
    ∙ ap (valid_entry p m pk) (lookup-insert k pk s d)
    ∙ ground (arith, eq_iff pk k, elem-genuine p m pk d h)

module _ (p : Platform) (correct : IsCorrect p) where
  -- If signatures verify under their own keys, a block that a key has signed names that key as its producer
  -- and its producer signature verifies.
  pub verify-sign_as_producer :
      (key : String) (b : Block)
      → (verify_producer_signature p (sign_as_producer p key b) ≡ true)
        × ((sign_as_producer p key b).producer ≡ Crypto.public_hex p key)
  unfolding verify_producer_signature sign_as_producer signing_bytes
  verify-sign_as_producer key b = (correct.verify-sign key _, refl)

  -- If signatures verify under their own keys and no pubkey has two commit entries, a commit leaves the block's hash as it is, and adds its signer, and nobody else,
  -- to the genuine signers; a second commit by the same key changes nothing.
  pub add_commit_signature_lem :
      (key : String) (b : Block)
      → Distinct (keys b.commit_signatures)
      → (hash p (add_commit_signature p key b) ≡ hash p b)
        × ((x : String)
            → elem x (commit_signers p (add_commit_signature p key b))
              ≡ (x == Crypto.public_hex p key || elem x (commit_signers p b)))
        × (add_commit_signature p key (add_commit_signature p key b) ≡ add_commit_signature p key b)
  unfolding add_commit_signature commit_signers hash signing_bytes
  add_commit_signature_lem key b d =
      let message = signing_bytes p b in
      (
        refl,
        λ x.
            genuine-insert p message (Crypto.public_hex p key) (Crypto.sign p key message) x
              b.commit_signatures d (correct.verify-sign key message),
        ap (λ (c : Dict String String). record b { commit_signatures = c })
            (insert-insert (Crypto.public_hex p key) (Crypto.sign p key message)
              b.commit_signatures),
      )
