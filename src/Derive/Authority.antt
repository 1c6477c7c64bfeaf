-- ===== src/Derive/Authority.antt =====
-- Who becomes a consensus authority by derivation (reputation/derive.py).
use hs_fob.Base.{
  ◌*◌, ◌≡◌, refl, ◌∙◌, true, some, List, [], ◌∷◌, String, string_eq, ==-refl, le→leb, length, arith,
  some,
}
use hs_fob.Base.Int.{pos, ◌+ℤ◌, ◌≤ℤ◌, int_laws, parts_eq}
use hs_fob.Base.Sets.{elem}
use hs_fob.Values.{str, dict, Fields, get_field, equals_str, field_is}
use hs_fob.Crypto.{Platform}
use hs_fob.Transaction.{Transaction}
use hs_fob.Block.{Block}
use hs_fob.Registry.{ReputationRegistry, weight, credit}
use hs_fob.Registry.Weights.{weight-credit}
use hs_fob.Registry.Authorities.{IsTable, credit-IsTable, elem-authorities_in_domain}
use hs_fob.Derive.{
  consensus_domain, authority_threshold, certificate_reward, certificate_type, consensus_validators,
  credit_certificate, apply_transaction, apply_block,
}

-- Certificates for one subject in the consensus domain.
abbrev pub AllConsensusCertificates : String → List Transaction → Type 0
AllConsensusCertificates s [] = Unit
AllConsensusCertificates s (tx ∷ txs) =
    ((fs : Fields) × (tx.payload ≡ dict fs)
      × (field_is (equals_str certificate_type) "type" fs ≡ true)
      × (get_field "subject" fs ≡ some (str s))
      × (get_field "domain" fs ≡ some (str consensus_domain)))
    × AllConsensusCertificates s txs

credit_step :
    (p : Platform) (r : ReputationRegistry) (tx : Transaction) (prefix : List Block)
    (validators : List String) (s : String) (fs : Fields)
    → tx.payload ≡ dict fs
    → field_is (equals_str certificate_type) "type" fs ≡ true
    → get_field "subject" fs ≡ some (str s)
    → get_field "domain" fs ≡ some (str consensus_domain)
    → apply_transaction p r tx prefix validators
      ≡ some (credit r s consensus_domain certificate_reward)
unfolding apply_transaction
credit_step p r tx prefix validators s fs e t es ed =
    rw (e, apply_transaction) (rw (t, es, ed, credit_certificate))

-- A block of certificates for one subject in the domain "consensus" makes that subject a consensus
-- authority, without any promotion, as soon as 10 for each of them and the weight that the subject had
-- there come to 50. The table has one entry per participant.
pub certificates-make-validator :
    (p : Platform) (r : ReputationRegistry) (txs : List Transaction) (prefix : List Block)
    (validators : List String) (s : String)
    → IsTable r
    → AllConsensusCertificates s txs
    → pos 50 ≤ℤ weight r s consensus_domain +ℤ pos (10 * length txs)
    → (r' : ReputationRegistry) × (apply_block p r txs prefix validators ≡ some r')
      × (elem s (consensus_validators r') ≡ true)
unfolding apply_block consensus_validators
certificates-make-validator p r [] prefix validators s t all h = (
  r,
  refl,
  elem-authorities_in_domain r s consensus_domain authority_threshold t (omega arith)
      ∙ le→leb _ _ (omega int_laws),
)
certificates-make-validator p r (tx ∷ txs) prefix validators s t ((fs, e, kind, es, ed), all) h =
    let r1 = credit r s consensus_domain certificate_reward in
    let raised : weight r1 s consensus_domain ≡ weight r s consensus_domain +ℤ pos 10 =
      rw (weight-credit r s consensus_domain s consensus_domain (pos 10), ==-refl s) in
    let (r', run, inside) =
      certificates-make-validator p r1 txs prefix validators s
        (credit-IsTable r s consensus_domain certificate_reward t) all
        (omega (int_laws, parts_eq raised)) in
    (r', rw (credit_step p r tx prefix validators s fs e kind es ed, apply_block) run, inside)
