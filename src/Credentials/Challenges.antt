-- ===== src/Credentials/Challenges.antt =====
-- credentials/presentation.py, `ChallengeStore`: challenges that are issued once and spent once. A
-- time is a number of ticks of the clock; the random text of `secrets.token_hex` is an argument.
use mathlib.Core.Path.{subst}
use hs_fob.Base.{
  ℕ, ◌+◌, ◌≤◌, Bool, true, false, none, some, List, [], ◌∷◌, String, ◌==◌, string_eq, ltb, leb,
  if◌then◌else◌, ◌≡◌, arith, eq_iff, Bool-cases, inl, inr, ==-refl, sym,
}
use hs_fob.Base.Dict.{Dict, lookup, insert, erase, contains}
use hs_fob.Base.Int.{ℤ}
use hs_fob.Values.{Value, Fields, null, bool, int, float, str, list, dict, end, field}
use hs_fob.Credentials.Presentation.{pop_context}

-- `ChallengeStore`
pub record Store : Type 0 where
  pub ttl : ℕ
  pub issued : Dict String ℕ

-- `CHALLENGE_TTL_SECONDS`
abbrev pub challenge_ttl_seconds : ℕ
challenge_ttl_seconds = 300

-- `__init__`
abbrev pub new_store : ℕ → Store
new_store ttl = record { ttl = ttl; issued = [] }

-- The entries that `_purge` leaves
abbrev pub fresh_at : ℕ → Dict String ℕ → Dict String ℕ
fresh_at now [] = []
fresh_at now ((challenge, expiry) ∷ entries) =
    let rest = fresh_at now entries in if ltb expiry now then rest else (challenge, expiry) ∷ rest

-- `_purge`
unfoldable pub purge : ℕ → Store → Store
purge now s = record s { issued = fresh_at now s.issued }

-- `issue`, where `token` is the random text
unfoldable pub issue : String → ℕ → Store → Store × Fields
issue token now s =
    let purged = purge now s in
    (
      record purged { issued = insert token (now + s.ttl) purged.issued },
      field "challenge" (str token)
          (field "expires_in" (int (ℤ.pos s.ttl)) (field "context" (str pop_context) end)),
    )

-- `consume`
unfoldable pub consume : Value → ℕ → Store → Store × Bool
consume (str challenge) now s =
    let purged = purge now s in
    (
      record purged { issued = erase challenge purged.issued },
      elim (lookup challenge purged.issued) [ none ↦ false | some expiry ↦ leb now expiry ],
    )
consume _ now s = (purge now s, false)

-- What a node does with its store.
pub data Use : Type 0 where
  asks : (token : String) (now : ℕ) → Use
  spends : (challenge : Value) (now : ℕ) → Use

abbrev pub is_token : String → String → ℕ
is_token c t = if t == c then 1 else 0

-- How often a challenge is issued in a sequence of uses
abbrev pub times_issued : String → List Use → ℕ
times_issued c [] = 0
times_issued c (asks t now ∷ us) = is_token c t + times_issued c us
times_issued c (spends v now ∷ us) = times_issued c us

abbrev pub one_if : Bool → ℕ
one_if b = if b then 1 else 0

abbrev pub spent_now : String → Value → Bool → ℕ
spent_now c (str t) b = if t == c then one_if b else 0
spent_now c _ b = 0

-- How often `consume` accepts it
abbrev pub times_spent : String → List Use → Store → ℕ
times_spent c [] s = 0
times_spent c (asks t now ∷ us) s = times_spent c us (issue t now s).0
times_spent c (spends v now ∷ us) s =
    let (next, done) = consume v now s in spent_now c v done + times_spent c us next

-- How many entries a challenge has
abbrev pub entries : String → Dict String ℕ → ℕ
entries c [] = 0
entries c ((t, expiry) ∷ d) = is_token c t + entries c d

pub entries-fresh_at :
    (c : String) (now : ℕ) (d : Dict String ℕ) → entries c (fresh_at now d) ≤ entries c d
entries-fresh_at c now [] = omega arith
entries-fresh_at c now ((t, e) ∷ d) = ground (arith, entries-fresh_at c now d)

entries-insert :
    (c t : String) (e : ℕ) (d : Dict String ℕ)
    → entries c (insert t e d) ≤ is_token c t + entries c d
entries-insert c t e [] = ground arith
entries-insert c t e ((u, f) ∷ d) = ground (arith, entries-insert c t e d)

entries-erase : (c t : String) (d : Dict String ℕ) → entries c (erase t d) ≤ entries c d
entries-erase c t [] = omega arith
entries-erase c t ((u, f) ∷ d) = ground (arith, entries-erase c t d)

entries-erase_self :
    (c : String) (d : Dict String ℕ) → contains c d ≡ true → entries c (erase c d) + 1 ≤ entries c d
entries-erase_self c [] h = cc
entries-erase_self c ((u, f) ∷ d) h = ground (arith, eq_iff c u, eq_iff u c, entries-erase_self c d)

spent-le :
    (c : String) (now : ℕ) (d : Dict String ℕ)
    → one_if (elim (lookup c d) [ none ↦ false | some expiry ↦ leb now expiry ])
        + entries c (erase c d)
      ≤ entries c d
spent-le c now d = ground (arith, entries-erase_self c d, entries-erase c c d)

-- Spending lowers the number of entries.
pub consume-entries :
    (c : String) (v : Value) (now : ℕ) (s : Store)
    → spent_now c v (consume v now s).1 + entries c (consume v now s).0.issued ≤ entries c s.issued
unfolding consume purge
consume-entries c (str t) now s =
    let d = fresh_at now s.issued in
    elim (Bool-cases (t == c)) [
      | inl e ↦
          subst
            (λ u.
              spent_now c (str u) (consume (str u) now s).1
                + entries c (consume (str u) now s).0.issued
              ≤ entries c s.issued)
            (sym ((eq_iff t c).0 e))
            (ground (arith, ==-refl c, spent-le c now d, entries-fresh_at c now s.issued))
      | inr e ↦ ground (arith, e, entries-erase c t d, entries-fresh_at c now s.issued)
    ]
consume-entries c null now s = omega (arith, entries-fresh_at c now s.issued)
consume-entries c (bool b) now s = omega (arith, entries-fresh_at c now s.issued)
consume-entries c (int n) now s = omega (arith, entries-fresh_at c now s.issued)
consume-entries c (float x) now s = omega (arith, entries-fresh_at c now s.issued)
consume-entries c (list vs) now s = omega (arith, entries-fresh_at c now s.issued)
consume-entries c (dict fs) now s = omega (arith, entries-fresh_at c now s.issued)

issue-entries :
    (c t : String) (now : ℕ) (s : Store)
    → entries c (issue t now s).0.issued ≤ is_token c t + entries c s.issued
unfolding issue purge
issue-entries c t now s = omega (
  arith,
  entries-insert c t (now + s.ttl) (fresh_at now s.issued),
  entries-fresh_at c now s.issued,
)

times_spent-le :
    (c : String) (us : List Use) (s : Store)
    → times_spent c us s ≤ times_issued c us + entries c s.issued
times_spent-le c [] s = omega arith
times_spent-le c (asks t now ∷ us) s =
    omega (arith, times_spent-le c us (issue t now s).0, issue-entries c t now s)
times_spent-le c (spends v now ∷ us) s =
    omega (arith, times_spent-le c us (consume v now s).0, consume-entries c v now s)

-- Whatever a node does with its store, in whatever order and at whatever times, it accepts no
-- challenge more often than it has issued it.
pub times_spent-times_issued :
    (c : String) (us : List Use) (ttl : ℕ) → times_spent c us (new_store ttl) ≤ times_issued c us
times_spent-times_issued c us ttl = omega (arith, times_spent-le c us (new_store ttl))

lookup-fresh_at-insert :
    (t : String) (e later : ℕ) (d : Dict String ℕ)
    → entries t d ≡ 0
    → elim (lookup t (fresh_at later (insert t e d))) [ none ↦ false | some x ↦ leb later x ]
      ≡ leb later e
lookup-fresh_at-insert t e later [] h = ground (arith, ==-refl t)
lookup-fresh_at-insert t e later ((u, f) ∷ d) h =
    ground (arith, eq_iff t u, eq_iff u t, lookup-fresh_at-insert t e later d)

-- A new challenge is good for the store's time to live and not for longer, if its
-- token was not in the store before.
pub consume-issue :
    (token : String) (now later : ℕ) (s : Store)
    → entries token s.issued ≡ 0
    → (consume (str token) later (issue token now s).0).1 ≡ leb later (now + s.ttl)
unfolding consume issue purge
consume-issue t now later s h =
    lookup-fresh_at-insert t (now + s.ttl) later (fresh_at now s.issued)
      (omega (arith, entries-fresh_at t now s.issued, h))
