-- ===== src/Reconciliation/Distinct.antt =====
-- internal/ledger/reconciliation.go: the checked counts name each location once.
use uruni.Base.{
  ℕ, ◌≡◌, refl, true, false, Option, none, some, List, [], ◌∷◌, arith, ◌==◌, All, All-map, any,
  ==_self,
}
use uruni.Base.Int.{pos, int_laws, +ℤ-zero}
use uruni.Errors.{Result, ok, err, invalid_argument}
use uruni.Dates.{DateWindow}
use uruni.Store.Rows.{Resolution}
use uruni.Reconciliation.{
  Fix, check_resolution, AccountCount, is_matched, is_adjusted, validate_counts,
}
use uruni.Reconciliation.Taken.{fix_amount, posted_at}

-- The resolution fits the fix: a matched line has none, an adjusted one has one.
abbrev pub IsResolved : AccountCount → Type 0
IsResolved c =
    (is_matched c.resolution ≡ true → c.fix ≡ none)
    × (is_adjusted c.resolution ≡ true → (f : Fix) × (c.fix ≡ some f))

-- No location is counted twice.
abbrev pub AreCounts : List AccountCount → Type 0
AreCounts [] = Unit
AreCounts (c ∷ counts) =
    All (λ (e : AccountCount). (e.account_id == c.account_id) ≡ false) counts
    × IsResolved c
    × AreCounts counts

resolved :
    (window : DateWindow) (r : Resolution) (fix : Option Fix)
    → check_resolution window r fix ≡ ok tt
    → (is_matched r ≡ true → fix ≡ none) × (is_adjusted r ≡ true → (f : Fix) × (fix ≡ some f))
unfolding check_resolution
resolved window r none h = (λ _. refl, λ e. ground arith)
resolved window r (some f) h = (λ e. ground arith, λ _. (f, refl))

unseen :
    (window : DateWindow) (seen : List ℕ) (counts : List AccountCount)
    → validate_counts window seen counts ≡ ok tt
    → All (λ (e : AccountCount). any (λ id. id == e.account_id) seen ≡ false) counts
      × AreCounts counts
unfolding validate_counts
unseen window seen [] h = (tt, tt)
unseen window seen (c ∷ counts) h =
    let (fresh, rest) = unseen window (c.account_id ∷ seen) counts (ground arith) in
    let first : any (λ id. id == c.account_id) seen ≡ false = ground arith in
    let fits : check_resolution window c.resolution c.fix ≡ ok tt = ground arith in
    (
      (first, All-map _ _ counts (λ e h'. ground arith) fresh),
      (
        All-map _ _ counts (λ e h'. ground arith) fresh,
        resolved window c.resolution c.fix fits,
        rest,
      ),
    )

absent :
    (account : ℕ) (counts : List AccountCount)
    → All (λ (e : AccountCount). (e.account_id == account) ≡ false) counts
    → posted_at account counts ≡ pos 0
absent account [] h = refl
absent account (c ∷ counts) (hc, hs) = rw (hc, absent account counts hs) (+ℤ-zero _)

posted_shift :
    (c : AccountCount) (counts rest : List AccountCount)
    → All (λ (e : AccountCount). (e.account_id == c.account_id) ≡ false) rest
    → All (λ (e : AccountCount). posted_at e.account_id counts ≡ fix_amount e) rest
    → All (λ (e : AccountCount). posted_at e.account_id (c ∷ counts) ≡ fix_amount e) rest
posted_shift c counts [] h k = tt
posted_shift c counts (e ∷ rest) (he, hs) (ke, ks) =
    let apart : (c.account_id == e.account_id) ≡ false = ground arith in
    (rw (apart, ke) (omega int_laws), posted_shift c counts rest hs ks)

-- What the loop put on a location is its count's fix.
pub posted_each :
    (counts : List AccountCount)
    → AreCounts counts
    → All (λ (e : AccountCount). posted_at e.account_id counts ≡ fix_amount e) counts
posted_each [] h = tt
posted_each (c ∷ counts) (apart, fits, rest) = (
  rw (==_self c.account_id, absent c.account_id counts apart) (+ℤ-zero _),
  posted_shift c counts counts apart (posted_each counts rest),
)

-- What validateTakeReconciliationParams lets through.
pub counts_valid :
    (w : DateWindow) (counts : List AccountCount)
    → elim counts as (λ _. Result (Unit {0})) [
      | [] ↦ err (invalid_argument "counts")
      | c ∷ rest ↦ validate_counts w [] (c ∷ rest)
    ]
      ≡ ok tt
    → AreCounts counts
counts_valid w [] h = tt
counts_valid w (c ∷ counts) h = (unseen w [] (c ∷ counts) h).1
