-- ===== src/Reconciliation/Complete.antt =====
-- internal/ledger/reconciliation.go: requireEveryActiveLocationCounted on a count whose locations are
-- the fund's.
use uruni.Base.{
  ℕ, ◌≡◌, refl, ◌∙◌, Bool, true, false, ◌&&◌, not, List, [], ◌∷◌, arith, ◌==◌, any, filter, find?,
  All, inl, inr, is_some,
}
use uruni.Errors.{ok, Result-cases}
use uruni.Store.Rows.{Db, Account}
use uruni.Reconciliation.{
  AccountCount, TakeReconciliationParams, scan_counts, is_counted,
  require_every_active_location_counted,
}
use uruni.Reconciliation.Lines.{is_located}

-- A location of the fund that is not retired and that no count names.
abbrev pub is_left_out : ℕ → List AccountCount → Account → Bool
is_left_out fund counts a =
    (a.fund_id == fund)
    && not (is_some a.inactive_on)
    && not (any (λ (c : AccountCount). c.account_id == a.id) counts)

located_found :
    (fund id : ℕ) (accounts : List Account)
    → is_located fund accounts id ≡ true
    → is_some
        (find? (λ (a : Account). a.id == id) (filter (λ (a : Account). a.fund_id == fund) accounts))
      ≡ true
located_found fund id [] h = ground arith
located_found fund id (a ∷ accounts) h = ground (arith, located_found fund id accounts)

none_foreign :
    (fund : ℕ) (accounts : List Account) (counts : List AccountCount) (foreign : Bool)
    → All (λ (c : AccountCount). is_located fund accounts c.account_id ≡ true) counts
    → scan_counts (filter (λ (a : Account). a.fund_id == fund) accounts) counts ≡ ok foreign
    → foreign ≡ false
unfolding scan_counts
none_foreign fund accounts [] foreign located h = ground arith
none_foreign fund accounts (c ∷ counts) foreign (here, rest) h =
    let seen = located_found fund c.account_id accounts here in
    ground (arith, none_foreign fund accounts counts foreign rest)

any_in_fund :
    (fund : ℕ) (counts : List AccountCount) (accounts : List Account)
    → any (is_left_out fund counts) accounts
      ≡ any
          (λ (a : Account). not (is_some a.inactive_on) && not (is_counted counts a.id))
          (filter (λ (a : Account). a.fund_id == fund) accounts)
any_in_fund fund counts [] = refl
any_in_fund fund counts (a ∷ accounts) = ground (arith, any_in_fund fund counts accounts)

pub none_left_out :
    (p : TakeReconciliationParams) (db : Db)
    → All (λ (c : AccountCount). is_located p.fund_id db.accounts c.account_id ≡ true) p.counts
    → require_every_active_location_counted p db ≡ ok tt
    → any (is_left_out p.fund_id p.counts) db.accounts ≡ false
unfolding require_every_active_location_counted
none_left_out p db located h =
    elim (Result-cases
      (scan_counts (filter (λ (a : Account). a.fund_id == p.fund_id) db.accounts) p.counts)) [
        | inl (foreign, e) ↦
            let own = none_foreign p.fund_id db.accounts p.counts foreign located e in
            any_in_fund p.fund_id p.counts db.accounts ∙ ground arith
        | inr (x, e) ↦ ground arith
      ]
