-- ===== src/Reconciliation/Taken.antt =====
-- internal/ledger/reconciliation.go: what a count says about the sums.
use uruni.Base.{
  ℕ, ◌<◌, ◌≡◌, refl, sym, ap, ◌∙◌, Bool, true, false, ◌&&◌, Option, none, some, List, [], ◌∷◌,
  arith, ◌==◌, leb, if◌then◌else◌, Option-cases, inl, inr, ==_self,
}
use uruni.Money.{max_amount, sub, wrap}
use uruni.Base.Int.{ℤ, ◌≤ℤ◌, pos, ◌+ℤ◌, ◌-ℤ◌, neg_ℤ, int_laws, +ℤ-zero, +ℤ_assoc}
use uruni.Errors.{ok}
use uruni.Store.Rows.{Db, Account, ReconciliationLine, Transaction, is_in, Resolution}
use uruni.Store.Action.{Env, Action, pure, ◌>>=◌, bind_split, pure_split}
use uruni.Store.Queries.{in_account, in_account_through}
use uruni.Store.Insert.{
  create_transaction, accepts, new_transaction, add_transaction, next_transaction_id,
}
use uruni.Store.Balance.{
  account_balance_through_exact, accepts-IsBounded, next_transaction_id_grows, total, contribution,
  total-add_transaction,
}
use uruni.Reconciliation.{
  Fix, AccountCount, LineInput, is_matched, is_adjusted, check_plug, fix_params, recorded_amount,
  signed_fix_amount,
}
use uruni.Reconciliation.Count.{post_fix, take_count, take_counts}

-- What the loop over the counts leaves alone, besides.
abbrev pub kept_by_counts : Db → List ReconciliationLine × List Account
kept_by_counts d = (d.reconciliation_lines, d.accounts)

-- What a count puts on the ledger.
abbrev pub fix_amount : AccountCount → ℤ
fix_amount c = elim c.fix [
  | none ↦ pos 0
  | some f ↦ if is_in f.direction then f.amount else neg_ℤ f.amount
]

no_contribution :
    (q : Transaction → Bool) (t : Transaction) (x : ℤ) → q t ≡ false → x +ℤ contribution q t ≡ x
no_contribution q t x h = rw h (omega int_laws)

above : (k id : ℕ) (b c : Bool) → k < id → (b && c && leb id k) ≡ false
above k id b c h = ground arith

-- What a successful pass of the loop checked and wrote.
module _ (env : Env) (fund : ℕ) (cutoff : Option ℕ) (c : AccountCount) (d : Db) (line : LineInput)
    (after : Db) (taken : take_count env fund cutoff c d ≡ (ok line, after)) where
  line_facts :
      (line.account_id ≡ c.account_id)
      × (line.actual_amount ≡ c.actual_amount)
      × (line.resolution ≡ c.resolution)
      × (recorded_amount fund c.account_id cutoff d ≡ ok line.recorded_amount)
      × (is_matched c.resolution ≡ true → line.diff ≡ pos 0)
  unfolding take_count
  line_facts = ground arith

  unfixed : c.fix ≡ none → after ≡ d
  unfolding take_count post_fix
  unfixed e = ground arith

  fixed :
      (f : Fix)
      → c.fix ≡ some f
      → (after ≡ add_transaction (new_transaction (fix_params env fund c f) d) d)
        × (accepts (fix_params env fund c f) d ≡ true)
        × (check_plug c.resolution f line.diff ≡ ok tt)
  unfolding take_count post_fix create_transaction
  fixed f e = ground arith

  -- The pass changes the sum of its own location by its fix, and no sum up to a cutoff that lies
  -- before it.
  step_total :
      (account : ℕ)
      → total (in_account fund account) after
        ≡ total (in_account fund account) d
          +ℤ (if c.account_id == account then fix_amount c else pos 0)
  step_total account = elim (Option-cases c.fix) [
    | inl e ↦ rw (unfixed e, e) (kept (c.account_id == account) _)
    | inr (f, e) ↦
        rw ((fixed f e).0, e)
          (total-add_transaction (in_account fund account)
              (new_transaction (fix_params env fund c f) d) d
            ∙ rw (==_self fund) refl)
  ]
    where
      kept : (b : Bool) (x : ℤ) → x ≡ x +ℤ (if b then pos 0 else pos 0)
      kept true x = omega int_laws
      kept false x = omega int_laws

  step_through :
      (account k : ℕ)
      → k < next_transaction_id d
      → (total (in_account_through fund account k) after
          ≡ total (in_account_through fund account k) d)
        × (k < next_transaction_id after)
  step_through account k below = elim (Option-cases c.fix) [
    | inl e ↦ rw (unfixed e) (refl, below)
    | inr (f, e) ↦
        let row = new_transaction (fix_params env fund c f) d in
        rw ((fixed f e).0) (
          total-add_transaction (in_account_through fund account k) row d
              ∙ no_contribution (in_account_through fund account k) row _
                  (above k row.id (fund == fund) (c.account_id == account) below),
          omega (arith, below, next_transaction_id_grows row d),
        )
  ]

-- A figure that the ledger recorded at a location up to the cutoff.
abbrev pub recorded_sum : ℕ → ℕ → Option ℕ → Db → ℤ
recorded_sum fund account none d = pos 0
recorded_sum fund account (some k) d = total (in_account_through fund account k) d

abbrev pub posted_at : ℕ → List AccountCount → ℤ
posted_at account [] = pos 0
posted_at account (c ∷ counts) =
    (if c.account_id == account then fix_amount c else pos 0) +ℤ posted_at account counts

plug_exact :
    (r : Resolution) (f : Fix) (diff : ℤ)
    → is_adjusted r ≡ true
    → check_plug r f diff ≡ ok tt
    → pos 1 ≤ℤ f.amount
    → f.amount ≤ℤ max_amount
    → (if is_in f.direction then f.amount else neg_ℤ f.amount) ≡ diff
unfolding check_plug signed_fix_amount sub wrap ◌-ℤ◌ neg_ℤ
plug_exact r f diff h k lo hi = ground arith

-- A count and the line that it became: the ledger's figure is that of the cutoff, a matched line has
-- no difference, and an adjusted line's fix is its difference.
abbrev pub LineOf : (ℕ → ℤ) → AccountCount → LineInput → Type 0
LineOf recorded c line =
    (line.account_id ≡ c.account_id)
    × (line.actual_amount ≡ c.actual_amount)
    × (line.resolution ≡ c.resolution)
    × (line.recorded_amount ≡ recorded c.account_id)
    × (is_matched c.resolution ≡ true → line.diff ≡ pos 0)
    × ((f : Fix) → c.fix ≡ some f → is_adjusted c.resolution ≡ true → fix_amount c ≡ line.diff)

abbrev pub LinesOf : (ℕ → ℤ) → List AccountCount → List LineInput → Type 0
LinesOf recorded [] [] = Unit
LinesOf recorded (c ∷ counts) (l ∷ lines) = LineOf recorded c l × LinesOf recorded counts lines
LinesOf recorded _ _ = ⊥

abbrev pub IsBelow : Option ℕ → Db → Type 0
IsBelow none d = Unit
IsBelow (some k) d = k < next_transaction_id d

module _ (env : Env) (fund : ℕ) (cutoff : Option ℕ) (recorded : ℕ → ℤ) where
  recorded_amount_exact :
      (o : Option ℕ) (account : ℕ) (d : Db) (v : ℤ)
      → recorded_amount fund account o d ≡ ok v
      → v ≡ recorded_sum fund account o d
  unfolding recorded_amount
  recorded_amount_exact none account d v h = ground arith
  recorded_amount_exact (some k) account d v h = account_balance_through_exact fund account k d h

  recorded_step :
      (o : Option ℕ) (c : AccountCount) (d : Db) (line : LineInput) (after : Db)
      → take_count env fund o c d ≡ (ok line, after)
      → IsBelow o d
      → IsBelow o after
        × ((account : ℕ) → recorded_sum fund account o after ≡ recorded_sum fund account o d)
  recorded_step none c d line after h below = (tt, λ account. refl)
  recorded_step (some k) c d line after h below = (
    (step_through env fund (some k) c d line after h 0 k below).1,
    λ account. (step_through env fund (some k) c d line after h account k below).0,
  )

  line_of :
      (c : AccountCount) (d : Db) (line : LineInput) (after : Db)
      → take_count env fund cutoff c d ≡ (ok line, after)
      → ((account : ℕ) → recorded_sum fund account cutoff d ≡ recorded account)
      → LineOf recorded c line
  line_of c d line after h same =
      let (e1, e2, e3, e4, e5) = line_facts env fund cutoff c d line after h in
      (
        e1,
        e2,
        e3,
        recorded_amount_exact cutoff c.account_id d line.recorded_amount e4 ∙ same c.account_id,
        e5,
        λ f e adjusted_one.
            let (left, accepted, plug) = fixed env fund cutoff c d line after h f e in
            let (lo, hi) = accepts-IsBounded (fix_params env fund c f) d accepted in
            rw e (plug_exact c.resolution f line.diff adjusted_one plug lo hi),
      )

  -- The whole loop.
  pub take_counts_lem :
      (counts : List AccountCount) (d : Db) (lines : List LineInput) (after : Db)
      → take_counts env fund cutoff counts d ≡ (ok lines, after)
      → IsBelow cutoff d
      → ((account : ℕ) → recorded_sum fund account cutoff d ≡ recorded account)
      → LinesOf recorded counts lines
        × ((account : ℕ)
            → total (in_account fund account) after
              ≡ total (in_account fund account) d +ℤ posted_at account counts)
  unfolding take_counts
  take_counts_lem [] d [] after h below same =
      let left : after ≡ d = ground arith in (tt, λ account. rw left (sym (+ℤ-zero _)))
  take_counts_lem [] d (l ∷ lines) after h below same = ground arith
  take_counts_lem (c ∷ counts) d lines after h below same =
      let rest : LineInput → Action (List LineInput) =
        λ line. take_counts env fund cutoff counts >>= λ ls. pure (line ∷ ls) in
      let (line, mid, first, left) =
        bind_split (take_count env fund cutoff c) rest d lines after h in
      let (ls, last, second, done) =
        bind_split (take_counts env fund cutoff counts) (λ ls. pure (line ∷ ls)) mid lines after
          left in
      let (below', same') = recorded_step cutoff c d line mid first below in
      let (each, sums) = take_counts_lem counts mid ls last second below' (λ a. same' a ∙ same a) in
      let shape : lines ≡ line ∷ ls = ground arith in
      let end : after ≡ last = ground arith in
      rw (shape, end)
        (
          (line_of c d line mid first same, each),
          λ account.
              sums account
              ∙ rw (step_total env fund cutoff c d line mid first account) (+ℤ_assoc _ _ _),
        )

  -- The loop writes transactions only.
  pub take_counts_keeps :
      (counts : List AccountCount) (d : Db) (lines : List LineInput) (after : Db)
      → take_counts env fund cutoff counts d ≡ (ok lines, after)
      → kept_by_counts after ≡ kept_by_counts d
  unfolding take_counts
  take_counts_keeps [] d lines after h = ground arith
  take_counts_keeps (c ∷ counts) d lines after h =
      let rest : LineInput → Action (List LineInput) =
        λ line. take_counts env fund cutoff counts >>= λ ls. pure (line ∷ ls) in
      let (line, mid, first, left) =
        bind_split (take_count env fund cutoff c) rest d lines after h in
      let (ls, last, second, done) =
        bind_split (take_counts env fund cutoff counts) (λ ls. pure (line ∷ ls)) mid lines after
          left in
      let (shape, end) = pure_split (line ∷ ls) lines last after done in
      ap kept_by_counts (sym end)
      ∙ take_counts_keeps counts mid ls last second
      ∙ one_keeps c d line mid first
    where
      one_keeps :
          (e : AccountCount) (before : Db) (l : LineInput) (later : Db)
          → take_count env fund cutoff e before ≡ (ok l, later)
          → kept_by_counts later ≡ kept_by_counts before
      one_keeps e before l later k = elim (Option-cases e.fix) [
        | inl none_one ↦ rw (unfixed env fund cutoff e before l later k none_one) refl
        | inr (f, some_one) ↦ rw ((fixed env fund cutoff e before l later k f some_one).0) refl
      ]
