-- ===== src/Reversal/Refusal.antt =====
-- internal/ledger/reversal.go: ReversalFacts, ReversalRefusal, ReversalDate, DuesPaymentRefusal,
-- and what they decide.
use uruni.Base.{
  ◌≡◌, refl, ◌↔◌, arith, All, any, Bool, true, false, ◌&&◌, ◌||◌, not, List, [], ◌∷◌, if◌then◌else◌,
}
use uruni.Errors.{
  Result, ok, err, refuse_if, ◌>>◌, incidental_closed, reversal_opening, reversal_reimbursement,
  reversal_transfer, reversal_adjustment, reversal_of_reversal, reversal_reconciliation_fix,
  reversal_before_original, already_reversed, no_reversal_rule,
}
use uruni.Dates.{Text, text_lt}
use uruni.Store.Rows.{
  TransactionKind, opening, normal, dues, reimbursement, adjustment, transfer, unknown,
}

pub record ReversalFacts : Type 0 where
  pub kind : TransactionKind
  pub occurred_on : Text
  pub is_reversal : Bool
  pub reversed : Bool
  pub is_reconciliation_fix : Bool
  pub effective_closed : Bool
  pub counted : Bool

-- The switch of `ReversalRefusal`.
unfoldable pub kind_refusal : ReversalFacts → Result (Unit {0})
kind_refusal f = elim f.kind [
  | dues ↦ ok tt
  | normal ↦ refuse_if f.is_reconciliation_fix reversal_reconciliation_fix
  | opening ↦ err reversal_opening
  | reimbursement ↦ err reversal_reimbursement
  | transfer ↦ err reversal_transfer
  | adjustment ↦ if f.is_reversal then err reversal_of_reversal else err reversal_adjustment
  | unknown ↦ err no_reversal_rule
]

-- `ReversalRefusal`
unfoldable pub reversal_refusal : ReversalFacts → Text → Result (Unit {0})
unfolding kind_refusal
reversal_refusal f today = do
  kind_refusal f
  refuse_if f.reversed already_reversed
  refuse_if f.effective_closed incidental_closed
  refuse_if (f.counted && text_lt today f.occurred_on) reversal_before_original

-- `ReversalDate`
abbrev pub reversal_date : Text → Bool → Text → Text
reversal_date occurred_on counted today = if counted then today else occurred_on

-- The loop of `DuesPaymentRefusal`, with whether a standing month was seen.
unfoldable pub months_refusal : List ReversalFacts → Text → Bool → Result (Unit {0})
months_refusal [] today standing = refuse_if (not standing) already_reversed
months_refusal (m ∷ months) today standing =
    let skip = months_refusal months today standing in
    let on = months_refusal months today true in
    if m.reversed then skip else (reversal_refusal m today >> on)

-- `DuesPaymentRefusal`
unfoldable pub dues_payment_refusal : List ReversalFacts → Text → Result (Unit {0})
dues_payment_refusal months today = months_refusal months today false

-- A row that can be taken back.
abbrev pub is_reversible_kind : ReversalFacts → Bool
is_reversible_kind f = elim f.kind [
  | dues ↦ true
  | normal ↦ not f.is_reconciliation_fix
  | _ ↦ false
]

abbrev pub IsReversible : ReversalFacts → Text → Type 0
IsReversible f today =
    (is_reversible_kind f ≡ true)
    × (f.reversed ≡ false)
    × (f.effective_closed ≡ false)
    × ((f.counted && text_lt today f.occurred_on) ≡ false)

-- ReversalRefusal accepts a row exactly when it is a dues row, or a normal row that fixes no
-- reconciliation line, not reversed yet, with its money under no closed envelope, and not both
-- counted and dated after today.
pub reversal_refusal_lem :
    (f : ReversalFacts) (today : Text) → (reversal_refusal f today ≡ ok tt) ↔ IsReversible f today
unfolding reversal_refusal kind_refusal
reversal_refusal_lem f today = ground arith

text_lt_irrefl : (s : Text) → text_lt s s ≡ false
text_lt_irrefl [] = refl
text_lt_irrefl (c ∷ s) = ground (arith, text_lt_irrefl s)

-- A reversal that is not refused is never dated before the row that it reverses.
pub reversal_date-not-before :
    (f : ReversalFacts) (today : Text)
    → reversal_refusal f today ≡ ok tt
    → text_lt (reversal_date f.occurred_on f.counted today) f.occurred_on ≡ false
reversal_date-not-before f today h =
    dated f.counted (text_lt_irrefl f.occurred_on) ((reversal_refusal_lem f today).0 h).3
  where
    dated :
        (b : Bool)
        → text_lt f.occurred_on f.occurred_on ≡ false
        → (b && text_lt today f.occurred_on) ≡ false
        → text_lt (if b then today else f.occurred_on) f.occurred_on ≡ false
    dated true irreflexive k = k
    dated false irreflexive k = irreflexive

-- A month that no reversal has taken back yet.
abbrev pub stands : ReversalFacts → Bool
stands m = not m.reversed

abbrev pub AllReversible : List ReversalFacts → Text → Type 0
AllReversible months today = All (λ m. stands m ≡ true → reversal_refusal m today ≡ ok tt) months

sequence-ok : (a b : Result (Unit {0})) → (a >> b) ≡ ok tt → (a ≡ ok tt) × (b ≡ ok tt)
sequence-ok (ok u) b h = (refl, h)
sequence-ok (err e) b h = ground arith

months_refusal-ok :
    (months : List ReversalFacts) (today : Text) (standing : Bool)
    → months_refusal months today standing ≡ ok tt
    → ((standing || any stands months) ≡ true) × AllReversible months today
unfolding months_refusal
months_refusal-ok [] today standing h = (ground arith, tt)
months_refusal-ok (m ∷ months) today standing h =
    month m.reversed (months_refusal-ok months today standing) (months_refusal-ok months today true)
      h
  where
    month :
        (b : Bool)
        → (months_refusal months today standing ≡ ok tt
            → ((standing || any stands months) ≡ true) × AllReversible months today)
        → (months_refusal months today true ≡ ok tt
            → ((true || any stands months) ≡ true) × AllReversible months today)
        → (if b
            then months_refusal months today standing
            else (reversal_refusal m today >> months_refusal months today true))
          ≡ ok tt
        → ((standing || (not b || any stands months)) ≡ true)
          × ((not b ≡ true → reversal_refusal m today ≡ ok tt) × AllReversible months today)
    month true skip on k = ((skip k).0, (λ f. ground arith, (skip k).1))
    month false skip on k =
        let (here, rest) =
          sequence-ok (reversal_refusal m today) (months_refusal months today true) k in
        (ground arith, (λ f. here, (on rest).1))

ok-months_refusal :
    (months : List ReversalFacts) (today : Text) (standing : Bool)
    → (standing || any stands months) ≡ true
    → AllReversible months today
    → months_refusal months today standing ≡ ok tt
unfolding months_refusal
ok-months_refusal [] today standing some_stands h = ground arith
ok-months_refusal (m ∷ months) today standing some_stands h =
    ground (
      arith,
      ok-months_refusal months today standing,
      ok-months_refusal months today true,
      h.0,
      h.1,
    )

-- DuesPaymentRefusal accepts a payment exactly when some month of it stands and ReversalRefusal
-- accepts every month that stands.
pub dues_payment_refusal_lem :
    (months : List ReversalFacts) (today : Text)
    → (dues_payment_refusal months today ≡ ok tt)
      ↔ ((any stands months ≡ true) × AllReversible months today)
unfolding dues_payment_refusal
dues_payment_refusal_lem months today = (
  months_refusal-ok months today false,
  λ (some_stands, h). ok-months_refusal months today false some_stands h,
)
