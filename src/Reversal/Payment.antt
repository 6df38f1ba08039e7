-- ===== src/Reversal/Payment.antt =====
-- internal/ledger/reversal.go: reversing a dues payment whole.
use uruni.Base.{
  subst, ℕ, ◌≡◌, refl, sym, ap, ◌∙◌, Bool, true, false, Option, some, List, [], ◌∷◌, ◌++◌, map,
  arith, All, any-append, filter, is_same, if◌then◌else◌,
}
use uruni.Base.Int.{ℤ, ◌-ℤ◌, int_laws}
use uruni.Errors.{Result, ok, err, reversal_not_found}
use uruni.Dates.{Text, DateWindow}
use uruni.Store.Rows.{Db, Transaction}
use uruni.Store.Action.{
  Env, Action, mark, pure, ◌>>=◌, check, read, Post, Post-bind, Post-read, Post-weaken,
  with_tx-Post,
}
use uruni.Store.Queries.{in_fund, signed_amount, reversed}
use uruni.Store.Insert.{new_transaction, add_transaction}
use uruni.Store.Sums.{sum}
use uruni.Store.Balance.{total, create_transaction-Post}
use uruni.Posting.{window_for}
use uruni.Reversal.Refusal.{dues_payment_refusal}
use uruni.Reversal.Post.{
  ReversalTarget, target_of, list_dues_payment_reversal_targets, reversal_params, post_reversal,
  post_reversals, is_standing, reverse_dues_payment_tx, ReverseParams, reverse_dues_payment,
}
use uruni.Reversal.Net.{taken_back}

-- What the targets had brought.
abbrev pub brought : List ReversalTarget → ℤ
brought os = sum (map (λ (o : ReversalTarget). signed_amount o.row) os)

abbrev pub RowsPosted :
    Env → ℕ → List ReversalTarget → Text → Option Text → Db → List Transaction → Db → Type 0
RowsPosted env fund os today remark before rs after =
    (after.transactions ≡ before.transactions ++ rs)
    × (map (λ (r : Transaction). r.params) rs
        ≡ map (λ o. reversal_params env fund o today remark) os)

-- The rows now read as reversed, and so does every row that did before.
abbrev pub Reversed : List ReversalTarget → Db → Db → Type 0
Reversed os before after =
    ((id : ℕ) → reversed id before ≡ true → reversed id after ≡ true)
    × All (λ (o : ReversalTarget). reversed o.row.id after ≡ true) os

abbrev pub Swept :
    Env → ℕ → List ReversalTarget → Text → Option Text → Db → List Transaction → Db → Type 0
Swept env fund os today remark before rs after =
    RowsPosted env fund os today remark before rs after
    × (total (in_fund fund) after ≡ total (in_fund fund) before -ℤ brought os)
    × Reversed os before after

reversed_stays :
    (id : ℕ) (t : Transaction) (db : Db)
    → reversed id db ≡ true
    → reversed id (add_transaction t db) ≡ true
reversed_stays id t db h =
    any-append (λ (r : Transaction). is_same r.reverses_transaction_id (some id)) db.transactions
      (t ∷ [])
    ∙ rw h refl

append_assoc {ℓ} :
    {A : Type ℓ} (xs : List A) (y : A) (ys : List A) → (xs ++ (y ∷ [])) ++ ys ≡ xs ++ (y ∷ ys)
append_assoc [] y ys = refl
append_assoc (x ∷ xs) y ys = ap (λ l. x ∷ l) (append_assoc xs y ys)

append_nil {ℓ} : {A : Type ℓ} (xs : List A) → xs ≡ xs ++ []
append_nil [] = refl
append_nil (x ∷ xs) = ap (λ l. x ∷ l) (append_nil xs)

-- One more reversal before a sweep.
sweep_one :
    (env : Env) (fund : ℕ) (o : ReversalTarget) (os : List ReversalTarget) (today : Text)
    (remark : Option Text) (db : Db) (rs : List Transaction) (after : Db)
    → Swept env fund os today remark
        (add_transaction (new_transaction (reversal_params env fund o today remark) db) db)
        rs
        after
    → Swept env fund
        (o ∷ os)
        today
        remark
        db
        (new_transaction (reversal_params env fund o today remark) db ∷ rs)
        after
sweep_one env fund o os today remark db rs after ((left, made), lost, (stays, done)) =
    let (here, _, _, marked) = taken_back env fund o today remark db in
    (
      (
        left
            ∙ append_assoc db.transactions
                (new_transaction (reversal_params env fund o today remark) db) rs,
        ap (λ l. reversal_params env fund o today remark ∷ l) made,
      ),
      lost ∙ ap (λ s. s -ℤ brought os) here ∙ omega int_laws,
      (
        λ id h.
            stays id (
              reversed_stays id (new_transaction (reversal_params env fund o today remark) db) db
                h),
        (stays o.row.id marked, done),
      ),
    )

post_reversals-Post :
    (env : Env) (fund : ℕ) (os : List ReversalTarget) (today : Text) (remark : Option Text)
    (db : Db)
    → Post (post_reversals env fund os today remark db) (Swept env fund os today remark db)
unfolding post_reversals
post_reversals-Post env fund [] today remark db =
    ((append_nil db.transactions, refl), omega int_laws, (λ id h. h, tt))
post_reversals-Post env fund (o ∷ os) today remark db =
    let Q = Swept env fund (o ∷ os) today remark db in
    let keep : Transaction → List Transaction → Action (List Transaction) = λ r rs. pure (r ∷ rs) in
    let others : Transaction → Action (List Transaction) =
      λ r. post_reversals env fund os today remark >>= keep r in
    Post-bind (post_reversal env fund o today remark) others db _ Q
      (create_transaction-Post (reversal_params env fund o today remark) db)
      (λ r d1 (made, left, taken).
        Post-bind (post_reversals env fund os today remark) (keep r) d1 _ Q
          (post_reversals-Post env fund os today remark d1)
          (λ rs d2 swept. rw made (
            sweep_one env fund o os today remark db rs d2 (
              subst (λ d. Swept env fund os today remark d rs d2)
                (left ∙ ap (λ x. add_transaction x db) made) swept))))

-- Targets that no sweep takes read as reversed before it.
targets_marked :
    (fund : ℕ) (rows : List Transaction) (db : Db)
    → All
        (λ (o : ReversalTarget). is_standing o ≡ false → reversed o.row.id db ≡ true)
        (map (target_of fund db) rows)
unfolding target_of
targets_marked fund [] db = tt
targets_marked fund (t ∷ rows) db = (λ h. ground arith, targets_marked fund rows db)

All-of-filter :
    (os : List ReversalTarget) (before after : Db)
    → Reversed (filter is_standing os) before after
    → All (λ (o : ReversalTarget). is_standing o ≡ false → reversed o.row.id before ≡ true) os
    → All (λ (o : ReversalTarget). reversed o.row.id after ≡ true) os
All-of-filter [] before after h marked = tt
All-of-filter (o ∷ os) before after (stays, done) marked =
    one (is_standing o) (λ d. All-of-filter os before after (stays, d) marked.1) done marked.0
  where
    one :
        (b : Bool)
        → (All (λ (x : ReversalTarget). reversed x.row.id after ≡ true) (filter is_standing os)
            → All (λ (x : ReversalTarget). reversed x.row.id after ≡ true) os)
        → All
            (λ (x : ReversalTarget). reversed x.row.id after ≡ true)
            (if b then o ∷ filter is_standing os else filter is_standing os)
        → (b ≡ false → reversed o.row.id before ≡ true)
        → (reversed o.row.id after ≡ true)
          × All (λ (x : ReversalTarget). reversed x.row.id after ≡ true) os
    one true rest d m = (d.0, rest d.1)
    one false rest d m = (stays o.row.id (m refl), rest d)

-- The standing rows of the payment were reversed, in one sweep that each of them allowed, and every
-- row of the payment reads as reversed, whoever reversed it.
abbrev pub SweptPayment :
    Env → ReverseParams → List ReversalTarget → Db → List Transaction → Db → Type 0
SweptPayment env p os before rs after =
    (w : DateWindow) × (window_for env p.fund_id before ≡ ok w)
    × (dues_payment_refusal (map (λ (o : ReversalTarget). o.facts) os) w.today ≡ ok tt)
    × RowsPosted env p.fund_id (filter is_standing os) w.today p.note before rs after
    × (total (in_fund p.fund_id) after
        ≡ total (in_fund p.fund_id) before -ℤ brought (filter is_standing os))
    × All (λ (o : ReversalTarget). reversed o.row.id after ≡ true) os

abbrev pub PaymentReversed : Env → ReverseParams → Db → List Transaction → Db → Type 0
PaymentReversed env p before rs after =
    SweptPayment env p (list_dues_payment_reversal_targets p.fund_id p.id before) before rs after

listed_marked :
    (fund payment : ℕ) (db : Db)
    → All
        (λ (o : ReversalTarget). is_standing o ≡ false → reversed o.row.id db ≡ true)
        (list_dues_payment_reversal_targets fund payment db)
unfolding list_dues_payment_reversal_targets
listed_marked fund payment db = targets_marked fund _ db

found_list :
    (l os : List ReversalTarget)
    → elim l as (λ _. Result (List ReversalTarget)) [
      | [] ↦ err reversal_not_found
      | t ∷ ts ↦ ok (t ∷ ts)
    ]
      ≡ ok os
    → l ≡ os
found_list [] os h = ground arith
found_list (t ∷ ts) os h = ground arith

pub reverse_dues_payment_tx-Post :
    (env : Env) (p : ReverseParams) (db : Db)
    → Post (reverse_dues_payment_tx env p.fund_id p.id p.note db) (PaymentReversed env p db)
unfolding reverse_dues_payment_tx
reverse_dues_payment_tx-Post env p db =
    let Q = PaymentReversed env p db in
    let found : Db → Result (List ReversalTarget) = λ d.
      elim (list_dues_payment_reversal_targets p.fund_id p.id d) [
        | [] ↦ err reversal_not_found
        | t ∷ ts ↦ ok (t ∷ ts)
      ] in
    let sweep : List ReversalTarget → DateWindow → Action (List Transaction) =
      λ os w. post_reversals env p.fund_id (filter is_standing os) w.today p.note in
    let decided : List ReversalTarget → DateWindow → Action (List Transaction) = λ os w.
      check (dues_payment_refusal (map (λ (o : ReversalTarget). o.facts) os) w.today) >>= λ _.
      sweep os w in
    let dated : List ReversalTarget → Action (List Transaction) =
      λ os. read (window_for env p.fund_id) >>= decided os in
    Post-read found dated db Q (λ os listed.
      Post-read (window_for env p.fund_id) (decided os) db Q (λ w opened.
        Post-read (λ _. dues_payment_refusal (map (λ (o : ReversalTarget). o.facts) os) w.today)
          (λ _. sweep os w) db Q
          (λ u allowed.
            subst (λ l. Post (sweep os w db) (SweptPayment env p l db))
              (sym (found_list _ os listed))
              (Post-weaken (sweep os w db)
                (Swept env p.fund_id (filter is_standing os) w.today p.note db)
                (SweptPayment env p os db)
                (post_reversals-Post env p.fund_id (filter is_standing os) w.today p.note db)
                (λ rs after (rows, lost, marked). (
                  w,
                  opened,
                  allowed,
                  rows,
                  lost,
                  All-of-filter os db after marked (
                      subst
                        (All (λ (o : ReversalTarget).
                          is_standing o ≡ false → reversed o.row.id db ≡ true))
                        (found_list _ os listed) (listed_marked p.fund_id p.id db)),
                ))))))

-- ReverseDuesPayment either refuses, or posts the reversals of exactly the months that stood: the
-- fund's sum falls by what those months had brought, and after it every month of the payment reads
-- as reversed.
pub reverse_dues_payment_lem :
    (env : Env) (p : ReverseParams) (db : Db)
    → Post (reverse_dues_payment env p db) (PaymentReversed (mark env) p db)
unfolding reverse_dues_payment
reverse_dues_payment_lem env p db =
    with_tx-Post env (λ inner. reverse_dues_payment_tx inner p.fund_id p.id p.note) db
      (PaymentReversed (mark env) p db) (reverse_dues_payment_tx-Post (mark env) p db)
