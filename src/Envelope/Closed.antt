-- ===== src/Envelope/Closed.antt =====
-- internal/ledger/incidental.go: closing squares the envelope to zero.
use uruni.Base.{
  ℕ, ◌≡◌, refl, sym, ◌∙◌, subst, true, false, some, List, [], ◌∷◌, map, arith, ◌==◌, Bool-cases,
  inl, inr, ==_self,
}
use uruni.Base.Int.{ℤ, pos, ◌+ℤ◌, ◌-ℤ◌, neg_ℤ, ltb_ℤ, int_laws, zero-+ℤ, +ℤ-zero}
use uruni.Errors.{Result, ok, or_err, or_err-ok, amount_overflow}
use uruni.Money.{Amount, sub, IsInt64}
use uruni.Money.Checked.{sub_exact}
use uruni.Store.Rows.{Db, Transfer}
use uruni.Store.Action.{
  Env, Action, pure, ◌>>=◌, read, Post-answered, bind_split, read_split, pure_split,
}
use uruni.Store.Queries.{in_fund, in_account, in_purpose, amounts}
use uruni.Store.Sums.{sum, sql_sum, sql_sum-sum, fits_int64}
use uruni.Store.Balance.{total}
use uruni.Transfers.{TransferPair, post_transfer_pair}
use uruni.Transfers.Pair.{
  with_pair, pair_neutral, pair_leaves, pair_arrives, post_transfer_pair-Post,
}
use uruni.Dues.Payment.{main_purpose_id}
use uruni.Envelope.{
  positive_part, negative_part, collected_amount, disbursed_amount, CloseIncidentalAndRollParams,
  roll_pair, roll_leftover, cover_shortfall, square_envelope,
}

part_diff : (x : ℤ) → positive_part x -ℤ negative_part x ≡ x
unfolding ◌-ℤ◌ neg_ℤ
part_diff x = ground arith

rearranged : (a b c d x y : ℤ) → a -ℤ b ≡ x → c -ℤ d ≡ y → (a +ℤ c) -ℤ (b +ℤ d) ≡ x +ℤ y
rearranged a b c d x y h k = rw (sym h, sym k) (omega int_laws)

parts_sum : (xs : List ℤ) → sum (map positive_part xs) -ℤ sum (map negative_part xs) ≡ sum xs
parts_sum [] = omega int_laws
parts_sum (x ∷ xs) =
    rearranged (positive_part x) (negative_part x) (sum (map positive_part xs))
      (sum (map negative_part xs)) x (sum xs) (part_diff x) (parts_sum xs)

sql_sum_fits :
    (acc : ℤ) (xs : List ℤ) (v : ℤ)
    → fits_int64 acc ≡ true
    → sql_sum acc xs ≡ ok v
    → fits_int64 v ≡ true
unfolding sql_sum
sql_sum_fits acc [] v fits h = ground arith
sql_sum_fits acc (x ∷ xs) v fits h = ground (arith, sql_sum_fits (acc +ℤ x) xs v)

fits-IsInt64 : (v : ℤ) → fits_int64 v ≡ true → IsInt64 v
fits-IsInt64 v h = ground arith

-- What is left is exactly the envelope's balance.
pub leftover_exact :
    (fund purpose : ℕ) (db : Db) (collected disbursed leftover : ℤ)
    → collected_amount fund purpose db ≡ ok collected
    → disbursed_amount fund purpose db ≡ ok disbursed
    → sub collected disbursed ≡ some leftover
    → (leftover ≡ total (in_purpose fund purpose) db) × IsInt64 leftover
unfolding collected_amount disbursed_amount
leftover_exact fund purpose db collected disbursed leftover h k l =
    let xs = amounts (in_purpose fund purpose) db.transactions in
    let c = sql_sum-sum (pos 0) (map positive_part xs) collected h ∙ zero-+ℤ _ in
    let d = sql_sum-sum (pos 0) (map negative_part xs) disbursed k ∙ zero-+ℤ _ in
    let small_c =
      fits-IsInt64 collected (sql_sum_fits (pos 0) (map positive_part xs) collected refl h) in
    let small_d =
      fits-IsInt64 disbursed (sql_sum_fits (pos 0) (map negative_part xs) disbursed refl k) in
    elim (sub_exact collected disbursed small_c small_d) [
      | inl (small, e) ↦
          let exact : leftover ≡ collected -ℤ disbursed = ground arith in
          (exact ∙ rw (c, d) (parts_sum xs), rw exact small)
      | inr (large, e) ↦ ground arith
    ]

balanced : (x lo c : ℤ) → lo ≡ x → c ≡ pos 0 -ℤ lo → x +ℤ c ≡ pos 0
balanced x lo c h k = rw (k, h) (omega int_laws)

gained : (y lo c : ℤ) → c ≡ pos 0 -ℤ lo → y -ℤ c ≡ y +ℤ lo
gained y lo c h = rw h (omega int_laws)

total_zero : (b : ℤ) (x : ℤ) → b ≡ x → x -ℤ b ≡ pos 0
total_zero b x h = rw h (omega int_laws)

exact_sub :
    (leftover covering : ℤ)
    → IsInt64 leftover
    → sub (pos 0) leftover ≡ some covering
    → covering ≡ pos 0 -ℤ leftover
exact_sub leftover covering small h = elim (sub_exact (pos 0) leftover (ground arith) small) [
  | inl (fits, e) ↦ ground arith
  | inr (large, e) ↦ ground arith
]

-- What the switch leaves: the envelope's sum is nothing, the main purpose's grew by the leftover, and
-- the sums of every fund and every location stay.
abbrev pub SquaredTo : CloseIncidentalAndRollParams → ℤ → Db → Db → Type 0
SquaredTo p rolled before after =
    (total (in_purpose p.fund_id p.purpose_id) after ≡ pos 0)
    × ((main_id : ℕ)
        → main_purpose_id p.fund_id before ≡ ok main_id
        → total (in_purpose p.fund_id main_id) after
          ≡ total (in_purpose p.fund_id main_id) before +ℤ rolled)
    × ((fund : ℕ) → total (in_fund fund) after ≡ total (in_fund fund) before)
    × ((fund account : ℕ)
        → total (in_account fund account) after ≡ total (in_account fund account) before)

pair_written :
    (env : Env) (pair : TransferPair) (db : Db) (t : Transfer) (after : Db)
    → post_transfer_pair env pair db ≡ (ok t, after)
    → after ≡ with_pair env pair t db
pair_written env pair db t after h =
    (Post-answered (post_transfer_pair env pair db) _ t after h
      (post_transfer_pair-Post env pair db)).0

module _ (env : Env) (p : CloseIncidentalAndRollParams) (db : Db)
    (apart : (main_id : ℕ)
      → main_purpose_id p.fund_id db ≡ ok main_id
      → (main_id == p.purpose_id) ≡ false) where
  rolled_out :
      (main_id : ℕ) (leftover : ℤ) (t : Transfer)
      → main_purpose_id p.fund_id db ≡ ok main_id
      → leftover ≡ total (in_purpose p.fund_id p.purpose_id) db
      → SquaredTo p leftover db (with_pair env (roll_pair p p.purpose_id main_id leftover) t db)
  rolled_out main_id leftover t found exact =
      let pair = roll_pair p p.purpose_id main_id leftover in
      let other = apart main_id found in
      (
        pair_leaves env pair (in_purpose p.fund_id p.purpose_id) t db
              (rw (==_self p.fund_id, ==_self p.purpose_id) refl) (ground arith)
            ∙ total_zero leftover _ exact,
        λ m h.
            let same : m ≡ main_id = ground arith in
            rw same (
              pair_arrives env pair (in_purpose p.fund_id main_id) t db (ground arith)
                (ground arith)),
        λ fund. pair_neutral env pair (in_fund fund) t db refl,
        λ fund account. pair_neutral env pair (in_account fund account) t db refl,
      )

  covered :
      (main_id : ℕ) (leftover covering : ℤ) (t : Transfer)
      → main_purpose_id p.fund_id db ≡ ok main_id
      → leftover ≡ total (in_purpose p.fund_id p.purpose_id) db
      → covering ≡ pos 0 -ℤ leftover
      → SquaredTo p leftover db (with_pair env (roll_pair p main_id p.purpose_id covering) t db)
  covered main_id leftover covering t found exact negated =
      let pair = roll_pair p main_id p.purpose_id covering in
      let other = apart main_id found in
      (
        pair_arrives env pair (in_purpose p.fund_id p.purpose_id) t db (ground arith) (ground arith)
            ∙ balanced _ leftover covering exact negated,
        λ m h.
            let same : m ≡ main_id = ground arith in
            rw same (
              pair_leaves env pair (in_purpose p.fund_id main_id) t db (ground arith) (ground arith)
              ∙ gained _ leftover covering negated),
        λ fund. pair_neutral env pair (in_fund fund) t db refl,
        λ fund account. pair_neutral env pair (in_account fund account) t db refl,
      )

  rolled_facts :
      (leftover rolled : ℤ) (after : Db)
      → leftover ≡ total (in_purpose p.fund_id p.purpose_id) db
      → roll_leftover env p leftover db ≡ (ok rolled, after)
      → (rolled ≡ leftover) × SquaredTo p leftover db after
  unfolding roll_leftover
  rolled_facts leftover rolled after exact h =
      let post : ℕ → Action Amount = λ main_id.
        post_transfer_pair env (roll_pair p p.purpose_id main_id leftover) >>= λ _. pure leftover in
      let (main_id, found, first) = read_split (main_purpose_id p.fund_id) post db rolled after h in
      let (t, last, written, done) =
        bind_split (post_transfer_pair env (roll_pair p p.purpose_id main_id leftover))
          (λ _. pure leftover) db rolled after first in
      let (same, end) = pure_split leftover rolled last after done in
      let left = pair_written env (roll_pair p p.purpose_id main_id leftover) db t last written in
      (
        sym same,
        subst (SquaredTo p leftover db) (sym left ∙ end)
            (rolled_out main_id leftover t found exact),
      )

  covered_facts :
      (leftover rolled : ℤ) (after : Db)
      → leftover ≡ total (in_purpose p.fund_id p.purpose_id) db
      → IsInt64 leftover
      → cover_shortfall env p leftover db ≡ (ok rolled, after)
      → (rolled ≡ leftover) × SquaredTo p leftover db after
  unfolding cover_shortfall
  covered_facts leftover rolled after exact small h =
      let write : ℕ → ℤ → Action Amount = λ main_id covering.
        post_transfer_pair env (roll_pair p main_id p.purpose_id covering) >>= λ _. pure leftover in
      let signed : Db → Result ℤ = λ d. or_err (sub (pos 0) leftover) amount_overflow in
      let (main_id, found, first) =
        read_split (main_purpose_id p.fund_id) (λ m. read signed >>= write m) db rolled after h in
      let (covering, negated, second) = read_split signed (write main_id) db rolled after first in
      let (t, last, written, done) =
        bind_split (post_transfer_pair env (roll_pair p main_id p.purpose_id covering))
          (λ _. pure leftover) db rolled after second in
      let (same, end) = pure_split leftover rolled last after done in
      let left = pair_written env (roll_pair p main_id p.purpose_id covering) db t last written in
      (
        sym same,
        subst (SquaredTo p leftover db) (sym left ∙ end) (
            covered main_id leftover covering t found exact
              (exact_sub leftover covering small (or_err-ok _ _ covering negated))),
      )

  pub squared_facts :
      (leftover rolled : ℤ) (after : Db)
      → leftover ≡ total (in_purpose p.fund_id p.purpose_id) db
      → IsInt64 leftover
      → square_envelope env p leftover db ≡ (ok rolled, after)
      → (rolled ≡ leftover) × SquaredTo p leftover db after
  unfolding square_envelope
  squared_facts leftover rolled after exact small h = elim (Bool-cases (ltb_ℤ (pos 0) leftover)) [
    | inl e ↦ rolled_facts leftover rolled after exact (ground arith)
    | inr e ↦ elim (Bool-cases (ltb_ℤ leftover (pos 0))) [
      | inl e' ↦ covered_facts leftover rolled after exact small (ground arith)
      | inr e' ↦
          let nothing : leftover ≡ pos 0 = ground arith in
          let same : rolled ≡ pos 0 = ground arith in
          let end : db ≡ after = ground arith in
          (
            same ∙ sym nothing,
            subst (SquaredTo p leftover db) end (
              sym exact ∙ nothing,
              λ m found. rw nothing (sym (+ℤ-zero _)),
              λ fund. refl,
              λ fund account. refl,
            ),
          )
    ]
  ]
