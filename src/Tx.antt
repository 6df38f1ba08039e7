-- ===== src/Tx.antt =====
-- internal/ledger/idempotency.go: a keyed write is safe to repeat. The JSON text that the table
-- stores is modelled by the value that it encodes, `StoredResult`, and a `Codec` is json.Marshal
-- and json.Unmarshal at one result type.
pub mod Replay
pub mod Repeat
use uruni.Base.{
  ℕ, ◌-◌, ◌≡◌, refl, Bool, true, false, ◌&&◌, ◌||◌, not, Option, none, some, List, [], ◌∷◌, ◌++◌,
  ltb, leb, ◌==◌, if◌then◌else◌, any, all, filter, length,
}
use uruni.Errors.{Err, Result, ok, err, idempotency_key_reused, bad_stored_result, constraint}
use uruni.Dates.{Text, text_eq}
use uruni.Store.Rows.{
  Db, IdempotencyKey, StoredResult, Transaction, Transfer, Account, Reconciliation,
  stored_transaction, stored_transactions, stored_transfer, stored_account, stored_reconciliation,
}
use uruni.Store.Action.{Env, Action, pure, ◌>>=◌, ◌>>◌, with_tx}
use uruni.Store.Queries.{get_idempotency_key}

-- `Idempotency`, as the HTTP layer fills it.
pub record Idempotency : Type 0 where
  pub key : Text
  pub fingerprint : Text
  pub now : ℕ
  pub expires_at : ℕ

-- The result, with `Replayed` and `AgeSeconds`.
pub record Reply (A : Type 0) : Type 0 where
  pub value : A
  pub replayed : Bool
  pub age_seconds : ℕ

pub record Codec (A : Type 0) : Type 0 where
  pub encode : A → StoredResult
  pub decode : StoredResult → Option A
  pub decode-encode : (a : A) → decode (encode a) ≡ some a

abbrev pub transaction_codec : Codec Transaction
transaction_codec = record {
  encode = stored_transaction;
  decode = λ s. elim s [ stored_transaction t ↦ some t | _ ↦ none ];
  decode-encode = λ a. refl;
}

abbrev pub transactions_codec : Codec (List Transaction)
transactions_codec = record {
  encode = stored_transactions;
  decode = λ s. elim s [ stored_transactions t ↦ some t | _ ↦ none ];
  decode-encode = λ a. refl;
}

abbrev pub transfer_codec : Codec Transfer
transfer_codec = record {
  encode = stored_transfer;
  decode = λ s. elim s [ stored_transfer t ↦ some t | _ ↦ none ];
  decode-encode = λ a. refl;
}

abbrev pub account_codec : Codec Account
account_codec = record {
  encode = stored_account;
  decode = λ s. elim s [ stored_account t ↦ some t | _ ↦ none ];
  decode-encode = λ a. refl;
}

abbrev pub reconciliation_codec : Codec Reconciliation
reconciliation_codec = record {
  encode = stored_reconciliation;
  decode = λ s. elim s [ stored_reconciliation t ↦ some t | _ ↦ none ];
  decode-encode = λ a. refl;
}

-- A record that still answers.
abbrev pub is_live : ℕ → IdempotencyKey → Bool
is_live now r = ltb now r.expires_at

-- DeleteExpiredIdempotencyKeys
abbrev pub delete_expired : ℕ → Db → Db
delete_expired now db = record db { idempotency_keys = filter (is_live now) db.idempotency_keys }

-- A key holds letters, digits, `_` and `-`.
abbrev is_key_char : ℕ → Bool
is_key_char c =
    (leb 48 c && leb c 57)
    || (leb 65 c && leb c 90)
    || (leb 97 c && leb c 122)
    || (c == 95)
    || (c == 45)

-- The CHECKs and the primary key of idempotency_key.
unfoldable pub key_accepted : IdempotencyKey → Db → Bool
key_accepted r db =
    leb 16 (length r.key)
    && leb (length r.key) 64
    && all is_key_char r.key
    && (length r.fingerprint == 64)
    && ltb r.created_at r.expires_at
    && not (any (λ (k : IdempotencyKey). text_eq k.key r.key) db.idempotency_keys)

abbrev pub add_key : IdempotencyKey → Db → Db
add_key r db = record db { idempotency_keys = db.idempotency_keys ++ (r ∷ []) }

-- CreateIdempotencyKey
unfoldable pub create_idempotency_key : IdempotencyKey → Action (Unit {0})
create_idempotency_key r db =
    if key_accepted r db then (ok tt, add_key r db) else (err constraint, db)

module _ {A : Type 0} where
  abbrev pub fresh : A → Reply A
  fresh a = record { value = a; replayed = false; age_seconds = 0 }

  abbrev pub key_record : Codec A → Idempotency → A → IdempotencyKey
  key_record codec i a = record {
    key = i.key;
    fingerprint = i.fingerprint;
    result = codec.encode a;
    created_at = i.now;
    expires_at = i.expires_at;
  }

  -- The answer to a key that a live record holds.
  abbrev pub replay : Codec A → Idempotency → IdempotencyKey → Result (Reply A)
  replay codec i r =
      if text_eq r.fingerprint i.fingerprint
      then elim (codec.decode r.result) [
        | none ↦ err bad_stored_result
        | some a ↦ ok (record { value = a; replayed = true; age_seconds = i.now - r.created_at })
      ]
      else err idempotency_key_reused

  -- The first call under a key: purge, write, record.
  unfoldable pub write_and_record : Codec A → Idempotency → Action A → Action (Reply A)
  write_and_record codec i write db =
      (do a ← write; create_idempotency_key (key_record codec i a); pure (fresh a))
        (delete_expired i.now db)

  unfoldable pub keyed : Codec A → Option Idempotency → Action A → Action (Reply A)
  keyed codec none write db = (do a ← write; pure (fresh a)) db
  keyed codec (some i) write db = elim (get_idempotency_key i.key i.now db) [
    | none ↦ write_and_record codec i write db
    | some r ↦ (replay codec i r, db)
  ]

  -- `withIdempotency`
  unfoldable pub with_idempotency :
      Env → Codec A → Option Idempotency → (Env → Action A) → Action (Reply A)
  unfolding keyed write_and_record
  with_idempotency env codec idem write = with_tx env (λ inner. keyed codec idem (write inner))
