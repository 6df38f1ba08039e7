-- ===== src/Tx/Replay.antt =====
-- internal/ledger/idempotency.go: what a keyed write ensures.
use uruni.Base.{
  arith, ◌⊎◌, ◌-◌, ◌<◌, ◌≡◌, refl, ap, true, false, Option, none, some, List, [], ◌∷◌, ◌++◌, ltb,
  Bool-cases, inl, inr, any, find?-split, find?-test, &&-eq-true,
}
use uruni.Errors.{ok, err, bad_stored_result}
use uruni.Dates.{text_eq}
use uruni.Dates.Window.{text_eq-eq}
use uruni.Store.Rows.{Db, IdempotencyKey}
use uruni.Store.Action.{
  Env, Action, Post, Post-bind, with_tx-Post, with_tx_ok, bind_ok, mark, pure, ◌>>=◌,
}
use uruni.Store.Queries.{get_idempotency_key}
use uruni.Tx.{
  Idempotency, Reply, Codec, delete_expired, key_accepted, add_key, create_idempotency_key, fresh,
  key_record, replay, write_and_record, keyed, with_idempotency,
}

abbrev pub with_keys : List IdempotencyKey → Db → Db
with_keys keys db = record db { idempotency_keys = keys }

is_new :
    (r : IdempotencyKey) (db : Db)
    → key_accepted r db ≡ true
    → any (λ (k : IdempotencyKey). text_eq k.key r.key) db.idempotency_keys ≡ false
unfolding key_accepted
is_new r db h = ground arith

create_idempotency_key-Post :
    (r : IdempotencyKey) (db : Db)
    → Post (create_idempotency_key r db) (λ u d.
      (d ≡ add_key r db)
      × (any (λ (k : IdempotencyKey). text_eq k.key r.key) db.idempotency_keys ≡ false))
unfolding create_idempotency_key
create_idempotency_key-Post r db = elim (Bool-cases (key_accepted r db)) [
  | inl e ↦ rw e (refl, is_new r db e)
  | inr e ↦ rw e tt
]

module _ {A : Type 0} (codec : Codec A) where
  -- The answer repeats the result that a live record of the same key and the same request holds.
  abbrev pub Replayed : Option Idempotency → Db → Reply A → Type 0
  Replayed none before r = ⊥
  Replayed (some i) before r =
      (rec : IdempotencyKey) × (xs : List IdempotencyKey) × (ys : List IdempotencyKey)
      × (before.idempotency_keys ≡ xs ++ (rec ∷ ys))
      × (rec.key ≡ i.key)
      × (rec.fingerprint ≡ i.fingerprint)
      × (i.now < rec.expires_at)
      × (codec.decode rec.result ≡ some r.value)

  -- The key is recorded once, with the request and the result.
  abbrev pub Recorded : Option Idempotency → A → Db → Type 0
  Recorded none a after = Unit
  Recorded (some i) a after =
      (others : List IdempotencyKey) × (after.idempotency_keys
        ≡ others
          ++ (record {
            key = i.key;
            fingerprint = i.fingerprint;
            result = codec.encode a;
            created_at = i.now;
            expires_at = i.expires_at;
          }
              ∷ []))
      × (any (λ (k : IdempotencyKey). text_eq k.key i.key) others ≡ false)

  -- What a keyed write answers with: a replay that changed nothing, or a first result that is
  -- recorded under its key.
  abbrev pub Answered {κ} : Option Idempotency → Db → (A → Db → Type κ) → Reply A → Db → Type κ
  Answered idem before Q r after =
      ((r.replayed ≡ true) × (after ≡ before) × Replayed idem before r)
      ⊎ ((r.replayed ≡ false) × Q r.value after × Recorded idem r.value after)

  module _ {κ} (write : Action A) (db : Db) (Q : A → Db → Type κ)
      (ensures : (keys : List IdempotencyKey) → Post (write (with_keys keys db)) Q)
      (stable : (a : A) (d : Db) (keys : List IdempotencyKey)
        → Q a d
        → Q a (with_keys keys d)) where
    write_and_record-Post :
        (i : Idempotency) → Post (write_and_record codec i write db) (Answered (some i) db Q)
    unfolding write_and_record
    write_and_record-Post i =
        Post-bind write (λ a. create_idempotency_key (key_record codec i a) >>= λ _. pure (fresh a))
          (delete_expired i.now db) Q (Answered (some i) db Q)
          (ensures (delete_expired i.now db).idempotency_keys)
          (λ a d q.
            Post-bind (create_idempotency_key (key_record codec i a)) (λ _. pure (fresh a)) d
              (λ u d'.
                (d' ≡ add_key (key_record codec i a) d)
                × (any (λ (k : IdempotencyKey). text_eq k.key i.key) d.idempotency_keys ≡ false))
              (Answered (some i) db Q) (create_idempotency_key-Post (key_record codec i a) d)
              (λ u d' (e, once). inr (
                refl,
                rw e (stable a d (add_key (key_record codec i a) d).idempotency_keys q),
                (d.idempotency_keys, ap (λ (x : Db). x.idempotency_keys) e, once),
              )))

    -- A live record of the key that the lookup found.
    replay-Post :
        (i : Idempotency) (r : IdempotencyKey)
        → get_idempotency_key i.key i.now db ≡ some r
        → Post (replay codec i r, db) (Answered (some i) db Q)
    replay-Post i r found = elim (Bool-cases (text_eq r.fingerprint i.fingerprint)) [
      | inl e ↦
          rw e (decoded (codec.decode r.result) refl (text_eq-eq r.fingerprint i.fingerprint e))
      | inr e ↦ rw e tt
    ]
      where
        decoded :
            (o : Option A)
            → codec.decode r.result ≡ o
            → r.fingerprint ≡ i.fingerprint
            → Post
                (
                  elim o [
                    | none ↦ err bad_stored_result
                    | some a ↦
                        ok (record {
                          value = a;
                          replayed = true;
                          age_seconds = i.now - r.created_at;
                        })
                  ],
                  db,
                )
                (Answered (some i) db Q)
        decoded none e same = tt
        decoded (some a) e same =
            let (xs, ys, split) = find?-split _ db.idempotency_keys r found in
            let (is_key, live) =
              &&-eq-true (text_eq r.key i.key) (ltb i.now r.expires_at)
                (find?-test _ db.idempotency_keys r found) in
            inl
              (refl, refl, (r, xs, ys, split, text_eq-eq r.key i.key is_key, same, ground arith, e))

    keyed-Post : (idem : Option Idempotency) → Post (keyed codec idem write db) (Answered idem db Q)
    unfolding keyed
    keyed-Post none =
        Post-bind write (λ a. pure (fresh a)) db Q (Answered none db Q)
          (ensures db.idempotency_keys) (λ a d q. inr (refl, q, tt))
    keyed-Post (some i) = answered (get_idempotency_key i.key i.now db) refl
      where
        answered :
            (o : Option IdempotencyKey)
            → get_idempotency_key i.key i.now db ≡ o
            → Post
                (elim o [
                  | none ↦ write_and_record codec i write db
                  | some r ↦ (replay codec i r, db)
                ])
                (Answered (some i) db Q)
        answered none e = write_and_record-Post i
        answered (some r) e = replay-Post i r e

    -- A write through withIdempotency, when it answers, is one of two. A replay changes nothing and
    -- answers with the result of a stored record that has the call's key and fingerprint and has not
    -- expired. A first result ensures what the body ensures of the answer and of the database, and,
    -- under a key, is recorded: exactly one record of the key stands afterwards, with the call's
    -- fingerprint and expiry and with the answer.
    pub with_idempotency-Post :
        (env : Env) (idem : Option Idempotency) (body : Env → Action A)
        → body (mark env) ≡ write
        → Post (with_idempotency env codec idem body db) (Answered idem db Q)
    unfolding with_idempotency
    with_idempotency-Post env idem body e =
        with_tx-Post env (λ inner. keyed codec idem (body inner)) db (Answered idem db Q)
          (rw e (keyed-Post idem))

-- A write without a key, outside a transaction, answers with what its body answers.
pub with_idempotency_ok :
    {A : Type 0} (env : Env) (codec : Codec A) (idem : Option Idempotency) (body : Env → Action A)
    (db : Db) (a : A) (after : Db)
    → env.marked ≡ false
    → idem ≡ none
    → body (mark env) db ≡ (ok a, after)
    → with_idempotency env codec idem body db ≡ (ok (fresh a), after)
unfolding with_idempotency keyed
with_idempotency_ok env codec idem body db a after outside unkeyed h =
    with_tx_ok env (λ inner. keyed codec idem (body inner)) db (fresh a) after outside
      (answered codec idem (body (mark env)) db a after unkeyed h)
  where
    answered :
        {A : Type 0} (codec : Codec A) (idem : Option Idempotency) (write : Action A) (db : Db)
        (a : A) (after : Db)
        → idem ≡ none
        → write db ≡ (ok a, after)
        → keyed codec idem write db ≡ (ok (fresh a), after)
    answered codec none write db a after e k = bind_ok write (λ b. pure (fresh b)) db a after k
    answered codec (some i) write db a after e k = ground arith
