-- ===== src/Service/Idempotency/Keys.antt =====
-- internal/repository/idempotency.go: the table `idempotency_keys` and its two statements.
use ufo_observation_command.Base.{
  String, string_key, Option, none, some, Dict, get, put, get-put_self, is_some, if◌then◌else◌, ◌≡◌,
  sym, ap, ◌∙◌, Error, wrap, Result, ok, err, ok-injective, Method, arith,
}
use ufo_observation_command.Base.Methods.{map_error, map_error-ok}
use ufo_observation_command.Service.Idempotency.{IdempotencyRecord, IdempotencyStore}
use ufo_observation_command.Service.Idempotency.Replay.{Holding}

-- The rows of the table, and what says which statements fail.
pub record KeyWorld (D : Type 0) : Type 0 where
  pub rows : Dict String IdempotencyRecord
  pub driver : D

-- `as_jsonb` is the text that PostgreSQL gives back for a `jsonb` that was written as some text.
module _ {D : Type 0} (answer : D → Option Error × D) (wrap_write : Error → Error)
    (as_jsonb : String → String) where
  unfoldable pub run_query :
      Option Error × D
      → Dict String IdempotencyRecord
      → String
      → Result (Option IdempotencyRecord) × KeyWorld D
  run_query (some e, d) rows key = (err e, record { rows = rows; driver = d })
  run_query (none, d) rows key = (ok (get rows key), record { rows = rows; driver = d })

  unfoldable pub get_idempotency : String → Method (KeyWorld D) (Option IdempotencyRecord)
  unfolding run_query
  get_idempotency key =
      map_error (wrap "get idempotency record: %w") λ w. run_query (answer w.driver) w.rows key

  -- The row of a record; its `response_body` is a `jsonb`.
  abbrev pub stored_row : IdempotencyRecord → IdempotencyRecord
  stored_row r = record r { response_body = as_jsonb r.response_body }

  -- `ON CONFLICT (key) DO NOTHING`.
  unfoldable pub insert_key :
      Dict String IdempotencyRecord → IdempotencyRecord → Dict String IdempotencyRecord
  insert_key rows r = if is_some (get rows r.key) then rows else put rows r.key (stored_row r)

  unfoldable pub run_insert :
      Option Error × D
      → Dict String IdempotencyRecord
      → IdempotencyRecord
      → Result (Unit {0}) × KeyWorld D
  unfolding insert_key
  run_insert (some e, d) rows r = (err e, record { rows = rows; driver = d })
  run_insert (none, d) rows r = (ok tt, record { rows = insert_key rows r; driver = d })

  unfoldable pub put_idempotency : IdempotencyRecord → Method (KeyWorld D) (Unit {0})
  unfolding run_insert
  put_idempotency r = map_error wrap_write λ w. run_insert (answer w.driver) w.rows r

  abbrev pub key_store : IdempotencyStore (KeyWorld D)
  key_store = record { get_record = get_idempotency; put_record = put_idempotency }

  pub run_query-ok :
      (x : Option Error × D) (rows : Dict String IdempotencyRecord) (key : String)
      (found : Option IdempotencyRecord) (w : KeyWorld D)
      → run_query x rows key ≡ (ok found, w)
      → (found ≡ get rows key) × (w.rows ≡ rows)
  unfolding run_query
  run_query-ok (some e, d) rows key found w h = absurd (ground arith)
  run_query-ok (none, d) rows key found w h =
      (sym (ok-injective (ap (λ x. x.0) h)), ap (λ x. x.1.rows) (sym h))

  pub run_insert-ok :
      (x : Option Error × D) (rows : Dict String IdempotencyRecord) (r : IdempotencyRecord)
      (w : KeyWorld D)
      → run_insert x rows r ≡ (ok tt, w)
      → w.rows ≡ insert_key rows r
  unfolding run_insert
  run_insert-ok (some e, d) rows r w h = absurd (ground arith)
  run_insert-ok (none, d) rows r w h = ap (λ x. x.1.rows) (sym h)

  -- A record under a free key is held by the table.
  pub insert_key-get :
      (rows : Dict String IdempotencyRecord) (r : IdempotencyRecord)
      → get rows r.key ≡ none
      → get (insert_key rows r) r.key ≡ some (stored_row r)
  unfolding insert_key
  insert_key-get rows r e = rw (insert_key, e) (get-put_self rows r.key (stored_row r))

  unfoldable pub key_store_holding : Holding key_store as_jsonb
  unfolding get_idempotency put_idempotency
  key_store_holding = record {
    held = λ w key. get w.rows key;
    get_held = λ key w w' found h.
        (let (p, q) = run_query-ok (answer w.driver) w.rows key found w' (map_error-ok _ _ h) in
          (p, ap (λ rows. get rows key) q));
    put_held = λ r w w' h free.
        ap (λ rows. get rows r.key)
          (run_insert-ok (answer w.driver) w.rows r w' (map_error-ok _ _ h))
        ∙ insert_key-get w.rows r free;
  }
