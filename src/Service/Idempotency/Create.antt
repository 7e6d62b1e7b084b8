-- ===== src/Service/Idempotency/Create.antt =====
-- internal/service/idempotency_pg.go, `IdempotentCreate`: the response of a creation is kept as it
-- was written and given again without being read.
use ufo_observation_command.Base.{
  ℕ, ℤ, String, eq_iff, Option, none, some, List, ◌≡◌, sym, ap, subst, ◌∙◌, wrap, sentinel,
  idempotency, Result, ok, not, refuse, refuse-ok, ok-injective, Method, arith,
}
use ufo_observation_command.Base.Methods.{
  ◌>>=◌, ◌>>◌, return, lift, map_error, bind-ok, map_error-ok, lift-ok,
}
use ufo_observation_command.Service.Idempotency.{
  IdempotencyRecord, IdempotencyStore, new_record, matches,
}
use ufo_observation_command.Service.Idempotency.Replay.{Holding, new_record-ok}

module _ {W T : Type 0} (store : IdempotencyStore W) (digest_hex : List ℕ → String)
    (marshal : T → Result String) (unmarshal : String → Result T) where
  -- No record: the response is created, written and kept.
  unfoldable pub keep_created : String → List ℕ → Method W (ℤ × T) → Method W (ℤ × String)
  unfolding new_record
  keep_created key body create = do
    created ← create
    payload ← map_error (wrap "marshal idempotent response: %w") (lift (marshal created.1))
    r ← new_record store digest_hex marshal unmarshal key body created.0 created.1
    store.put_record r
    return (created.0, payload)

  unfoldable pub give_kept :
      String → List ℕ → Method W (ℤ × T) → Option IdempotencyRecord → Method W (ℤ × String)
  unfolding keep_created matches
  give_kept key body create none = keep_created key body create
  give_kept key body create (some r) = do
    lift (
        refuse (not (matches store digest_hex marshal unmarshal r body))
          (wrap "idempotency key reused with different request: %w" (sentinel idempotency)))
    return (r.response_code, r.response_body)

  unfoldable pub idempotent_create : String → List ℕ → Method W (ℤ × T) → Method W (ℤ × String)
  unfolding give_kept
  idempotent_create key body create = do
    found ← store.get_record key
    give_kept key body create found

  given :
      (r : IdempotencyRecord) (key : String) (body : List ℕ) (create : Method W (ℤ × T)) (w w' : W)
      (code : ℤ) (payload : String)
      → give_kept key body create (some r) w ≡ (ok (code, payload), w')
      → (r.request_hash ≡ digest_hex body) × (r.response_code ≡ code) × (r.response_body ≡ payload)
  unfolding give_kept matches
  given r key body create w w' code payload h =
      let (x, t, e, k) = bind-ok _ _ h in
      let (a, b) = lift-ok _ e in
      let agreed : r.request_hash ≡ digest_hex body =
        (eq_iff r.request_hash (digest_hex body)).0 (ground (arith, refuse-ok _ _ a)) in
      let both : (r.response_code, r.response_body) ≡ (code, payload) =
        ok-injective (ap (λ x. x.0) k) in
      (agreed, ap (λ x. x.0) both, ap (λ x. x.1) both)

  module _ (as_jsonb : String → String) (holding : Holding store as_jsonb) where
    created :
        (key : String) (body : List ℕ) (create : Method W (ℤ × T)) (w w' : W) (code : ℤ)
        (payload : String)
        → ((u v : W) (x : ℤ × T)
            → create u ≡ (ok x, v)
            → holding.held u key ≡ none
            → holding.held v key ≡ none)
        → holding.held w key ≡ none
        → keep_created key body create w ≡ (ok (code, payload), w')
        → (r : IdempotencyRecord) × (holding.held w' key ≡ some r)
          × (r.request_hash ≡ digest_hex body)
          × (r.response_code ≡ code)
          × (r.response_body ≡ as_jsonb payload)
    unfolding keep_created
    created key body create w w' code payload fresh free h =
        let (response, v, c, d) = bind-ok _ _ h in
        let (text, s, f, g) = bind-ok _ _ d in
        let (written, unchanged) = lift-ok _ (map_error-ok _ _ f) in
        let (r, y, n, m) = bind-ok _ _ g in
        let (r_key, r_hash, r_code, r_body, same) =
          new_record-ok store digest_hex marshal unmarshal key body response.0 response.1 s y r n in
        let (z, last, put, done) = bind-ok _ _ m in
        let still : holding.held y key ≡ none =
          ap (λ w. holding.held w key) (same ∙ unchanged) ∙ fresh w v response c free in
        let row : IdempotencyRecord = record r { response_body = as_jsonb r.response_body } in
        let stored : holding.held last key ≡ some row =
          subst (λ k. holding.held last k ≡ some row) r_key
            (holding.put_held r y last put
              (subst (λ k. holding.held y k ≡ none) (sym r_key) still)) in
        let both : (response.0, text) ≡ (code, payload) = ok-injective (ap (λ x. x.0) done) in
        (
          row,
          ap (λ x. holding.held x.1 key) (sym done) ∙ stored,
          r_hash,
          r_code ∙ ap (λ x. x.0) both,
          ap as_jsonb (ok-injective (sym r_body ∙ written) ∙ ap (λ x. x.1) both),
        )

    -- After an IdempotentCreate under a free key has returned a response, each IdempotentCreate
    -- under the key that succeeds while its record is held is for a body of the same digest and
    -- returns the same code and the normal form in which the table keeps the first response, whatever
    -- it would create, when the first creation itself does not write under the key.
    pub idempotent_create_again :
        (key : String) (body later_body : List ℕ) (create later_create : Method W (ℤ × T))
        (w w' u u' : W) (code later_code : ℤ) (payload later_payload : String)
        → ((u v : W) (x : ℤ × T)
            → create u ≡ (ok x, v)
            → holding.held u key ≡ none
            → holding.held v key ≡ none)
        → holding.held w key ≡ none
        → idempotent_create key body create w ≡ (ok (code, payload), w')
        → holding.held u key ≡ holding.held w' key
        → idempotent_create key later_body later_create u ≡ (ok (later_code, later_payload), u')
        → (digest_hex later_body ≡ digest_hex body)
          × (later_code ≡ code)
          × (later_payload ≡ as_jsonb payload)
    unfolding idempotent_create give_kept
    idempotent_create_again key body later_body create later_create w w' u u' code later_code
          payload later_payload fresh free first held second =
        let (found, v, f, g) = bind-ok _ _ first in
        let (p, q) = holding.get_held key w v found f in
        let made : keep_created key body create v ≡ (ok (code, payload), w') =
          subst (λ o. give_kept key body create o v ≡ (ok (code, payload), w')) (p ∙ free) g in
        let (r, stored, r_hash, r_code, r_body) =
          created key body create v w' code payload fresh (q ∙ free) made in
        let (later, z, e, k) = bind-ok _ _ second in
        let (a, b) = holding.get_held key u z later e in
        let (l_hash, l_code, l_body) =
          given r key later_body later_create z u' later_code later_payload (
            subst
              (λ o.
                give_kept key later_body later_create o z ≡ (ok (later_code, later_payload), u'))
              (a ∙ held ∙ stored) k) in
        (sym l_hash ∙ r_hash, sym l_code ∙ r_code, sym l_body ∙ r_body)
