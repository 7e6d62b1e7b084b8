-- ===== src/Service/Idempotency/Replay.antt =====
-- internal/service/idempotency.go: what is given under a key after a first response was kept there.
use ufo_observation_command.Base.{
  ℕ, ℤ, String, eq_iff, Option, none, some, List, ◌≡◌, sym, ap, subst, ◌∙◌, Result, ok, refl,
  ok-injective, refuse-ok, Method, arith,
}
use ufo_observation_command.Base.Methods.{bind-ok, map_error-ok, lift-ok}
use ufo_observation_command.Service.Idempotency.{
  IdempotencyRecord, IdempotencyStore, new_record, matches, replay, create_and_keep, replay_found,
  replay_or,
}

-- What is documented of a table of records: a read gives what is held and changes nothing, and a
-- record that is written under a free key is held. The column of the response is `jsonb`, which keeps
-- a normal form of the text, `as_jsonb`.
pub record Holding {W : Type 0} (store : IdempotencyStore W) (as_jsonb : String → String)
    : Type 0 where
  pub held : W → String → Option IdempotencyRecord
  pub get_held :
      (key : String) (w w' : W) (found : Option IdempotencyRecord)
      → store.get_record key w ≡ (ok found, w')
      → (found ≡ held w key) × (held w' key ≡ held w key)
  pub put_held :
      (r : IdempotencyRecord) (w w' : W)
      → store.put_record r w ≡ (ok tt, w')
      → held w r.key ≡ none
      → held w' r.key ≡ some (record r { response_body = as_jsonb r.response_body })

module _ {W T : Type 0} (store : IdempotencyStore W) (digest_hex : List ℕ → String)
    (marshal : T → Result String) (unmarshal : String → Result T) where
  pub new_record-ok :
      (key : String) (body : List ℕ) (code : ℤ) (value : T) (w w' : W) (r : IdempotencyRecord)
      → new_record store digest_hex marshal unmarshal key body code value w ≡ (ok r, w')
      → (r.key ≡ key)
        × (r.request_hash ≡ digest_hex body)
        × (r.response_code ≡ code)
        × (marshal value ≡ ok r.response_body)
        × (w' ≡ w)
  unfolding new_record
  new_record-ok key body code value w w' r h =
      let (x, t, e, k) = bind-ok _ _ h in
      let (payload, u, f, g) = bind-ok _ _ k in
      let (a, b) = lift-ok _ e in
      let (c, d) = lift-ok _ (map_error-ok _ _ f) in
      let one : IdempotencyRecord = record {
        key = key;
        request_hash = digest_hex body;
        response_code = code;
        response_body = payload;
      } in
      let same : r ≡ one = sym (ok-injective (ap (λ x. x.0) g)) in
      (
        ap (λ r. r.key) same,
        ap (λ r. r.request_hash) same,
        ap (λ r. r.response_code) same,
        c ∙ ap (λ r. ok r.response_body) (sym same),
        sym (ap (λ x. x.1) g) ∙ d ∙ b,
      )

  replay-ok :
      (r : IdempotencyRecord) (body : List ℕ) (w w' : W) (code : ℤ) (value : T)
      → replay store digest_hex marshal unmarshal r body w ≡ (ok (code, value), w')
      → (r.request_hash ≡ digest_hex body)
        × (r.response_code ≡ code)
        × (unmarshal r.response_body ≡ ok value)
  unfolding replay matches
  replay-ok r body w w' code value h =
      let (x, t, e, k) = bind-ok _ _ h in
      let (replayed, u, f, g) = bind-ok _ _ k in
      let (a, b) = lift-ok _ e in
      let (c, d) = lift-ok _ (map_error-ok _ _ f) in
      let agreed : r.request_hash ≡ digest_hex body =
        (eq_iff r.request_hash (digest_hex body)).0 (ground (arith, refuse-ok _ _ a)) in
      let both : (r.response_code, replayed) ≡ (code, value) = ok-injective (ap (λ x. x.0) g) in
      (agreed, ap (λ x. x.0) both, c ∙ ap (λ x. ok x.1) both)

  module _ (as_jsonb : String → String) (holding : Holding store as_jsonb) where
    -- A first call under a free key keeps a record of its request and its response.
    kept :
        (key : String) (body : List ℕ) (create : Method W (ℤ × T)) (w w' : W) (code : ℤ) (value : T)
        → ((u v : W) (x : ℤ × T)
            → create u ≡ (ok x, v)
            → holding.held u key ≡ none
            → holding.held v key ≡ none)
        → holding.held w key ≡ none
        → replay_or store digest_hex marshal unmarshal key body create w ≡ (ok (code, value), w')
        → (r : IdempotencyRecord) × (holding.held w' key ≡ some r)
          × (r.request_hash ≡ digest_hex body)
          × (r.response_code ≡ code)
          × ((text : String) × (marshal value ≡ ok text) × (r.response_body ≡ as_jsonb text))
    unfolding replay_or replay_found create_and_keep
    kept key body create w w' code value fresh free h =
        let (x, t, e, k) = bind-ok _ _ h in
        let (a, b) = lift-ok _ e in
        let (found, u, f, g) = bind-ok _ _ k in
        let (p, q) = holding.get_held key t u found f in
        let none_found : found ≡ none = p ∙ ap (λ w. holding.held w key) b ∙ free in
        let made : create_and_keep store digest_hex marshal unmarshal key body create u
            ≡ (ok (code, value), w') =
          subst
            (λ o.
              replay_found store digest_hex marshal unmarshal key body create o u
              ≡ (ok (code, value), w'))
            none_found g in
        let (response, v, c, d) = bind-ok _ _ made in
        let (r, y, n, m) = bind-ok _ _ d in
        let (r_key, r_hash, r_code, r_body, same) =
          new_record-ok key body response.0 response.1 v y r n in
        let (z, last, put, done) = bind-ok _ _ m in
        let still : holding.held y key ≡ none =
          ap (λ w. holding.held w key) same
          ∙ fresh u v response c (q ∙ ap (λ w. holding.held w key) b ∙ free) in
        let row : IdempotencyRecord = record r { response_body = as_jsonb r.response_body } in
        let stored : holding.held last key ≡ some row =
          subst (λ k. holding.held last k ≡ some row) r_key
            (holding.put_held r y last put
              (subst (λ k. holding.held y k ≡ none) (sym r_key) still)) in
        let both : response ≡ (code, value) = ok-injective (ap (λ x. x.0) done) in
        (
          row,
          ap (λ x. holding.held x.1 key) (sym done) ∙ stored,
          r_hash,
          r_code ∙ ap (λ x. x.0) both,
          (r.response_body, ap (λ x. marshal x.1) (sym both) ∙ r_body, refl),
        )

    -- After a ReplayOr under a free key has returned a response, each ReplayOr under the key that
    -- succeeds while its record is held is for a body of the same digest and returns that response,
    -- whatever it would create. The first creation itself must not write under the key, and a
    -- response must be read back from the normal form in which the table keeps its JSON.
    pub replay_or_again :
        (key : String) (body later_body : List ℕ) (create later_create : Method W (ℤ × T))
        (w w' u u' : W) (code later_code : ℤ) (value later_value : T)
        → ((u v : W) (x : ℤ × T)
            → create u ≡ (ok x, v)
            → holding.held u key ≡ none
            → holding.held v key ≡ none)
        → ((v : T) (text : String) → marshal v ≡ ok text → unmarshal (as_jsonb text) ≡ ok v)
        → holding.held w key ≡ none
        → replay_or store digest_hex marshal unmarshal key body create w ≡ (ok (code, value), w')
        → holding.held u key ≡ holding.held w' key
        → replay_or store digest_hex marshal unmarshal key later_body later_create u
          ≡ (ok (later_code, later_value), u')
        → (digest_hex later_body ≡ digest_hex body) × (later_code ≡ code) × (later_value ≡ value)
    unfolding replay_or replay_found
    replay_or_again key body later_body create later_create w w' u u' code later_code value
          later_value fresh round_trip free first held second =
        let (r, stored, r_hash, r_code, (text, r_text, r_body)) =
          kept key body create w w' code value fresh free first in
        let (x, t, e, k) = bind-ok _ _ second in
        let (a, b) = lift-ok _ e in
        let (found, v, f, g) = bind-ok _ _ k in
        let (p, q) = holding.get_held key t v found f in
        let found_r : found ≡ some r = p ∙ ap (λ w. holding.held w key) b ∙ held ∙ stored in
        let replayed : replay store digest_hex marshal unmarshal r later_body v
            ≡ (ok (later_code, later_value), u') =
          subst
            (λ o.
              replay_found store digest_hex marshal unmarshal key later_body later_create o v
              ≡ (ok (later_code, later_value), u'))
            found_r g in
        let (l_hash, l_code, l_value) =
          replay-ok r later_body v u' later_code later_value replayed in
        (
          sym l_hash ∙ r_hash,
          sym l_code ∙ r_code,
          ok-injective (sym l_value ∙ ap unmarshal r_body ∙ round_trip value text r_text),
        )
