-- ===== src/Audit/Links.antt =====
-- internal/audit/chain.go: each link commits to an event and, by the digest before it, to all the
-- events before that one.
use ufo_observation_command.Base.{
  String, ◌==◌, eq_iff, List, [], ◌∷◌, ◌≡◌, ◌≢◌, sym, ap, ◌∙◌, ◌⊎◌, inl, inr, Bool-cases, wrap,
  Result, ok, err, ok-injective, Result-cases, Method, arith,
}
use ufo_observation_command.Base.Methods.{
  ◌>>=◌, ◌>>◌, lift, map_error, bind-ok, map_error-ok, lift-ok,
}
use ufo_observation_command.Audit.{AuditEvent, Chain, validate, with_detail}

module _ {M : Type 0} (empty : M) (marshal : AuditEvent M → Result String)
    (marshal_link : String → String → Result String) (digest_hex : String → String) where
  -- `c.previous = …; return c.previous, nil`.
  unfoldable pub seal_link : String → Method Chain String
  seal_link payload c = (ok (digest_hex payload), record { previous = digest_hex payload })

  -- The payload of a link holds the digest before it.
  unfoldable pub link_payload : String → Method Chain String
  link_payload body c = (marshal_link c.previous body, c)

  unfoldable pub append : AuditEvent M → Method Chain String
  unfolding validate with_detail link_payload seal_link
  append event = do
    lift (validate event)
    body ← map_error (wrap "marshal audit event: %w") (lift (marshal (with_detail empty event)))
    payload ← map_error (wrap "marshal audit chain: %w") (link_payload body)
    seal_link payload

  -- The head of a new chain to which the events were appended, the last of them first in the list.
  unfoldable pub head_of : List (AuditEvent M) → Result String
  unfolding append
  head_of [] = ok ""
  head_of (event ∷ older) = elim (head_of older) [
    | err e ↦ err e
    | ok previous ↦ (append event (record { previous = previous })).0
  ]

  append-ok :
      (event : AuditEvent M) (previous head : String)
      → (append event (record { previous = previous })).0 ≡ ok head
      → (body : String) × (payload : String) × (marshal (with_detail empty event) ≡ ok body)
        × (marshal_link previous body ≡ ok payload)
        × (digest_hex payload ≡ head)
  unfolding append
  append-ok event previous head h =
      let c : Chain = record { previous = previous } in
      let (_, c1, e1, k1) = bind-ok _ _ (ap (λ r. (r, (append event c).1)) h) in
      let (body, c2, e2, k2) = bind-ok _ _ k1 in
      let (payload, c3, e3, k3) = bind-ok (map_error _ (link_payload body)) _ k2 in
      let (_, same1) = lift-ok _ e1 in
      let (marshalled, same2) = lift-ok _ (map_error-ok _ _ e2) in
      let linked = map_error-ok _ _ e3 in
      (
        body,
        payload,
        marshalled,
        ap (λ c. marshal_link c.previous body) (sym same1 ∙ sym same2) ∙ ap (λ r. r.0) linked,
        ok-injective (ap (λ r. r.0) k3),
      )

  -- The events as they are written, one by one the same.
  abbrev pub SameBodies : List (AuditEvent M) → List (AuditEvent M) → Type 0
  SameBodies [] [] = Unit
  SameBodies [] (f ∷ others) = ⊥
  SameBodies (e ∷ events) [] = ⊥
  SameBodies (e ∷ events) (f ∷ others) =
      (marshal (with_detail empty e) ≡ marshal (with_detail empty f)) × SameBodies events others

  -- Two payloads with one digest.
  abbrev pub Collision : Type 0
  Collision = (p q : String) × (p ≢ q) × (digest_hex p ≡ digest_hex q)

  head_of-cons :
      (e : AuditEvent M) (older : List (AuditEvent M)) (head : String)
      → head_of (e ∷ older) ≡ ok head
      → (previous : String) × (head_of older ≡ ok previous)
        × ((append e (record { previous = previous })).0 ≡ ok head)
  unfolding head_of
  head_of-cons e older head h = elim (Result-cases (head_of older)) [
    | inl (x, r) ↦ let h' : err x ≡ ok head = rw (r, head_of) at h in absurd (ground arith)
    | inr (previous, r) ↦ (previous, r, rw (r, head_of) at h)
  ]

  -- What stands before an event: nothing, or a digest in hexadecimal digits.
  abbrev pub IsDigest : String → Type 0
  IsDigest p = (p ≡ "") ⊎ ((payload : String) × (p ≡ digest_hex payload))

  -- A link holds the JSON of its event as `json.Marshal` wrote it, which is compact and escaped, so
  -- that nothing is lost when it is put into the link as raw JSON.
  module _ (digest_ne : (p : String) → digest_hex p ≢ "")
      (link_injective : (p q b c text : String) (e f : AuditEvent M)
        → IsDigest p
        → IsDigest q
        → marshal e ≡ ok b
        → marshal f ≡ ok c
        → marshal_link p b ≡ ok text
        → marshal_link q c ≡ ok text
        → (p ≡ q) × (b ≡ c)) where
    IsDigest-head :
        (events : List (AuditEvent M)) (head : String) → head_of events ≡ ok head → IsDigest head
    unfolding head_of
    IsDigest-head [] head h = inl (sym (ok-injective h))
    IsDigest-head (e ∷ events) head h =
        let (p, r, a) = head_of-cons e events head h in
        let (body, payload, x, y, z) = append-ok e p head a in inr (payload, sym z)

    not_new : (e : AuditEvent M) (older : List (AuditEvent M)) → head_of (e ∷ older) ≢ ok ""
    not_new e older h =
        let (previous, r, a) = head_of-cons e older "" h in
        let (body, payload, x, y, z) = append-ok e previous "" a in digest_ne payload z

    -- For a digest that is never empty, and a JSON of links from which the digest before and the JSON
    -- of the event can be read back: two chains with one head hold the same events in the same order,
    -- as they are written, or two payloads with one digest were found.
    pub head_of-injective :
        (events others : List (AuditEvent M)) (head : String)
        → head_of events ≡ ok head
        → head_of others ≡ ok head
        → SameBodies events others ⊎ Collision
    unfolding head_of
    head_of-injective [] [] head h k = inl tt
    head_of-injective [] (f ∷ others) head h k = absurd (not_new f others (k ∙ sym h))
    head_of-injective (e ∷ events) [] head h k = absurd (not_new e events (h ∙ sym k))
    head_of-injective (e ∷ events) (f ∷ others) head h k =
        let (p, r, a) = head_of-cons e events head h in
        let (q, s, b) = head_of-cons f others head k in
        let (body, payload, x, y, z) = append-ok e p head a in
        let (body', payload', x', y', z') = append-ok f q head b in
        elim (Bool-cases (payload == payload')) [
          | inl t ↦
              let same = (eq_iff payload payload').0 t in
              let (p_q, b_b) =
                link_injective p q body body' payload' (with_detail empty e) (with_detail empty f)
                  (IsDigest-head events p r) (IsDigest-head others q s) x x' (y ∙ ap ok same) y' in
              elim (head_of-injective events others q (r ∙ ap ok p_q) s) [
                | inl more ↦ inl (x ∙ ap ok b_b ∙ sym x', more)
                | inr found ↦ inr found
              ]
          | inr t ↦ inr (
            payload,
            payload',
            λ c. absurd (ground (arith, eq_iff payload payload', c)),
            z ∙ sym z',
          )
        ]
