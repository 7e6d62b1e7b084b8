-- ===== src/AcousticControl/Sessions.antt =====
-- Who is let in: the condition of `Authenticate`, what `Logout` guarantees over whole calls, and
-- what it does not when a `ChangeRole` is between its two critical sections.
use ufo_observation_command.Base.{
  ℤ, ◌<ℤ◌, String, ◌==◌, eq_iff, ◌≡◌, ◌≢◌, ◌↔◌, refl, sym, ap, ◌∙◌, true, ◌||◌, none, some, List,
  [], ◌∷◌, Dict, get, put, get-put_self, get-put_ne, string_key, ok, succeeded, arith, Bool-cases,
  Option-cases, inl, inr, All, All-put, All-get, ◌⊎◌, subst,
}
use ufo_observation_command.ArrayOps.Types.{Session}
use ufo_observation_command.ArrayOps.Policy.{authorize_session, rotate_role}
use ufo_observation_command.ArrayOps.Store.{Store, put_session, session, revoke_session}
use ufo_observation_command.AcousticControl.{
  AcousticControl, authenticate, logout, change_role, change_role_from,
}
use ufo_observation_command.AcousticControl.History.{
  Call, step, run, changes_role, logs_out, puts_session,
}

-- What a session must be like to let a request in.
abbrev pub LetsIn : Session → String → String → ℤ → Type 0
LetsIn x tenant_id role now =
    (x.token ≢ "")
    × (x.tenant_id ≡ tenant_id)
    × (x.revoked_at ≡ none)
    × (now <ℤ x.expires_at)
    × (x.role ≡ role)

authorize_iff :
    (x : Session) (tenant_id role : String) (now : ℤ)
    → (authorize_session x tenant_id role now ≡ ok tt) ↔ LetsIn x tenant_id role now
unfolding authorize_session
authorize_iff x tenant_id role now = (
  λ h. (
    ground (arith, eq_iff x.token ""),
    ground (arith, eq_iff x.tenant_id tenant_id),
    ground arith,
    ground arith,
    ground (arith, eq_iff x.role role),
  ),
  λ h.
      ground (arith, h.2, h.3, eq_iff x.token "", eq_iff x.tenant_id tenant_id, eq_iff x.role role),
)

-- A request is let in exactly when its token names a session that is its tenant's, is not revoked,
-- has not expired and has the role.
pub authenticate_iff :
    (token tenant_id role : String) (now : ℤ) (c : AcousticControl)
    → (authenticate token tenant_id role now c ≡ ok tt)
      ↔ ((x : Session) × (get c.store.sessions token ≡ some x) × LetsIn x tenant_id role now)
unfolding authenticate session
authenticate_iff token tenant_id role now c = elim (Option-cases (get c.store.sessions token)) [
  | inl q ↦ (λ h. absurd (ground arith), λ h. absurd (cc (h.1, q)))
  | inr (x, q) ↦ (
    λ h. (x, q, (authorize_iff x tenant_id role now).0 (ground arith)),
    λ h.
        let same : h.0 ≡ x = cc (h.1, q) in
        let ok_x : authorize_session x tenant_id role now ≡ ok tt =
          (authorize_iff x tenant_id role now).1
            (subst (λ y. LetsIn y tenant_id role now) same h.2) in
        ground arith,
  )
]

-- Sessions stand under their tokens.
abbrev IsKeyed : String × Session → Type 0
IsKeyed (token, x) = x.token ≡ token

abbrev pub SessionsAreKeyed : AcousticControl → Type 0
SessionsAreKeyed c = All IsKeyed c.store.sessions

-- No call stores a session with this token from outside.
abbrev pub Leaves : String → Call → Type 0
Leaves token (puts_session x) = x.token ≢ token
Leaves token _ = Unit

-- A session that is there, and revoked.
abbrev pub IsRevoked : String → AcousticControl → Type 0
IsRevoked token c = (x : Session) × (get c.store.sessions token ≡ some x) × (x.revoked_at ≢ none)

-- What a call does to the sessions: nothing, or one session is written under its token. It is not
-- the given one, or it was there before and stays revoked if it was.
abbrev Writes : String → Dict String Session → Dict String Session → Type 0
Writes token before after =
    (after ≡ before)
    ⊎ ((y : Session) × (after ≡ put before y.token y)
        × ((y.token ≢ token)
            ⊎ ((x : Session) × (get before y.token ≡ some x)
                × (x.revoked_at ≢ none → y.revoked_at ≢ none))))

put_session_writes :
    (y : Session) (s : Store)
    → ((put_session y s).1.sessions ≡ s.sessions)
      ⊎ ((put_session y s).1.sessions ≡ put s.sessions y.token y)
unfolding put_session
put_session_writes y s = elim (Bool-cases (succeeded (put_session y s).0)) [
  | inl t ↦ inr (ground arith)
  | inr t ↦ inl (ground arith)
]

change_role-Writes :
    (token t role : String) (c : AcousticControl)
    → SessionsAreKeyed c
    → Writes token c.store.sessions (change_role t role c).1.store.sessions
unfolding change_role rotate_role session
change_role-Writes token t role c k = elim (Option-cases (get c.store.sessions t)) [
  | inl q ↦ inl (ground arith)
  | inr (x, q) ↦ elim (Bool-cases (role == "" || role == x.role)) [
    | inl r ↦ inl (ground arith)
    | inr r ↦ elim (put_session_writes (record x { role = role }) c.store) [
      | inl same ↦ inl (ground arith)
      | inr written ↦ inr (
        record x { role = role },
        ground arith,
        inr (x, ap (get c.store.sessions) (All-get IsKeyed c.store.sessions t k q) ∙ q, λ n. n),
      )
    ]
  ]
]

logout-Writes :
    (token t : String) (now : ℤ) (c : AcousticControl)
    → SessionsAreKeyed c
    → Writes token c.store.sessions (logout t now c).1.store.sessions
unfolding logout revoke_session
logout-Writes token t now c k = elim (Option-cases (get c.store.sessions t)) [
  | inl q ↦ inl (ground arith)
  | inr (x, q) ↦ elim (Option-cases x.revoked_at) [
    | inr (at, r) ↦ inl (ground arith)
    | inl r ↦
        let keyed : x.token ≡ t = All-get IsKeyed c.store.sessions t k q in
        inr (
          record x { revoked_at = some now },
          subst
              (λ j.
                (logout t now c).1.store.sessions
                ≡ put c.store.sessions j (record x { revoked_at = some now }))
              (sym keyed) (ground arith),
          inr (x, ap (get c.store.sessions) keyed ∙ q, λ n e. cc),
        )
  ]
]

step-Writes :
    (token : String) (c : AcousticControl) (x : Call)
    → SessionsAreKeyed c
    → Leaves token x
    → Writes token c.store.sessions (step c x).store.sessions
unfolding step
step-Writes token c (changes_role t role) k l = change_role-Writes token t role c k
step-Writes token c (logs_out t now) k l = logout-Writes token t now c k
step-Writes token c (puts_session y) k l = elim (put_session_writes y c.store) [
  | inl same ↦ inl same
  | inr written ↦ inr (y, written, inl l)
]
step-Writes token c _ k l = inl (ground arith)

-- Keyed sessions, the given one among them and revoked: every call keeps that.
abbrev Guarded : String → Dict String Session → Type 0
Guarded token m = All IsKeyed m × ((x : Session) × (get m token ≡ some x) × (x.revoked_at ≢ none))

Writes-Guarded :
    (token : String) (m n : Dict String Session)
    → Writes token m n
    → Guarded token m
    → Guarded token n
Writes-Guarded token m n (inl e) g = subst (Guarded token) (sym e) g
Writes-Guarded token m n (inr (y, e, why)) (k, (x, f, r)) =
    subst (Guarded token) (sym e) (All-put IsKeyed m y.token y refl k, still why)
  where
    still :
        (y.token ≢ token)
          ⊎ ((z : Session) × (get m y.token ≡ some z) × (z.revoked_at ≢ none → y.revoked_at ≢ none))
        → (x : Session) × (get (put m y.token y) token ≡ some x) × (x.revoked_at ≢ none)
    still (inl d) = (x, get-put_ne m y.token y token d ∙ f, r)
    still (inr (z, q, keep)) = elim (Bool-cases (y.token == token)) [
      | inr d ↦ (x, get-put_ne m y.token y token (ground (arith, eq_iff y.token token)) ∙ f, r)
      | inl d ↦
          let t : y.token ≡ token = (eq_iff y.token token).0 d in
          let same : z ≡ x = cc (ap (get m) t) in
          (
            y,
            subst (λ j. get (put m y.token y) j ≡ some y) t (get-put_self m y.token y),
            keep (subst (λ w. w.revoked_at ≢ none) (sym same) r),
          )
    ]

run-Guarded :
    (token : String) (c : AcousticControl) (cs : List Call)
    → All (Leaves token) cs
    → Guarded token c.store.sessions
    → Guarded token (run c cs).store.sessions
unfolding run
run-Guarded token c [] l g = g
run-Guarded token c (x ∷ xs) l g = run-Guarded token (step c x) xs l.1 (
    Writes-Guarded token c.store.sessions (step c x).store.sessions (step-Writes token c x g.0 l.0)
      g)

Guarded-refused :
    (token tenant_id role : String) (now : ℤ) (c : AcousticControl)
    → Guarded token c.store.sessions
    → authenticate token tenant_id role now c ≢ ok tt
Guarded-refused token tenant_id role now c (k, (x, f, r)) h =
    let (y, g, l) = (authenticate_iff token tenant_id role now c).0 h in
    let same : y ≡ x = cc (g, f) in r (ap (λ z. z.revoked_at) (sym same) ∙ l.2)

logout-Guarded :
    (token : String) (now : ℤ) (c : AcousticControl)
    → SessionsAreKeyed c
    → (logout token now c).0 ≡ true
    → Guarded token (logout token now c).1.store.sessions
unfolding logout revoke_session
logout-Guarded token now c k h = elim (Option-cases (get c.store.sessions token)) [
  | inl q ↦ absurd (ground arith)
  | inr (x, q) ↦ elim (Option-cases x.revoked_at) [
    | inr (at, r) ↦ absurd (ground arith)
    | inl r ↦
        let y : Session = record x { revoked_at = some now } in
        let after : (logout token now c).1.store.sessions ≡ put c.store.sessions token y =
          ground arith in
        subst (Guarded token) (sym after) (
          All-put IsKeyed c.store.sessions token y (All-get IsKeyed c.store.sessions token k q) k,
          (y, get-put_self c.store.sessions token y, λ e. cc),
        )
  ]
]

-- After a logout the token lets nobody in, whatever whole calls follow, changes of its role among
-- them, as long as no session with this token is stored from outside.
pub logout_final :
    (token : String) (now : ℤ) (c : AcousticControl) (cs : List Call) (tenant_id role : String)
    (later : ℤ)
    → SessionsAreKeyed c
    → (logout token now c).0 ≡ true
    → All (Leaves token) cs
    → authenticate token tenant_id role later (run (logout token now c).1 cs) ≢ ok tt
logout_final token now c cs tenant_id role later k h l =
    Guarded-refused token tenant_id role later (run (logout token now c).1 cs)
      (run-Guarded token (logout token now c).1 cs l (logout-Guarded token now c k h))

-- A logout between the two critical sections of a role change is lost: the session that the role
-- change has read is written back, and lets its holder in until it expires.
pub logout_lost :
    (x : Session) (role : String) (now later : ℤ) (c : AcousticControl)
    → get c.store.sessions x.token ≡ some x
    → x.revoked_at ≡ none
    → x.token ≢ ""
    → x.tenant_id ≢ ""
    → x.user_id ≢ ""
    → role ≢ ""
    → role ≢ x.role
    → later <ℤ x.expires_at
    → let seen = session c.store x.token in
      let (done, d) = logout x.token now c in
      (done ≡ true)
      × (authenticate x.token x.tenant_id role later (change_role_from seen role d).1 ≡ ok tt)
unfolding authenticate session authorize_session change_role_from rotate_role put_session logout
    revoke_session
logout_lost x role now later c f r t n u e d l = (
  ground arith,
  ground (
    arith,
    eq_iff x.token "",
    eq_iff x.tenant_id "",
    eq_iff x.user_id "",
    eq_iff role "",
    eq_iff role x.role,
    eq_iff x.tenant_id x.tenant_id,
    eq_iff role role,
    get-put_self (logout x.token now c).1.store.sessions x.token (record x { role = role }),
  ),
)
