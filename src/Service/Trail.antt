-- ===== src/Service/Trail.antt =====
-- Methods in sequence: what they add to the trail, and when they leave the data as they were.
use mathlib.Core.List.{append_assoc}
use ufo_observation_command.Base.{
  ◌∷◌, String, List, [], ◌++◌, refl, sym, ap, ◌∙◌, Result, inl, inr, Method, arith, Error,
}
use ufo_observation_command.Base.Methods.{
  ◌>>=◌, after, after-ok, after-err, return, lift, map_error, on_error, on_error-ok,
}
use ufo_observation_command.Service.Contract.{Contract, Entry, entry, Inert, Atomic, Adds, Quiet}
use ufo_observation_command.Service.Environment.{Environment, RequestMeta, audit, get_now, get_wall}
use ufo_observation_command.Repository.Types.{Repository}

module _ {W : Type 0} {trail : W → List Entry} where
  pub return-Quiet : {A : Type 0} (a : A) → Quiet trail (return a)
  return-Quiet a = record { adds = λ w w' b h. ground arith }

  pub lift-Quiet : {A : Type 0} (r : Result A) → Quiet trail (lift r)
  lift-Quiet r = record { adds = λ w w' b h. ground arith }

  pub get_now-Quiet : (env : Environment W) → Quiet trail (get_now env)
  get_now-Quiet env = record { adds = λ w w' b h. ground arith }

  pub get_wall-Quiet : (env : Environment W) → Quiet trail (get_wall env)
  get_wall-Quiet env = record { adds = λ w w' b h. ground arith }

  -- A first part that leaves the trail alone.
  pub bind-Adds :
      {A B : Type 0} {m : Method W A} {f : A → Method W B} {entries : List Entry}
      → Quiet trail m
      → ((a : A) → Adds trail entries (f a))
      → Adds trail entries (m >>= f)
  unfolding after
  bind-Adds {m = m} {f = f} {entries = entries} q g = record {
    adds = λ w w' b h.
        (let (a, t, e, r) = after-ok (m w) f h in
          (g a).adds t w' b r ∙ ap (λ x. entries ++ x) (q.adds w t a e));
  }

  -- A last part that leaves the trail alone.
  pub bind-Quiet :
      {A B : Type 0} {m : Method W A} {f : A → Method W B} {entries : List Entry}
      → Adds trail entries m
      → ((a : A) → Quiet trail (f a))
      → Adds trail entries (m >>= f)
  unfolding after
  bind-Quiet {m = m} {f = f} g q = record {
    adds =
        λ w w' b h. (let (a, t, e, r) = after-ok (m w) f h in (q a).adds t w' b r ∙ g.adds w t a e);
  }

  -- A part that adds entries, and then a rest that does.
  pub bind-both :
      {A B : Type 0} {m : Method W A} {f : A → Method W B} {first rest : List Entry}
      → Adds trail first m
      → ((a : A) → Adds trail rest (f a))
      → Adds trail (rest ++ first) (m >>= f)
  unfolding after
  bind-both {m = m} {f = f} {first = first} {rest = rest} g q = record {
    adds = λ w w' b h.
        (let (a, t, e, r) = after-ok (m w) f h in
          (q a).adds t w' b r
          ∙ ap (λ x. rest ++ x) (g.adds w t a e)
          ∙ sym (append_assoc rest first (trail w)));
  }

  pub map_error-Quiet :
      {A : Type 0} (f : Error → Error) {m : Method W A}
      → Quiet trail m
      → Quiet trail (map_error f m)
  unfolding on_error
  map_error-Quiet f {m = m} q = record { adds = λ w w' a h. q.adds w w' a (on_error-ok f (m w) h) }

module _ {W X : Type 0} {data_of : W → X} where
  pub lift-Inert : {A : Type 0} (r : Result A) → Inert data_of (lift r)
  lift-Inert r = record { inert = λ w. refl }

  pub get_now-Inert : (env : Environment W) → Inert data_of (get_now env)
  get_now-Inert env = record { inert = λ w. refl }

  pub get_wall-Inert : (env : Environment W) → Inert data_of (get_wall env)
  get_wall-Inert env = record { inert = λ w. refl }

module _ {W X : Type 0} {data_of : W → X} {Applied : Error → W → Type 0} where
  -- A first part that does not touch the data.
  pub bind-Atomic :
      {A B : Type 0} {m : Method W A} {f : A → Method W B}
      → Inert data_of m
      → ((a : A) → Atomic data_of Applied (f a))
      → Atomic data_of Applied (m >>= f)
  unfolding after
  bind-Atomic {m = m} {f = f} i g = record {
    atomic = λ w w' e h. elim (after-err (m w) f h) [
      | inl p ↦ inl (ap (λ x. data_of x.1) (sym p) ∙ i.inert w)
      | inr (a, t, p, r) ↦ elim ((g a).atomic t w' e r) [
        | inl same ↦ inl (same ∙ ap (λ x. data_of x.1) (sym p) ∙ i.inert w)
        | inr lost ↦ inr lost
      ]
    ];
  }

  -- A last part that cannot fail.
  pub then-Atomic :
      {A B : Type 0} {m : Method W A} (g : A → B)
      → Atomic data_of Applied m
      → Atomic data_of Applied (m >>= λ a. return (g a))
  unfolding after
  then-Atomic {m = m} g t = record {
    atomic = λ w w' e h. elim (after-err (m w) (λ a. return (g a)) h) [
      | inl p ↦ t.atomic w w' e p
      | inr (a, u, p, q) ↦ absurd (ground arith)
    ];
  }

-- The last call of every use case.
pub audit-Adds :
    {W : Type 0} {repo : Repository W} {env : Environment W} (meta : RequestMeta)
    (c : Contract repo env) (object_type id action : String)
    → Adds c.trail
        ((meta.request_id, object_type, action) ∷ [])
        (repo.write_audit (audit meta object_type id action))
unfolding audit entry
audit-Adds meta c object_type id action = c.write_audit-Adds (audit meta object_type id action)
