-- ===== src/Repository/Driver/Outcomes.antt =====
-- internal/repository/postgres.go: what a statement or a transaction that succeeded has done to the
-- tables, and what one that failed has not.
use ufo_observation_command.Base.{
  String, Bool, true, false, Option, none, some, ◌≡◌, refl, sym, ap, ◌∙◌, Error, Result, ok, err,
  ok-injective, wrap, Method, if◌then◌else◌, arith, ◌⊎◌, inl, inr, Bool-cases, subst,
}
use ufo_observation_command.Base.Methods.{after, after-ok, return, fail, on_error, on_error-ok}
use ufo_observation_command.Repository.Tables.{Tables}
use ufo_observation_command.Repository.Driver.{
  Driver, World, run_statement, statement, select, draw_id, insert, update, finish, end_tx,
  begin_tx, in_tx, transaction,
}

module _ {D : Type 0} (sql : Driver D) where
  -- The state after a call that is known.
  pub tables_of : {A : Type 0} {x y : Result A × World D} → x ≡ y → y.1.tables ≡ x.1.tables
  tables_of h = ap (λ x. x.1.tables) (sym h)

  run_statement-ok :
      {A : Type 0} (x : Option Error × D) (t : Tables) (f : Tables → A × Tables) {a : A}
      {w : World D}
      → run_statement sql x t f ≡ (ok a, w)
      → ((f t).0 ≡ a) × (w.tables ≡ (f t).1)
  unfolding run_statement
  run_statement-ok (some e, d) t f h = absurd (ground arith)
  run_statement-ok (none, d) t f h = (ok-injective (ap (λ x. x.0) h), tables_of h)

  pub statement-ok :
      {A : Type 0} (f : Tables → A × Tables) (w w' : World D) {a : A}
      → statement sql f w ≡ (ok a, w')
      → ((f w.tables).0 ≡ a) × (w'.tables ≡ (f w.tables).1)
  unfolding statement
  statement-ok f w w' h = run_statement-ok (sql.answer w.driver) w.tables f h

  pub select-ok :
      {A : Type 0} (f : Tables → A) (w w' : World D) {a : A}
      → select sql f w ≡ (ok a, w')
      → (f w.tables ≡ a) × (w'.tables ≡ w.tables)
  unfolding select
  select-ok f w w' h = statement-ok (λ t. (f t, t)) w w' h

  pub draw_id-ok :
      (w w' : World D) {id : String} → draw_id sql w ≡ (ok id, w') → w'.tables ≡ w.tables
  unfolding draw_id
  draw_id-ok w w' h = tables_of h

  -- What INSERT and UPDATE do with the answer of their statement.
  decided :
      (b : Bool) (e : Error) (w w' : World D)
      → (if b then return tt else fail e) w ≡ (ok tt, w')
      → (b ≡ true) × (w'.tables ≡ w.tables)
  decided true e w w' h = (refl, ap (λ x. x.1.tables) (sym h))
  decided false e w w' h = absurd (ground arith)

  pub insert-ok :
      (f : Tables → Bool × Tables) (w w' : World D)
      → insert sql f w ≡ (ok tt, w')
      → ((f w.tables).0 ≡ true) × (w'.tables ≡ (f w.tables).1)
  unfolding insert after on_error
  insert-ok f w w' h =
      let (b, t, e, r) = after-ok (statement sql f w) _ (on_error-ok _ _ h) in
      let (p, q) = statement-ok f w t e in let (u, v) = decided b sql.taken t w' r in (p ∙ u, v ∙ q)

  pub update-ok :
      (msg : String) (f : Tables → Bool × Tables) (w w' : World D)
      → update sql msg f w ≡ (ok tt, w')
      → ((f w.tables).0 ≡ true) × (w'.tables ≡ (f w.tables).1)
  unfolding update after on_error
  update-ok msg f w w' h =
      let (b, t, e, r) = after-ok _ _ h in
      let (p, q) = statement-ok f w t (on_error-ok (wrap msg) _ e) in
      let (u, v) = decided b _ t w' r in (p ∙ u, v ∙ q)

module _ {D : Type 0} (sql : Driver D) (begin_text commit_text : String) where
  finish-ok :
      {A : Type 0} (before : Tables) (x : Option Error × D) (a : A) (t : Tables) {a' : A}
      {w : World D}
      → finish sql begin_text commit_text before x a t ≡ (ok a', w)
      → (a ≡ a') × (w.tables ≡ t)
  unfolding finish
  finish-ok before (some e, d) a t h = absurd (ground arith)
  finish-ok before (none, d) a t h = (ok-injective (ap (λ x. x.0) h), tables_of sql h)

  end_tx-ok :
      {A : Type 0} (before : Tables) (r : Result A × World D) {a : A} {w : World D}
      → end_tx sql begin_text commit_text before r ≡ (ok a, w)
      → (v : World D) × (r ≡ (ok a, v)) × (w.tables ≡ v.tables)
  unfolding end_tx
  end_tx-ok before (err e, v) h = absurd (ground arith)
  end_tx-ok before (ok a', v) h =
      let (p, q) = finish-ok before (sql.answer v.driver) a' v.tables h in (v, ground (arith, p), q)

  begin_tx-ok :
      {A : Type 0} (before : Tables) (x : Option Error × D) (f : Method (World D) A) {a : A}
      {w : World D}
      → begin_tx sql begin_text commit_text before x f ≡ (ok a, w)
      → (u : World D) × (v : World D) × (u.tables ≡ before)
        × (f u ≡ (ok a, v))
        × (w.tables ≡ v.tables)
  unfolding begin_tx
  begin_tx-ok before (some e, d) f h = absurd (ground arith)
  begin_tx-ok before (none, d) f h =
      let u : World D = record { tables = before; driver = d } in
      let (v, p, q) = end_tx-ok before (f u) h in (u, v, refl, p, q)

  -- The function of a transaction that succeeds has run on the tables, and they are what it left.
  pub transaction-ok :
      {A : Type 0} (f : Method (World D) A) (w w' : World D) {a : A}
      → transaction sql begin_text commit_text f w ≡ (ok a, w')
      → (u : World D) × (v : World D) × (u.tables ≡ w.tables)
        × (f u ≡ (ok a, v))
        × (w'.tables ≡ v.tables)
  unfolding transaction
  transaction-ok f w w' h = begin_tx-ok w.tables (sql.answer w.driver) f h

  finish-err :
      {A : Type 0} (before : Tables) (x : Option Error × D) (a : A) (t : Tables) {e : Error}
      {w : World D}
      → finish sql begin_text commit_text before x a t ≡ (err e, w)
      → (w.tables ≡ before)
        ⊎ ((e' : Error) × (x ≡ (some e', w.driver))
            × (e ≡ wrap commit_text e')
            × (sql.applied w.driver ≡ true)
            × (w.tables ≡ t))
  unfolding finish
  finish-err before (some e', d) a t {e = e} {w = w} h = elim (Bool-cases (sql.applied d)) [
    | inr u ↦ inl (tables_of sql (rw (u, finish) at h))
    | inl u ↦
        let same = rw (u, finish) at h in
        let driver : d ≡ w.driver = ap (λ x. x.1.driver) same in
        inr (
          e',
          ap (λ d. (some e', d)) driver,
          ground (arith, ap (λ x. x.0) same),
          subst (λ d. sql.applied d ≡ true) driver u,
          tables_of sql same,
        )
  ]
  finish-err before (none, d) a t h = absurd (ground arith)

  -- The error of a COMMIT that was applied all the same, after the function has run on the tables.
  abbrev pub Applied : {A : Type 0} → Method (World D) A → Tables → Error → World D → Type 0
  Applied {A} f before e w =
      (e' : Error) × (d : D) × (sql.answer d ≡ (some e', w.driver))
      × (e ≡ wrap commit_text e')
      × (sql.applied w.driver ≡ true)
      × (a : A) × (u : World D) × (v : World D) × (u.tables ≡ before)
      × (f u ≡ (ok a, v))
      × (w.tables ≡ v.tables)

  end_tx-err :
      {A : Type 0} (f : Method (World D) A) (u : World D) (r : Result A × World D) {e : Error}
      {w : World D}
      → f u ≡ r
      → end_tx sql begin_text commit_text u.tables r ≡ (err e, w)
      → (w.tables ≡ u.tables) ⊎ Applied f u.tables e w
  unfolding end_tx
  end_tx-err f u (err e, v) p h = inl (tables_of sql h)
  end_tx-err f u (ok a, v) p h = elim (finish-err u.tables (sql.answer v.driver) a v.tables h) [
    | inl same ↦ inl same
    | inr (e', x, y, z, t) ↦ inr (e', v.driver, x, y, z, a, u, v, refl, p, t)
  ]

  begin_tx-err :
      {A : Type 0} (before : Tables) (x : Option Error × D) (f : Method (World D) A) {e : Error}
      {w : World D}
      → begin_tx sql begin_text commit_text before x f ≡ (err e, w)
      → (w.tables ≡ before) ⊎ Applied f before e w
  unfolding begin_tx
  begin_tx-err before (some e, d) f h = inl (tables_of sql h)
  begin_tx-err before (none, d) f h =
      let u : World D = record { tables = before; driver = d } in end_tx-err f u (f u) refl h

  -- A transaction that fails, in BEGIN, in its function or in COMMIT, leaves the tables, or its COMMIT
  -- was applied all the same.
  pub transaction-err :
      {A : Type 0} (f : Method (World D) A) (w w' : World D) {e : Error}
      → transaction sql begin_text commit_text f w ≡ (err e, w')
      → (w'.tables ≡ w.tables) ⊎ Applied f w.tables e w'
  unfolding transaction
  transaction-err f w w' h = begin_tx-err w.tables (sql.answer w.driver) f h

module _ {D : Type 0} (sql : Driver D) where
  pub in_tx-ok :
      {A : Type 0} (f : Method (World D) A) (w w' : World D) {a : A}
      → in_tx sql f w ≡ (ok a, w')
      → (u : World D) × (v : World D) × (u.tables ≡ w.tables)
        × (f u ≡ (ok a, v))
        × (w'.tables ≡ v.tables)
  unfolding in_tx
  in_tx-ok f w w' h = transaction-ok sql "begin transaction: %w" "commit transaction: %w" f w w' h

  pub in_tx-err :
      {A : Type 0} (f : Method (World D) A) (w w' : World D) {e : Error}
      → in_tx sql f w ≡ (err e, w')
      → (w'.tables ≡ w.tables)
        ⊎ Applied sql "begin transaction: %w" "commit transaction: %w" f w.tables e w'
  unfolding in_tx
  in_tx-err f w w' h = transaction-err sql "begin transaction: %w" "commit transaction: %w" f w w' h
