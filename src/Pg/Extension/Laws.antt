-- ===== src/Pg/Extension/Laws.antt =====
-- Which statements bringing an extension in line sends.
use pgfga.Base.{◌≡◌, refl, Bool, true, false, not, [], ◌∷◌, ◌⊎◌, inl, inr, ◌==◌, if◌then◌else◌}
use pgfga.Pg.State.{absent, present, ◌=S=◌}
use pgfga.Pg.Server.{Server}
use pgfga.Pg.Conn.Act.{World, Statement, Act, done}
use pgfga.Pg.Conn.Keeps.{Keeps, Keeps-pure, Keeps-bind, Keeps-if, Keeps-raise}
use pgfga.Pg.Conn.Adds.{
  Allows, Adds-Allows, Adds-exec, Adds-exists, Adds-get_one_field, Sent, Sends, Keeps-Sends,
  adds_rules,
}
use pgfga.Pg.Schema
use pgfga.Pg.Schema.{zero_schema}
use pgfga.Pg.Schema.Laws.{create-Adds as create_schema-Adds}
use pgfga.Pg.Extension.{
  Extension, Extensions, create_sql, drop_sql, update_sql, schema_sql, exists, available,
  version_available, check_version, create, drop, current_version, current_schema,
  reconcile_version, reconcile_schema, reconcile, reconcile_all,
}

-- The statements that suit an extension.
pub data ExtensionStatement (e : Extension) (s : Statement) : Type 0 where
  creates_schema :
      (e.state =S= present) ≡ true → s.sql ≡ Schema.create_sql e.schema → ExtensionStatement e s
  creates : (e.state =S= present) ≡ true → s.sql ≡ create_sql e → ExtensionStatement e s
  updates :
      (e.state =S= present) ≡ true → s.sql ≡ update_sql e.name e.version → ExtensionStatement e s
  moves : (e.state =S= present) ≡ true → s.sql ≡ schema_sql e.name e.schema → ExtensionStatement e s
  drops : (e.state =S= absent) ≡ true → s.sql ≡ drop_sql e.name → ExtensionStatement e s

abbrev pub FromExtensions : Extensions → Statement → Type 0
FromExtensions [] s = ⊥
FromExtensions ((name, e) ∷ es) s =
    ExtensionStatement (record e { name = name }) s ⊎ FromExtensions es s

pub not-false : {b : Bool} → not b ≡ false → b ≡ true
not-false {b = true} h = refl
not-false {b = false} h = cc

module _ (P : Statement → Type 0) (e : Extension)
    (suits : (s : Statement) → ExtensionStatement e s → P s) where
  create_suits : (e.state =S= present) ≡ true → Sent P (create_sql e)
  create_suits w dsn = suits _ (creates w refl)

  update_suits : (e.state =S= present) ≡ true → Sent P (update_sql e.name e.version)
  update_suits w dsn = suits _ (updates w refl)

  move_suits : (e.state =S= present) ≡ true → Sent P (schema_sql e.name e.schema)
  move_suits w dsn = suits _ (moves w refl)

  drop_suits : (e.state =S= absent) ≡ true → Sent P (drop_sql e.name)
  drop_suits w dsn = suits _ (drops w refl)

module _ {C : Type 0} ⦃srv : Server C⦄ (P : Statement → Type 0) {kept : World C → Type 0}
    (allows : Allows P kept) (e : Extension)
    (suits : (s : Statement) → ExtensionStatement e s → P s) where
  abbrev Add : Act C (Unit {0}) → Type 0
  Add m = Keeps kept m

  schema-Adds :
      (e.state =S= present) ≡ true → Add (Schema.create (record zero_schema { name = e.schema }))
  schema-Adds w = create_schema-Adds P allows _ (λ _ dsn. suits _ (creates_schema w refl))

  check_version-Adds : Add (check_version e)
  unfolding check_version version_available
  check_version-Adds = search adds_rules depth 7

  make_schema-Adds :
      (e.state =S= present) ≡ true
      → Add
          (if e.schema == "" then done else Schema.create (record zero_schema { name = e.schema }))
  make_schema-Adds w = Keeps-if _ _ _ (λ _. Keeps-pure tt) (λ _. schema-Adds w)

  create-Adds : Add (create e)
  unfolding create available exists
  create-Adds =
      Keeps-if _ _ _ (λ _. Keeps-pure tt)
        λ w. Keeps-bind _ _ (Adds-exists P allows _ _) λ there.
          Keeps-if (not there) _ _ (λ _. Keeps-raise _)
            λ _. Keeps-bind _ _ check_version-Adds λ _.
              Keeps-bind _ _ (Adds-exists P allows _ _) λ found.
                Keeps-if found _ _ (λ _. Keeps-pure tt)
                  λ _.
                    Keeps-bind _ _ (make_schema-Adds (not-false w))
                      λ _. Adds-exec P allows _ [] (create_suits P e suits (not-false w))

  drop-Adds : Add (drop e)
  unfolding drop exists
  drop-Adds =
      Keeps-if _ _ _ (λ _. Keeps-pure tt)
        λ (w : not (e.state =S= absent) ≡ false).
          search (adds_rules, drop_suits P e suits (not-false w)) depth 7

  reconcile_version-Adds : Add (reconcile_version e)
  unfolding reconcile_version current_version
  reconcile_version-Adds =
      Keeps-if _ _ _ (λ _. Keeps-pure tt)
        λ (w : not (e.state =S= present) ≡ false).
          search (adds_rules, update_suits P e suits (not-false w)) depth 7

  reconcile_schema-Adds : Add (reconcile_schema e)
  unfolding reconcile_schema current_schema
  reconcile_schema-Adds =
      Keeps-if _ _ _ (λ _. Keeps-pure tt)
        λ w.
          Keeps-if (e.schema == "") _ _ (λ _. Keeps-pure tt)
            λ _. Keeps-bind _ _ (Adds-get_one_field P allows _ _) λ schema.
              Keeps-if (schema == e.schema) _ _ (λ _. Keeps-pure tt)
                λ _.
                  Keeps-bind _ _ (schema-Adds (not-false w))
                    λ _. Adds-exec P allows _ [] (move_suits P e suits (not-false w))

  pub reconcile-Adds : Add (reconcile e)
  unfolding reconcile
  reconcile-Adds =
      search (adds_rules, create-Adds, drop-Adds, reconcile_version-Adds, reconcile_schema-Adds)
        depth 7

module _ {C : Type 0} ⦃srv : Server C⦄ (P : Statement → Type 0) {kept : World C → Type 0}
    (allows : Allows P kept) where
  pub reconcile_all-Adds :
      (es : Extensions)
      → ((s : Statement) → FromExtensions es s → P s)
      → Keeps kept (reconcile_all es)
  unfolding reconcile_all
  reconcile_all-Adds [] suits = Keeps-pure tt
  reconcile_all-Adds ((name, e) ∷ es) suits =
      Keeps-bind _ _ (reconcile-Adds P allows (record e { name = name }) (λ s h. suits s (inl h)))
        (λ _. reconcile_all-Adds es (λ s h. suits s (inr h)))

-- Bringing extensions in line sends only statements that suit one of them: they create, update or
-- move one that is present, or create its schema, or drop one that is absent.
pub reconcile_all-FromExtensions :
    {C : Type 0} ⦃srv : Server C⦄ (es : Extensions)
    → Sends (FromExtensions es) (reconcile_all {C = C} es)
reconcile_all-FromExtensions es =
    Keeps-Sends _ _ (λ log. reconcile_all-Adds _ (Adds-Allows _ log) es (λ s h. h))
