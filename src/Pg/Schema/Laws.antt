-- ===== src/Pg/Schema/Laws.antt =====
-- Which statements bringing a schema in line sends.
use pgfga.Base.{◌==◌, ◌≡◌, refl, false, [], ◌∷◌, ◌⊎◌, inl, inr}
use pgfga.Pg.State.{absent, present, ◌=S=◌}
use pgfga.Pg.Server.{Server}
use pgfga.Pg.Conn.Act.{World, Statement, Act}
use pgfga.Pg.Conn.Keeps.{Keeps-bind, Keeps, Keeps-pure, Keeps-bind}
use pgfga.Pg.Conn.Keeps
use pgfga.Pg.Conn.Adds.{
  Adds-exec, Adds-get_one_field, Allows, Adds-Allows, Sent, Sends, Keeps-Sends, adds_rules,
}
use pgfga.Pg.Role.Actions
use pgfga.Pg.Role.Statements.{create_role-Adds}
use pgfga.Pg.Schema.{
  Schema, Schemas, create_sql, drop_sql, owner_sql, exists, create, drop, current_owner,
  reconcile_owner, reconcile, reconcile_all,
}

-- The statements that suit a schema.
pub data SchemaStatement (schema : Schema) (s : Statement) : Type 0 where
  creates :
      (schema.state =S= absent) ≡ false → s.sql ≡ create_sql schema.name → SchemaStatement schema s
  drops :
      (schema.state =S= present) ≡ false → s.sql ≡ drop_sql schema.name → SchemaStatement schema s
  creates_owner :
      (schema.state =S= absent) ≡ false
      → s.sql ≡ Actions.create_sql schema.owner
      → SchemaStatement schema s
  sets_owner :
      (schema.state =S= absent) ≡ false
      → s.sql ≡ owner_sql schema.name schema.owner
      → SchemaStatement schema s

abbrev pub FromSchemas : Schemas → Statement → Type 0
FromSchemas [] s = ⊥
FromSchemas ((name, schema) ∷ schemas) s =
    SchemaStatement (record schema { name = name }) s ⊎ FromSchemas schemas s

module _ {C : Type 0} ⦃srv : Server C⦄ (P : Statement → Type 0) {kept : World C → Type 0}
    (allows : Allows P kept) where
  abbrev Add : Act C (Unit {0}) → Type 0
  Add m = Keeps kept m

  pub create-Adds :
      (schema : Schema)
      → ((schema.state =S= absent) ≡ false → Sent P (create_sql schema.name))
      → Add (create schema)
  unfolding create exists
  create-Adds schema p = search (adds_rules, p) depth 7

  drop-Adds :
      (schema : Schema)
      → ((schema.state =S= present) ≡ false → Sent P (drop_sql schema.name))
      → Add (drop schema)
  unfolding drop exists
  drop-Adds schema p = search (adds_rules, p) depth 7

  owner-Adds :
      (schema : Schema)
      → ((schema.state =S= absent) ≡ false → Sent P (Actions.create_sql schema.owner))
      → ((schema.state =S= absent) ≡ false → Sent P (owner_sql schema.name schema.owner))
      → Add (reconcile_owner schema)
  unfolding reconcile_owner current_owner
  owner-Adds schema p q =
      Keeps.Keeps-if _ _ _ (λ _. Keeps-pure tt)
        λ wanted.
          Keeps.Keeps-if (schema.owner == "") _ _ (λ _. Keeps-pure tt)
            λ _. Keeps-bind _ _ (Adds-get_one_field P allows _ _) λ owner.
              Keeps.Keeps-if (owner == schema.owner) _ _ (λ _. Keeps-pure tt)
                λ _.
                  Keeps-bind _ _ (create_role-Adds P allows _ (p wanted))
                    λ _. Adds-exec P allows _ [] (q wanted)

  pub reconcile-Adds :
      (schema : Schema)
      → ((s : Statement) → SchemaStatement schema s → P s)
      → Add (reconcile schema)
  unfolding reconcile
  reconcile-Adds schema suits =
      search
        (
          adds_rules,
          create-Adds schema (λ w dsn. suits _ (creates w refl)),
          drop-Adds schema (λ w dsn. suits _ (drops w refl)),
          owner-Adds schema (λ w dsn. suits _ (creates_owner w refl))
              (λ w dsn. suits _ (sets_owner w refl)),
        )
        depth 7

  pub reconcile_all-Adds :
      (schemas : Schemas)
      → ((s : Statement) → FromSchemas schemas s → P s)
      → Add (reconcile_all schemas)
  unfolding reconcile_all
  reconcile_all-Adds [] suits = Keeps-pure tt
  reconcile_all-Adds ((name, schema) ∷ schemas) suits =
      Keeps-bind _ _ (reconcile-Adds (record schema { name = name }) (λ s h. suits s (inl h)))
        (λ _. reconcile_all-Adds schemas (λ s h. suits s (inr h)))

-- Bringing schemas in line sends only statements that suit one of them: unless it is absent they
-- create it or its owner or set the owner, and unless it is present they drop it.
pub reconcile_all-FromSchemas :
    {C : Type 0} ⦃srv : Server C⦄ (schemas : Schemas)
    → Sends (FromSchemas schemas) (reconcile_all {C = C} schemas)
reconcile_all-FromSchemas schemas =
    Keeps-Sends _ _ (λ log. reconcile_all-Adds _ (Adds-Allows _ log) schemas (λ s h. h))
