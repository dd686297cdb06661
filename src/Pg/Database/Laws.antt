-- ===== src/Pg/Database/Laws.antt =====
-- Which statements bringing databases in line sends.
use Prim.Native.String.{◌++◌}
use pgfga.Base.{String, ◌≡◌, refl, true, false, Option, none, some, List, [], ◌∷◌, ◌⊎◌, inl, inr}
use pgfga.Pg.State.{present, ◌=S=◌}
use pgfga.Pg.Server.{Server}
use pgfga.Pg.Conn.Act.{World, Statement, Act, run_all}
use pgfga.Pg.Conn.Keeps.{
  Keeps, Keeps-pure, Keeps-bind, Keeps-if, Keeps-raise, Keeps-lift, Keeps-by_value, Keeps-on_conn,
}
use pgfga.Pg.Conn.Adds.{
  Allows, Adds-Allows, Sent, Adds-close, Adds-exec, Adds-exists, Adds-connect, Adds-ask, Sends,
  Keeps-Sends, Keeps-cons, Keeps-nil, adds_rules,
}
use pgfga.Pg.Role.{zero_role}
use pgfga.Pg.Role.Actions
use pgfga.Pg.Role.Statements.{create_role-Adds}
use pgfga.Pg.Extension.{Extensions}
use pgfga.Pg.Extension.Laws as ExtensionLaws
use pgfga.Pg.Extension.Laws.{FromExtensions}
use pgfga.Pg.Schema.{Schemas}
use pgfga.Pg.Schema.Laws as SchemaLaws
use pgfga.Pg.Schema.Laws.{FromSchemas}
use pgfga.Pg.Extension.Laws.{not-false}
use pgfga.Pg.Role.{entries}
use pgfga.Pg.Database.{
  Database, Databases, create_sql, owner_sql, drop_sql, read_only_sql, read_write_sql, get_owner,
  exists, create, drop, reconcile_owner, grant_each, grant_missing, reconcile_read_only_grants,
  reconcile_read_write_grants, each_extension, each_schema, reconcile_extensions, reconcile_schemas,
  deferring, reconcile_db_con, reconcile, reconcile_all, finalize_all,
}

-- The statements that suit a database.
pub data DatabaseStatement (d : Database) (s : Statement) : Type 0 where
  creates_owner : s.sql ≡ Actions.create_sql (get_owner d) → DatabaseStatement d s
  creates : s.sql ≡ create_sql d.name → DatabaseStatement d s
  sets_owner : s.sql ≡ owner_sql d.name (get_owner d) → DatabaseStatement d s
  grants_reading :
      (schema : String)
      → s.sql ≡ read_only_sql schema (d.name ++ "_readonly")
      → DatabaseStatement d s
  grants_writing :
      (schema : String)
      → s.sql ≡ read_write_sql schema (d.name ++ "_readwrite")
      → DatabaseStatement d s
  has_extensions : FromExtensions (entries d.extensions) s → DatabaseStatement d s
  has_schemas : FromSchemas (entries d.schemas) s → DatabaseStatement d s

-- The statement suits one of the databases that are present, under the name that the map has.
abbrev pub FromDatabases : Databases → Statement → Type 0
FromDatabases [] s = ⊥
FromDatabases ((name, d) ∷ ds) s =
    (((d.state =S= present) ≡ true) × DatabaseStatement (record d { name = name }) s)
    ⊎ FromDatabases ds s

-- Dropping a database of the map that is not present.
abbrev pub DropsDatabases : Databases → Statement → Type 0
DropsDatabases [] s = ⊥
DropsDatabases ((name, d) ∷ ds) s =
    (((d.state =S= present) ≡ false) × (s.sql ≡ drop_sql name)) ⊎ DropsDatabases ds s

module _ (P : Statement → Type 0) (d : Database)
    (suits : (s : Statement) → DatabaseStatement d s → P s) where
  create_suits : Sent P (create_sql d.name)
  create_suits dsn = suits _ (creates refl)

  owner_suits : Sent P (owner_sql d.name (get_owner d))
  owner_suits dsn = suits _ (sets_owner refl)

module _ {C : Type 0} ⦃srv : Server C⦄ (P : Statement → Type 0) {kept : World C → Type 0}
    (allows : Allows P kept) where
  abbrev Add : Act C (Unit {0}) → Type 0
  Add m = Keeps kept m

  grant_each-Adds :
      (sql : String → String) (schemas : List String)
      → ((schema : String) → Sent P (sql schema))
      → Add (grant_each sql schemas)
  unfolding grant_each
  grant_each-Adds sql [] p = Keeps-pure tt
  grant_each-Adds sql (schema ∷ schemas) p =
      Keeps-bind _ _ (Adds-exec P allows _ [] (p schema)) (λ _. grant_each-Adds sql schemas p)

  grant_missing-Adds :
      (query role : String) (sql : String → String)
      → ((schema : String) → Sent P (sql schema))
      → Add (grant_missing query role sql)
  unfolding grant_missing
  grant_missing-Adds query role sql p = Keeps-bind _ _ (Adds-connect P allows) λ _.
      Keeps-bind _ _ (Adds-ask P allows _ _)
        λ answer. Keeps-bind _ _ (Keeps-lift _) λ schemas. grant_each-Adds sql schemas p

  deferring-Adds : (late m : Act C (Unit {0})) → Add late → Add m → Add (deferring late m)
  unfolding deferring
  deferring-Adds late m kl km = record { at = λ e h. kl.at (m e).1 (km.at e h) }

  each_extension-Adds :
      (es : Option Extensions)
      → ((s : Statement) → FromExtensions (entries es) s → P s)
      → Add (each_extension es)
  each_extension-Adds none suits = Keeps-pure tt
  each_extension-Adds (some es) suits = ExtensionLaws.reconcile_all-Adds P allows es suits

  each_schema-Adds :
      (ss : Option Schemas)
      → ((s : Statement) → FromSchemas (entries ss) s → P s)
      → Add (each_schema ss)
  each_schema-Adds none suits = Keeps-pure tt
  each_schema-Adds (some ss) suits = SchemaLaws.reconcile_all-Adds P allows ss suits

  module _ (d : Database) (suits : (s : Statement) → DatabaseStatement d s → P s) where
    create-Adds : Add (create d)
    unfolding create exists
    create-Adds = search (adds_rules, create_suits P d suits) depth 7

    reconcile_owner-Adds : Add (reconcile_owner d)
    unfolding reconcile_owner Actions.exists
    reconcile_owner-Adds = Keeps-by_value _ (
        Keeps-bind _ _ (Adds-exists P allows _ _) λ proper.
          Keeps-if proper _ _ (λ _. Keeps-pure tt)
            λ _. Keeps-bind _ _ (Keeps-by_value _ (Adds-exists P allows _ _)) λ there.
              Keeps-if there _ _ (λ _. Adds-exec P allows _ [] (owner_suits P d suits))
                (λ _. Keeps-raise _))

    read_only-Adds : Add (reconcile_read_only_grants d)
    unfolding reconcile_read_only_grants
    read_only-Adds = grant_missing-Adds _ _ _ (λ schema dsn. suits _ (grants_reading schema refl))

    read_write-Adds : Add (reconcile_read_write_grants d)
    unfolding reconcile_read_write_grants
    read_write-Adds = grant_missing-Adds _ _ _ (λ schema dsn. suits _ (grants_writing schema refl))

    extensions-Adds : Add (reconcile_extensions d)
    unfolding reconcile_extensions
    extensions-Adds = each_extension-Adds d.extensions (λ s h. suits s (has_extensions h))

    schemas-Adds : Add (reconcile_schemas d)
    unfolding reconcile_schemas
    schemas-Adds = each_schema-Adds d.schemas (λ s h. suits s (has_schemas h))

    inside-Adds : Add (
        run_all (
          reconcile_read_only_grants d
          ∷ reconcile_read_write_grants d
          ∷ reconcile_extensions d
          ∷ reconcile_schemas d
          ∷ []))
    inside-Adds =
        search (adds_rules, read_only-Adds, read_write-Adds, extensions-Adds, schemas-Adds) depth 7

    db_con-Adds : Add (reconcile_db_con d)
    unfolding reconcile_db_con
    db_con-Adds = record {
      at = λ e. (Keeps-on_conn _ _ (deferring-Adds _ _ (Adds-close P allows) inside-Adds)).at e;
    }

    -- what follows the creation
    pub after_create-Adds : Add (run_all (reconcile_owner d ∷ reconcile_db_con d ∷ []))
    after_create-Adds = Keeps-cons _ _ reconcile_owner-Adds (Keeps-cons _ _ db_con-Adds Keeps-nil)

    steps-Adds : Add (
        run_all (
          Actions.create (record zero_role { name = get_owner d })
          ∷ create d
          ∷ reconcile_owner d
          ∷ reconcile_db_con d
          ∷ []))
    steps-Adds =
        Keeps-cons _ _ (create_role-Adds P allows _ (λ dsn. suits _ (creates_owner refl)))
          (Keeps-cons _ _ create-Adds after_create-Adds)

  reconcile-Adds :
      (d : Database)
      → ((d.state =S= present) ≡ true → (s : Statement) → DatabaseStatement d s → P s)
      → Add (reconcile d)
  unfolding reconcile
  reconcile-Adds d suits =
      Keeps-if _ _ _ (λ _. Keeps-pure tt) (λ w. steps-Adds d (suits (not-false w)))

  pub reconcile_all-Adds :
      (ds : Databases) → ((s : Statement) → FromDatabases ds s → P s) → Add (reconcile_all ds)
  unfolding reconcile_all
  reconcile_all-Adds [] suits = Keeps-pure tt
  reconcile_all-Adds ((name, d) ∷ ds) suits =
      Keeps-bind _ _ (reconcile-Adds (record d { name = name }) (λ w s h. suits s (inl (w, h))))
        (λ _. reconcile_all-Adds ds (λ s h. suits s (inr h)))

  drop-Adds :
      (d : Database) → ((d.state =S= present) ≡ false → Sent P (drop_sql d.name)) → Add (drop d)
  unfolding drop exists
  drop-Adds d p = search (adds_rules, p) depth 7

  pub finalize_all-Adds :
      (ds : Databases) → ((s : Statement) → DropsDatabases ds s → P s) → Add (finalize_all ds)
  unfolding finalize_all
  finalize_all-Adds [] suits = Keeps-pure tt
  finalize_all-Adds ((name, d) ∷ ds) suits =
      Keeps-bind _ _ (drop-Adds (record d { name = name }) (λ n dsn. suits _ (inl (n, refl))))
        (λ _. finalize_all-Adds ds (λ s h. suits s (inr h)))

-- Bringing databases in line sends only statements that suit one of those that are present: they
-- create its owner or itself, set its owner, grant on the tables of a schema to its reading or its
-- writing role, or suit one of its extensions or schemas. Finalizing only drops databases of the
-- map that are not present.
pub databases_lem :
    {C : Type 0} ⦃srv : Server C⦄ (ds : Databases)
    → Sends (FromDatabases ds) (reconcile_all {C = C} ds)
      × Sends (DropsDatabases ds) (finalize_all {C = C} ds)
databases_lem ds = (
  Keeps-Sends _ _ (λ log. reconcile_all-Adds _ (Adds-Allows _ log) ds (λ s h. h)),
  Keeps-Sends _ _ (λ log. finalize_all-Adds _ (Adds-Allows _ log) ds (λ s h. h)),
)
