-- ===== src/Pg/Role/Converging.antt =====
-- On a server that keeps track of its roles, bringing the stored roles in line makes them exist with
-- all their options.
use pgfga.Base.{◌≡◌, refl, Bool, true, false, List, [], ◌∷◌, map, All, arith, inl, inr}
use pgfga.Base.Result.{ok}
use pgfga.Pg.State.{absent, ◌=S=◌}
use pgfga.Pg.RoleOption.{RoleOption}
use pgfga.Pg.RoleOption.Options.{to_list}
use pgfga.Pg.Server.{Server}
use pgfga.Pg.Conn.Act.{Statement, World, Env, run_all}
use pgfga.Pg.Conn.Keeps.{after_send}
use pgfga.Pg.Conn.Adds.{Allows}
use pgfga.Pg.Conn.Triples.{
  Triple, Triple-if, Triple-unvalue, Triple-cons, Triple-any, Triple-pure, Triple-bind,
  Triple-Keeps, Triple-mono, Triple-by_value, Triple-ok,
}
use pgfga.Pg.Conn.Ensuring.{Anything, ensured-Triple}
use pgfga.Pg.Role.{Role, Roles, entries}
use pgfga.Pg.Role.Actions.{
  Digest, exists, create, has_options, reconcile_option, reconcile_role_options, reconcile,
  reconcile_all,
}
use pgfga.Pg.Role.Merging.{IsOn, IsStored, IsStored-named, AreStored, to_list-AreOn}
use pgfga.Pg.Role.Statements.{
  later, options-Adds, after_options, after_options-Adds, after_create-Adds, Among, RoleStatement,
}
use pgfga.Pg.Role.AllRoles.{PlainStatement, FromRole, FromRole-PlainStatement, reconcile_all-Adds}
use pgfga.Pg.Role.Facts.{Fact, is_role, has_option, IsPositive, IsRoleServer, Exists, AllExist}

module _ {C : Type 0} ⦃srv : Server C⦄ (P : Statement → Type 0) (holds : Fact → C → Bool)
    (lawful : IsRoleServer P holds) where
  spares-Allows :
      (fact : Fact) → IsPositive fact → Allows {C = C} P (λ w. holds fact w.cluster ≡ true)
  spares-Allows fact positive = record {
    opens = record { opens = λ w n h. h };
    closes = λ w ids h. h;
    sending = λ s w p h. lawful.spares s fact p positive s.dsn w.cluster h;
  }

  create-Triple :
      (r : Role)
      → (r.state =S= absent) ≡ false
      → Triple
          (Anything {C = C})
          (create r)
          (λ _ w. holds (is_role r.name) w.cluster ≡ true)
          Anything
  unfolding create exists
  create-Triple r wanted =
      Triple-mono (create r) _ _
        (ensured-Triple (r.state =S= absent) _ _ _ _ _ (lawful.creates r.name)) (λ w h. h)
        (λ _ w h. h wanted)

  option-Triple :
      (r : Role) (opt : RoleOption)
      → IsOn opt
      → Triple
          (Anything {C = C})
          (reconcile_option r opt)
          (λ _ w. holds (has_option r.name opt) w.cluster ≡ true)
          Anything
  unfolding reconcile_option has_options
  option-Triple r opt on =
      Triple-mono (reconcile_option r opt) _ _
        (Triple-unvalue _ (ensured-Triple false _ _ _ _ _ (lawful.alters r.name opt on))) (λ w h. h)
        (λ _ w h. h refl)

  module _ (digest : Digest) (r : Role) (suits : (s : Statement) → RoleStatement digest r s → P s)
      (stored : IsStored r) where
    options-Triple :
        (opts : List RoleOption)
        → All IsOn opts
        → ((opt : RoleOption) → Among opt opts → Among opt (to_list (entries r.options)))
        → Triple
            (Anything {C = C})
            (run_all (map (reconcile_option r) opts))
            (λ _ w. All (λ opt. holds (has_option r.name opt) w.cluster ≡ true) opts)
            Anything
    unfolding run_all
    options-Triple [] ons sub = Triple-pure tt (λ w h. tt)
    options-Triple (opt ∷ opts) ons sub =
        Triple-cons _ _ (option-Triple r opt ons.0)
          (options-Triple opts ons.1 (λ o a. sub o (later opt a)))
          (options-Adds P (spares-Allows (has_option r.name opt) ons.0) digest r suits opts
            (λ o a. sub o (later opt a)))

    spared_options :
        (opts : List RoleOption)
        → All IsOn opts
        → (s : Statement) (w : World C) → P s
        → All (λ opt. holds (has_option r.name opt) w.cluster ≡ true) opts
        → All
            (λ opt. holds (has_option r.name opt) (after_send s.dsn s.sql s.args w).cluster ≡ true)
            opts
    spared_options [] ons s w p h = tt
    spared_options (opt ∷ opts) ons s w p h = (
      (spares-Allows (has_option r.name opt) ons.0).sending s w p h.0,
      spared_options opts ons.1 s w p h.1,
    )

    options-Allows : Allows {C = C} P (λ w.
        All (λ opt. holds (has_option r.name opt) w.cluster ≡ true) (to_list (entries r.options)))
    options-Allows = record {
      opens = record { opens = λ w n h. h };
      closes = λ w ids h. h;
      sending = λ s w p h. spared_options _ (to_list-AreOn _ stored.switched_on) s w p h;
    }

    pub Exists-Allows : Allows {C = C} P (λ w. Exists holds r.name r w.cluster)
    Exists-Allows = record {
      opens = record { opens = λ w n h. h };
      closes = λ w ids h. h;
      sending = λ s w p h.
          ((spares-Allows (is_role r.name) tt).sending s w p h.0, options-Allows.sending s w p h.1);
    }

    options_done-Triple :
        Triple
          (Anything {C = C})
          (run_all (reconcile_role_options r ∷ after_options digest r))
          (λ _ w.
            All
              (λ opt. holds (has_option r.name opt) w.cluster ≡ true)
              (to_list (entries r.options)))
          Anything
    unfolding reconcile_role_options
    options_done-Triple =
        Triple-mono _ _ _
          (Triple-cons (reconcile_role_options r) (after_options digest r)
            (Triple-by_value _ (options-Triple _ (to_list-AreOn _ stored.switched_on) (λ o a. a)))
            (Triple-any _) (after_options-Adds P options-Allows digest r suits))
          (λ w h. h) (λ _ w h. h.0)

    reconcile-Triple :
        Triple
          (Anything {C = C})
          (reconcile digest r)
          (λ _ w. Exists holds r.name r w.cluster)
          Anything
    unfolding reconcile
    reconcile-Triple =
        Triple-if (r.state =S= absent) _ _
          (λ gone. absurd (ground (arith, gone, stored.is_present)))
          λ wanted.
            Triple-cons _ _ (create-Triple r wanted) options_done-Triple
              (after_create-Adds P (spares-Allows (is_role r.name) tt) digest r suits)

  -- That all these roles exist is kept by statements with the property.
  pub AllExist-Allows :
      (digest : Digest) (rs : Roles)
      → ((s : Statement) → FromRole digest rs s → P s)
      → AreStored rs
      → Allows {C = C} P (λ w. AllExist holds rs w.cluster)
  AllExist-Allows digest [] suits h = record {
    opens = record { opens = λ w n k. k };
    closes = λ w ids k. k;
    sending = λ s w p k. k;
  }
  AllExist-Allows digest ((name, r) ∷ rs) suits h =
      let first =
        Exists-Allows digest (record r { name = name }) (λ s q. suits s (inl q))
          (IsStored-named r name h.0) in
      let others = AllExist-Allows digest rs (λ s q. suits s (inr q)) h.1 in
      record {
        opens = record { opens = λ w n k. k };
        closes = λ w ids k. k;
        sending = λ s w p k. (first.sending s w p k.0, others.sending s w p k.1);
      }

  pub reconcile_all-Triple :
      (digest : Digest) (rs : Roles)
      → ((s : Statement) → FromRole digest rs s → P s)
      → AreStored rs
      → Triple
          (Anything {C = C})
          (reconcile_all digest rs)
          (λ _ w. AllExist holds rs w.cluster)
          Anything
  unfolding reconcile_all
  reconcile_all-Triple digest [] suits h = Triple-pure tt (λ w _. tt)
  reconcile_all-Triple digest ((name, r) ∷ rs) suits h =
      let stored = IsStored-named r name h.0 in
      Triple-bind _ _
        (reconcile-Triple digest (record r { name = name }) (λ s q. suits s (inl q)) stored)
        λ _.
          Triple-mono (reconcile_all digest rs) _ _
            (Triple-Keeps _ (reconcile_all-Triple digest rs (λ s q. suits s (inr q)) h.1) (
              reconcile_all-Adds P
                (Exists-Allows digest (record r { name = name }) (λ s q. suits s (inl q)) stored)
                digest rs (λ s q. suits s (inr q))))
            (λ w k. (tt, k)) (λ _ w k. (k.1, k.0))

-- If bringing roles in line succeeds that are all present, with no password and no expiry, and with
-- valid options that switch something on, then afterwards each of them exists in the cluster and
-- has all options of its map. This holds on every server whose answers about roles tell the truth,
-- whose statements that create a role or switch an option on do so unless they fail, and on which
-- none of the statements that the roles may need removes a role or switches an option off.
pub reconcile_all-AllExist :
    {C : Type 0} ⦃srv : Server C⦄ (holds : Fact → C → Bool)
    (lawful : IsRoleServer PlainStatement holds) (digest : Digest) (rs : Roles) (e : Env C)
    → AreStored rs
    → (reconcile_all digest rs e).0 ≡ ok tt
    → AllExist holds rs (reconcile_all digest rs e).1.cluster
reconcile_all-AllExist holds lawful digest rs e stored succeeded =
    Triple-ok (reconcile_all digest rs) e tt
      (reconcile_all-Triple PlainStatement holds lawful digest rs
        (λ s. FromRole-PlainStatement digest rs s stored) stored)
      tt succeeded
