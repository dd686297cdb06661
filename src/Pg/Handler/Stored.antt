-- ===== src/Pg/Handler/Stored.antt =====
-- GetRole and Grant keep the roles that are stored, and give such roles.
use pgfga.Base.{String, Option-cases, inl, inr, subst, sym, ap}
use pgfga.GoMap.{lookup}
use pgfga.GoMap.Laws.{AllEntries-lookup, AllEntries-put}
use pgfga.Pg.Role.{Role, new_role}
use pgfga.Pg.Role.Merging.{IsStored, AreStored, new_role-IsStored}
use pgfga.Pg.Handler.{Handler, got, get_role, grant}

abbrev GetKeeps : Role × Handler → Type 0
GetKeeps (r, h) = IsStored r × AreStored h.roles

pub get_role-AreStored :
    (h : Handler) (name : String)
    → AreStored h.roles
    → IsStored (get_role h name).0 × AreStored (get_role h name).1.roles
unfolding get_role
get_role-AreStored h name s = elim (Option-cases (lookup name h.roles)) [
  | inl missing ↦ subst GetKeeps (sym (ap (got h name) missing)) (
    new_role-IsStored name,
    AllEntries-put _ name (new_role name) h.roles (new_role-IsStored name) s,
  )
  | inr (r, found) ↦
      subst GetKeeps (sym (ap (got h name) found)) (AllEntries-lookup _ name r h.roles s found, s)
]

pub grant-AreStored :
    (h : Handler) (grantee granted : String)
    → AreStored h.roles
    → AreStored (grant h grantee granted).roles
unfolding grant
grant-AreStored h grantee granted s =
    (get_role-AreStored (get_role h granted).1 grantee (get_role-AreStored h granted s).1).1
