-- ===== src/Handler/Group.antt =====
-- LDAP groups in internal/handler/pgfga_handler.go: the tree of a group that the directory names, and
-- the users that handleLdapGroup makes of it.
mod Tests
use pgfga.Base.{ℕ, suc, ◌<◌, ◌≡◌, refl, false, List, All, length, ◌⊎◌, sym, ap, ◌∙◌}
use pgfga.Base.Result.{ok}
use pgfga.Pg.State.{State}
use pgfga.Pg.Role.{Role}
use pgfga.Pg.Handler
use pgfga.Ldap.Directory
use pgfga.Ldap.Directory.{Directory}
use pgfga.Ldap.Member.Heap.{Heap, at}
use pgfga.Ldap.Member.Tree.{Membership, membership_tree}
use pgfga.Ldap.Member.Tree.Fuel.{IsRanked, membership_tree-Done}
use pgfga.Ldap.Member.Tree.Depth.{depth, depth-bound, depth-IsRanked}
use pgfga.Ldap.Member.Tree.Members.{Below, InTree, membership_tree-Below}
use pgfga.Handler.Run.{or_overflow, tree_of}

-- The memberships are those of the members below the address, and of each of them.
abbrev pub IsTree : Heap → ℕ → List Membership → Type 0
IsTree heap a mss =
    All (λ ms. Below heap (at heap a) ms.member) mss
    × ((d : ℕ) → Below heap (at heap a) d → InTree d mss)

-- If there is no cycle among the members, so that some ranking puts the children of every member
-- below it, the tree of a group is found within the bound on its depth, and it holds exactly the
-- members below the group.
pub tree_of-IsTree :
    (rank : ℕ → ℕ) (ldap : Directory.Handler)
    → IsRanked rank ldap.graph.heap
    → (base_group : ℕ)
    → (mss : List Membership) × (tree_of ldap base_group ≡ ok mss)
      × IsTree ldap.graph.heap base_group mss
unfolding tree_of
tree_of-IsTree rank ldap ranked base_group =
    let heap = ldap.graph.heap in
    let (mss, done) =
      membership_tree-Done (depth rank heap) heap (depth-IsRanked rank heap ranked)
        (suc (length heap)) base_group (depth-bound rank heap base_group) in
    (mss, ap or_overflow done, membership_tree-Below _ heap _ mss done)
