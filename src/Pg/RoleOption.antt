-- ===== src/Pg/RoleOption.antt =====
-- pkg/pg/roleoption.go: the options of a role. Lists and maps of options are in Options.
pub mod Options
pub mod Names
pub mod Maps
use Prim.Native.String.{[], ◌∷◌, ◌++◌}
use pgfga.Base.{String, Bool, true, false, not, Option, none, some, List, ◌==◌, if◌then◌else◌}
use pgfga.Text.{has_prefix, cut_prefix, to_lower}

abbrev pub RoleOption : Type 0
RoleOption = String

-- RoleOption.Absolute
unfoldable pub absolute : RoleOption → RoleOption
absolute opt = (cut_prefix opt "NO").0

-- RoleOption.Enabled
unfoldable pub enabled : RoleOption → Bool
enabled opt = not (has_prefix opt "NO")

-- RoleOption.Invert
unfoldable pub invert : RoleOption → RoleOption
invert opt = let (inverted, found) = cut_prefix opt "NO" in if found then inverted else "NO" ++ opt

-- RoleOption.SQL, on an option that is enabled
unfoldable pub column : RoleOption → String
column opt =
    if opt == "SUPERUSER"
    then "rolsuper"
    else if opt == "LOGIN"
    then "rolcanlogin"
    else "rol" ++ to_lower opt

-- RoleOption.SQL calls itself on what stands behind the first NO: a part of the text, so that the
-- recursion is structural. `sql_lem` below in Names states the body as it is written in Go.
unfoldable pub sql : RoleOption → String
sql [] = column []
sql (c ∷ []) = column (c ∷ [])
sql (c ∷ d ∷ rest) = if enabled (c ∷ d ∷ rest) then column (c ∷ d ∷ rest) else "not " ++ sql rest
