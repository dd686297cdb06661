-- ===== src/Pg/RoleOption/Options.antt =====
-- pkg/pg/roleoption_list.go, roleoption_map.go, and the tables and checks of roleoption.go.
use pgfga.Base.{String, Bool, true, false, Option, none, some, List, [], ◌∷◌, ◌++◌}
use pgfga.Base.Result.{Result, ok, err, invalid_option, ◌>>=◌}
use pgfga.GoMap.{Map, put, put_all, lookup, contains}
use pgfga.Pg.RoleOption.{RoleOption, absolute, enabled, invert}

abbrev pub RoleOptionList : Type 0
RoleOptionList = List RoleOption

abbrev pub RoleOptionMap : Type 0
RoleOptionMap = Map Bool

-- RoleOptionList.ToMap
unfoldable pub to_map : RoleOptionList → RoleOptionMap
to_map rol = put_all (λ opt. opt) enabled [] rol

-- RoleOptionList.ToValidMap
unfoldable pub to_valid_map : RoleOptionList → Map Bool
to_valid_map rol = put_all (λ opt. opt) (λ _. true) [] rol

-- RoleOptionList.Inverted
unfoldable pub inverted : RoleOptionList → RoleOptionList
inverted [] = []
inverted (option ∷ rol) = invert option ∷ inverted rol

abbrev pub all_normal_role_options : RoleOptionList
all_normal_role_options =
    "SUPERUSER" ∷ "LOGIN" ∷ "CREATEROLE" ∷ "CREATEDB" ∷ "INHERIT" ∷ "REPLICATION" ∷ "BYPASSRLS" ∷ []

unfoldable pub all_inverted_role_options : RoleOptionList
all_inverted_role_options = inverted all_normal_role_options

unfoldable pub all_role_options : RoleOptionList
all_role_options = all_normal_role_options ++ all_inverted_role_options

unfoldable pub all_valid_role_options : Map Bool
all_valid_role_options = to_valid_map all_role_options

abbrev pub valid_result : Bool → RoleOption → Result (Unit {0})
valid_result true opt = ok tt
valid_result false opt = err (invalid_option opt)

-- RoleOption.Validate
unfoldable pub validate : RoleOption → Result (Unit {0})
validate opt = valid_result (contains opt all_valid_role_options) opt

-- RoleOption.MarshalYAML, whose error is always nil
unfoldable pub marshal_yaml : RoleOption → Result String
marshal_yaml opt = ok opt

-- RoleOptionFromYAML: what the YAML reader hands over is the text or its error
unfoldable pub role_option_from_yaml : Result String → Result RoleOption
unfolding validate
role_option_from_yaml read = do name ← read; _ ← validate name; ok name

-- RoleOptionMap.ToList
unfoldable pub to_list : RoleOptionMap → RoleOptionList
to_list [] = []
to_list ((opt, _) ∷ rom) = opt ∷ to_list rom

-- RoleOptionMap.Clone: the value is computed again from the key
unfoldable pub clone : RoleOptionMap → RoleOptionMap
unfolding to_list
clone rom = put_all (λ opt. opt) enabled [] (to_list rom)

-- RoleOptionMap.AbsoluteMerge
unfoldable pub absolute_merge : RoleOptionMap → RoleOptionMap → RoleOptionMap
unfolding clone
absolute_merge rom other = put_all absolute enabled (clone rom) (to_list other)

-- RoleOptionMap.Merge
unfoldable pub merge : RoleOptionMap → RoleOptionMap → RoleOptionMap
unfolding clone
merge rom other = put_all absolute enabled (clone rom) (to_list other)

-- RoleOptionMap.AddAbsolute
unfoldable pub add_absolute : RoleOptionMap → RoleOption → RoleOptionMap
add_absolute rom opt = put (absolute opt) (enabled opt) rom

abbrev pub or_false : Option Bool → Bool
or_false none = false
or_false (some enabled) = enabled

-- RoleOptionMap.IsEnabled
unfoldable pub is_enabled : RoleOptionMap → RoleOption → Bool
is_enabled rom opt = or_false (lookup opt rom)
