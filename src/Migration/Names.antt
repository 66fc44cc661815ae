-- ===== src/Migration/Names.antt =====
-- File names of internal/datasources/migration/migration.go: sorting, `filepath.Base` and the key
-- that a down file removes.
use Prim.Native.Char.{Char, code}
use Prim.Native.Nat.{Ordering}
use Prim.Native.String.{compare}
use go_rest_boilerplate.Base.{
  String, ◌<>◌, Bool, true, false, Option, none, some, List, [], ◌∷◌, ◌==◌, str_eq, if◌then◌else◌,
}

-- `s < t`, as `sort.Strings` compares.
abbrev pub str_lt : String → String → Bool
str_lt s t = elim (compare s t) [ Ordering.lt ↦ true | _ ↦ false ]

-- `t < s`, as `sort.Reverse` does.
abbrev pub str_gt : String → String → Bool
str_gt s t = str_lt t s

unfoldable pub insert_sorted : (String → String → Bool) → String → List String → List String
insert_sorted less x [] = x ∷ []
insert_sorted less x (y ∷ ys) = if less y x then y ∷ insert_sorted less x ys else x ∷ y ∷ ys

unfoldable pub sort_by : (String → String → Bool) → List String → List String
sort_by less [] = []
sort_by less (x ∷ xs) = insert_sorted less x (sort_by less xs)

-- The text after the last slash.
unfoldable pub base_from : String → String → String
base_from cur String.[] = cur
base_from cur (String.◌∷◌ c s) =
    base_from (if code c == b'/' then String.[] else cur <> String.◌∷◌ c String.[]) s

-- `filepath.Base` of a path that does not end in a slash.
abbrev pub base : String → String
base = base_from ""

abbrev pub down_suffix : String
down_suffix = ".down.sql"

abbrev pub prefixed : Char → Option String → Option String
prefixed c none = none
prefixed c (some s) = some (String.◌∷◌ c s)

-- What stands before the suffix.
unfoldable pub cut_suffix : String → Option String
cut_suffix String.[] = none
cut_suffix (String.◌∷◌ c s) =
    let rest = prefixed c (cut_suffix s) in
    if str_eq (String.◌∷◌ c s) down_suffix then some "" else rest

-- The name must be longer than the suffix.
abbrev pub up_name_of : String → Option String → String
up_name_of down_name none = down_name
up_name_of down_name (some p) = if str_eq p "" then down_name else p <> ".up.sql"

unfoldable pub derive_up_name : String → String
derive_up_name down_name = up_name_of down_name (cut_suffix down_name)
