-- ===== src/Drivers/Etcd/Paths.antt =====
-- storage/drivers/etcd/kv_store.go: path.Join, which puts the prefix of the store in front of a key.
use Prim.Native.String.{[] as empty, ◌∷◌ as ◌:::◌, ◌++◌}
use protoconfig.Prelude.{
  ◌≡◌, refl, Bool, true, false, ◌||◌, List, [], ◌∷◌, reverse, String, str_eq, if◌then◌else◌,
}

-- The first part of a text between slashes, and the others
abbrev split_slashes : String → String × List String
split_slashes empty = ("", [])
split_slashes (c ::: s) =
    let (first, rest) = split_slashes s in
    if str_eq (c ::: empty) "/" then ("", first ∷ rest) else (c ::: first, rest)

abbrev pub path_parts : String → List String
path_parts path = let (first, rest) = split_slashes path in first ∷ rest

abbrev joined : List String → String
joined [] = ""
joined (p ∷ []) = p
joined (p ∷ q ∷ ps) = p ++ ("/" ++ joined (q ∷ ps))

-- What two dots do to the parts before them, the last one first
abbrev go_up : Bool → List String → List String
go_up rooted [] = if rooted then [] else ".." ∷ []
go_up rooted (p ∷ before) = if str_eq p ".." then ".." ∷ p ∷ before else before

-- The loop of path.Clean over the parts
abbrev pub cleaned : Bool → List String → List String → List String
cleaned rooted before [] = reverse before
cleaned rooted before (p ∷ parts) =
    if str_eq p "" || str_eq p "."
    then cleaned rooted before parts
    else if str_eq p ".."
    then cleaned rooted (go_up rooted before) parts
    else cleaned rooted (p ∷ before) parts

abbrev is_rooted : String → Bool
is_rooted empty = false
is_rooted (c ::: s) = str_eq (c ::: empty) "/"

abbrev or_dot : String → String
or_dot empty = "."
or_dot (c ::: s) = c ::: s

-- path.Clean
abbrev pub clean : String → String
clean path =
    if is_rooted path
    then "/" ++ joined (cleaned true [] (path_parts path))
    else or_dot (joined (cleaned false [] (path_parts path)))

-- path.Join of two elements, of which the empty ones are left out
abbrev pub path_join : String → String → String
path_join empty empty = ""
path_join empty (c ::: key) = clean (c ::: key)
path_join (c ::: prefix) empty = clean (c ::: prefix)
path_join (c ::: prefix) (d ::: key) = clean ((c ::: prefix) ++ ("/" ++ (d ::: key)))

joins : path_join "/store/" "a//b/./c" ≡ "/store/a/b/c"
joins = refl

-- Two dots in a key lead out of the store.
joins_outside : path_join "/store" "../other/key" ≡ "/other/key"
joins_outside = refl
