-- ===== src/FileArguments/Paths.antt =====
-- src/sandbox/file_argument_translation.rs: the normal form of paths, and which arguments are paths
-- of the host. A Unix path has the components root, normal, `.` and `..` only.
use freebsd_flatpak.Prelude.{
  Bool, false, ◌&&◌, ◌||◌, List, [], ◌∷◌, ◌++◌, Option, none, some, if◌then◌else◌, any,
}
use freebsd_flatpak.Paths.{Component, root_dir, cur_dir, parent_dir, normal, components_of}
use freebsd_flatpak.Text.{Text, text, text_eq, split, starts_with, ends_with}

abbrev pub is_absolute : Text → Bool
is_absolute path = starts_with path (text "/")

-- `Path::components` of an absolute path
unfoldable pub components : Text → List Component
unfolding components_of split
components path = root_dir ∷ components_of (split path b'/')

-- `Path::join` of a relative path
abbrev pub join_path : Text → Text → Text
join_path base path = if ends_with base (text "/") then base ++ path else base ++ (b'/' ∷ path)

-- the loop, on the normal components that were pushed, the last one first; the root is never popped
unfoldable pub push_components : List Text → List Component → List Text
push_components parts [] = parts
push_components parts (root_dir ∷ rest) = push_components [] rest
push_components parts (cur_dir ∷ rest) = push_components parts rest
push_components [] (parent_dir ∷ rest) = push_components [] rest
push_components (part ∷ parts) (parent_dir ∷ rest) = push_components parts rest
push_components parts (normal part ∷ rest) = push_components (part ∷ parts) rest

-- a path from its parts, the last one first
unfoldable pub rooted : List Text → Text
rooted [] = text "/"
rooted (part ∷ []) = b'/' ∷ part
rooted (part ∷ parent ∷ parts) = rooted (parent ∷ parts) ++ (b'/' ∷ part)

-- `current_dir` is the working directory, if it can be read
unfoldable pub normalize_absolute_path : Option Text → Text → Option Text
unfolding push_components components rooted
normalize_absolute_path current_dir path =
    if is_absolute path
    then some (rooted (push_components [] (components path)))
    else elim current_dir [
      | none ↦ none
      | some dir ↦ some (rooted (push_components [] (components (join_path dir path))))
    ]

unfoldable pub looks_like_path_arg : Text → Bool
looks_like_path_arg arg =
    starts_with arg (text "/")
    || starts_with arg (text "./")
    || starts_with arg (text "../")
    || starts_with arg (text "~/")

abbrev internal_prefixes : List Text
internal_prefixes =
    text "app"
    ∷ text "bin"
    ∷ text "dev"
    ∷ text "etc"
    ∷ text "lib"
    ∷ text "lib64"
    ∷ text "proc"
    ∷ text "run"
    ∷ text "sys"
    ∷ text "tmp"
    ∷ text "usr"
    ∷ text "var"
    ∷ []

-- `Path::starts_with` compares components, and each prefix has one behind the root
abbrev pub first_is : List Component → Text → Bool
first_is (root_dir ∷ normal part ∷ _) prefix = text_eq part prefix
first_is _ prefix = false

unfoldable pub is_sandbox_internal_path : Text → Bool
unfolding components text_eq
is_sandbox_internal_path path =
    is_absolute path && any (first_is (components path)) internal_prefixes

unfoldable pub is_standalone_desktop_field_code : Text → Bool
unfolding text_eq
is_standalone_desktop_field_code arg = any (text_eq arg) (
    text "%f"
    ∷ text "%F"
    ∷ text "%u"
    ∷ text "%U"
    ∷ text "%i"
    ∷ text "%c"
    ∷ text "%k"
    ∷ text "%%"
    ∷ [])
