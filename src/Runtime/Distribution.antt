-- ===== src/Runtime/Distribution.antt =====
-- sdk/node/src/runtime-package.ts and distribution.ts: which file is run as the runtime. Node's module
-- resolution, its file access and `path.join` are parameters of the definitions that use them; an
-- environment variable is the text that a lookup finds.
use text.Mathlib.Text.{◌==◌ as str_eq}
use Prim.Native.Char.{Char, code}
use Prim.Native.String.{[] as no_text, ◌∷◌ as char_then, ◌++◌ as joined_to}
use meta_go.Prelude.{
  ℕ, String, Bool, true, false, not, ◌&&◌, ◌||◌, ◌==◌, List, [], ◌∷◌, ◌++◌, Option, none, some,
  if◌then◌else◌,
}
use meta_go.Errors.{JsError, runtime_launch_error, Result, ok, err, ◌>>=◌}
pub mod Search

pub record RuntimeTarget : Type 0 where
  pub platform : String
  pub arch : String
  pub filename : String

unfoldable pub is_platform : String → Bool
is_platform p = str_eq p "linux" || str_eq p "darwin" || str_eq p "win32"

unfoldable pub is_arch : String → Bool
is_arch a = str_eq a "x64" || str_eq a "arm64"

unfoldable pub runtime_target : String → String → Result RuntimeTarget
runtime_target platform arch =
    if not (is_platform platform)
    then err (runtime_launch_error (joined_to "unsupported runtime platform " platform))
    else if not (is_arch arch)
    then err (runtime_launch_error (joined_to "unsupported runtime architecture " arch))
    else ok (record {
      platform = platform;
      arch = arch;
      filename = if str_eq platform "win32" then "meta-runtime.exe" else "meta-runtime";
    })

unfoldable pub runtime_package_name : RuntimeTarget → String
runtime_package_name t =
    joined_to "@meewmeew/meta-runtime-" (joined_to t.platform (joined_to "-" t.arch))

-- What a module resolution yields: a path, or an error with or without a member `code`.
pub data Resolution : Type 0 where
  resolved : String → Resolution
  failed : (code : Option String) → Resolution

unfoldable pub module_missing : Option String → Bool
module_missing none = false
module_missing (some c) = str_eq c "MODULE_NOT_FOUND" || str_eq c "ERR_MODULE_NOT_FOUND"

module _ (can_execute : String → Bool) where
  abbrev pub bundled_at : String → Resolution → Result (Option String)
  bundled_at name (failed c) =
      if module_missing c
      then ok none
      else err (runtime_launch_error (joined_to "failed to resolve bundled runtime package " name))
  bundled_at name (resolved p) =
      if can_execute p
      then ok (some p)
      else err (
          runtime_launch_error (
            joined_to "bundled runtime package "
              (joined_to name " does not contain an executable runtime")))

  unfoldable pub resolve_bundled_runtime :
      (String → Resolution) → RuntimeTarget → Result (Option String)
  resolve_bundled_runtime resolve t =
      let name = runtime_package_name t in bundled_at name (resolve (joined_to name "/runtime"))

-- The first piece gets the character in front; there always is one.
abbrev pub in_front : Char → List String → List String
in_front c [] = char_then c no_text ∷ []
in_front c (s ∷ ss) = char_then c s ∷ ss

-- `text.split(delimiter)`.
unfoldable pub split : Char → String → List String
split d no_text = no_text ∷ []
split d (char_then c s) =
    let rest = split d s in if code c == code d then no_text ∷ rest else in_front c rest

-- `filter(Boolean)`.
unfoldable pub non_empty : List String → List String
non_empty [] = []
non_empty (s ∷ ss) = let rest = non_empty ss in if str_eq s "" then rest else s ∷ rest

module _ (can_execute : String → Bool) (join : String → String → String) where
  -- The loop over the directories of PATH.
  unfoldable pub first_executable : String → List String → Option String
  first_executable filename [] = none
  first_executable filename (d ∷ ds) =
      let later = first_executable filename ds in
      if can_execute (join d filename) then some (join d filename) else later

  unfoldable pub find_on_path : Char → String → Option String → Option String
  find_on_path delimiter filename none = none
  find_on_path delimiter filename (some path) =
      if str_eq path "" then none else first_executable filename (non_empty (split delimiter path))

-- A member or a variable that is set and not empty.
abbrev pub given : Option String → Option String
given none = none
given (some s) = if str_eq s "" then none else some s

-- What `resolveRuntimePath` reads: the option `runtimePath`, and its merged environment.
pub record Lookup : Type 0 where
  pub runtime_path : Option String
  pub env_runtime_path : Option String
  pub env_path : Option String
  pub platform : String
  pub arch : String

abbrev pub installed : String → Option String → Result String
installed filename (some p) = ok p
installed filename none = err (
    runtime_launch_error
      (joined_to filename " was not found in the bundled runtime package or on PATH"))

module _ (resolve : String → Resolution) (can_execute : String → Bool)
    (join : String → String → String) (delimiter : Char) where
  abbrev pub bundled_or : Option String → RuntimeTarget → Option String → Result String
  bundled_or (some p) t path = ok p
  bundled_or none t path =
      installed t.filename (find_on_path can_execute join delimiter t.filename path)

  abbrev pub searched : Lookup → Result String
  searched l = runtime_target l.platform l.arch >>= λ t.
      resolve_bundled_runtime can_execute resolve t >>= λ b. bundled_or b t l.env_path

  abbrev pub first_given : Option String → Option String → Lookup → Result String
  first_given (some p) e l = ok p
  first_given none (some p) l = ok p
  first_given none none l = searched l

  unfoldable pub resolve_runtime_path : Lookup → Result String
  resolve_runtime_path l = first_given (given l.runtime_path) (given l.env_runtime_path) l
