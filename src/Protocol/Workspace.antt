-- ===== src/Protocol/Workspace.antt =====
-- protocol/v1/messages.go: `JobOffer` and the files of its workspace.
-- path.Clean, base64 and sort.Strings are parameters.
pub mod Safety
use Prim.Native.Char.{Char, char, code}
use Prim.Native.String.{String}
use native.Mathlib.Omega.{arith}
use myference.Prelude.{
  ℕ, ◌+◌, ◌-◌, ◌≤◌, Bool, true, false, not, ◌&&◌, ◌||◌, Option, none, some, List, [], ◌∷◌, ◌++◌,
  ◌≡◌, ltb, leb, ◌==◌, str_eq, is_empty, is_blank, trim_space, length, any, map, if◌then◌else◌,
  Option-cases, Bool-cases, inl, inr,
}
use myference.Protocol.Messages.{MessageError, invalid_message}

pub record WorkspaceFile : Type 0 where
  pub path : String
  pub content_base64 : String

pub record JobOffer : Type 0 where
  pub request_id : String
  pub model : String
  pub offer_id : String
  pub prompt : String
  pub price_version : ℕ
  pub maximum_spend : ℕ
  pub maximum_output_tokens : ℕ
  pub lease_expires_at : ℕ
  pub workspace : List WorkspaceFile

-- `clean` is path.Clean, `decoded_size` the length of what base64 decodes, if it does, and `sort`
-- sort.Strings.
pub record WorkspaceLibrary : Type 0 where
  pub clean : String → String
  pub decoded_size : String → Option ℕ
  pub sort : List String → List String

abbrev pub maximum_workspace_files : ℕ
maximum_workspace_files = 64

abbrev pub maximum_workspace_bytes : ℕ
maximum_workspace_bytes = 524288

-- `strings.ContainsRune(s, c)`
abbrev pub contains_rune : ℕ → String → Bool
contains_rune r String.[] = false
contains_rune r (String.◌∷◌ c s) = code c == r || contains_rune r s

-- `strings.HasPrefix(s, prefix)`
abbrev pub has_prefix : String → String → Bool
has_prefix s String.[] = true
has_prefix String.[] (String.◌∷◌ p prefix) = false
has_prefix (String.◌∷◌ c s) (String.◌∷◌ p prefix) = code c == code p && has_prefix s prefix

-- `strings.ReplaceAll(s, "\\", "/")`
abbrev pub slashes : String → String
slashes String.[] = String.[]
slashes (String.◌∷◌ c s) = String.◌∷◌ (if code c == 92 then char b'/' tt else c) (slashes s)

abbrev is_letter : ℕ → Bool
is_letter c = (leb b'a' c && leb c b'z') || (leb b'A' c && leb c b'Z')

-- `^[A-Za-z]:[\\/]`
abbrev pub is_windows_absolute : String → Bool
is_windows_absolute (String.◌∷◌ c (String.◌∷◌ d (String.◌∷◌ e s))) =
    is_letter (code c) && code d == b':' && (code e == 92 || code e == b'/')
is_windows_absolute _ = false

-- The first tests of the loop, of a trimmed name and its cleaned form.
unfoldable pub bad_path : String → String → Bool
bad_path name cleaned =
    is_empty name
    || contains_rune 92 name
    || str_eq cleaned "."
    || str_eq cleaned ".."
    || has_prefix cleaned "../"
    || has_prefix cleaned "/"
    || is_windows_absolute name
    || not (str_eq cleaned name)

-- `p + "/"`
abbrev with_slash : String → String
with_slash String.[] = "/"
with_slash (String.◌∷◌ c s) = String.◌∷◌ c (with_slash s)

-- The loop over the sorted paths: each with the one before it.
unfoldable pub nested : List String → Bool
nested [] = false
nested (p ∷ []) = false
nested (p ∷ q ∷ rest) = has_prefix q (with_slash p) || nested (q ∷ rest)

module _ (lib : WorkspaceLibrary) where
  -- The loop over the files: the paths that it collects, and the bytes that it counts.
  unfoldable pub check_files : List String → ℕ → List WorkspaceFile → Option (List String × ℕ)
  unfolding bad_path
  check_files paths total [] = some (paths, total)
  check_files paths total (file ∷ files) =
      let name = trim_space file.path in
      let cleaned = lib.clean (slashes name) in
      if bad_path name cleaned || any (str_eq cleaned) paths
      then none
      else elim (lib.decoded_size file.content_base64) [
        | none ↦ none
        | some size ↦
            let rest = check_files (paths ++ cleaned ∷ []) (total + size) files in
            if ltb (maximum_workspace_bytes - total) size then none else rest
      ]

  unfoldable pub checked_workspace : Option (List String × ℕ) → Option MessageError
  unfolding nested
  checked_workspace none = some invalid_message
  checked_workspace (some (paths, total)) =
      if nested (lib.sort paths) then some invalid_message else none

  -- `JobOffer.Validate` at time `now`.
  unfoldable pub validate_job_offer : ℕ → JobOffer → Option MessageError
  unfolding checked_workspace
  validate_job_offer now m =
      if is_blank m.request_id
        || is_blank m.model
        || is_blank m.offer_id
        || is_blank m.prompt
        || m.price_version == 0
        || m.maximum_spend == 0
        || m.maximum_output_tokens == 0
        || not (ltb now m.lease_expires_at)
      then some invalid_message
      else if ltb maximum_workspace_files (length m.workspace)
      then some invalid_message
      else checked_workspace (check_files [] 0 m.workspace)
