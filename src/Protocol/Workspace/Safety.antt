-- ===== src/Protocol/Workspace/Safety.antt =====
-- The workspace of a job that is accepted stays within its limits and within its directory.
use Prim.Native.Char.{Char, code}
use Prim.Native.String.{String}
use myference.Prelude.{
  ℕ, if◌then◌else◌, ◌==◌, Bool, Option, ap, refl, map, ◌+◌, ◌-◌, ◌≤◌, false, ◌||◌, none, some, List,
  [], ◌∷◌, ◌++◌, ◌≡◌, ltb, str_eq, eq_iff, trim_space, length, any, All, arith, Option-cases,
  Bool-cases, inl, inr, sym,
}
use myference.Protocol.Workspace.{
  WorkspaceFile, JobOffer, WorkspaceLibrary, maximum_workspace_bytes, contains_rune, has_prefix,
  slashes, is_windows_absolute, bad_path, check_files, checked_workspace, validate_job_offer,
}

-- A character before the first component of a path.
abbrev push : Char → List String → List String
push c [] = String.◌∷◌ c "" ∷ []
push c (p ∷ ps) = String.◌∷◌ c p ∷ ps

-- The components of a path, which slashes separate.
unfoldable pub components : String → List String
components String.[] = "" ∷ []
components (String.◌∷◌ c s) =
    let rest = components s in if code c == b'/' then "" ∷ rest else push c rest

-- Whether a path has a component that leads up.
abbrev pub climbs : String → Bool
climbs p = any (str_eq "..") (components p)

-- What path.Clean promises: in a path that it leaves as it is, a component leads up only at the
-- beginning.
abbrev pub IsCleaner : (String → String) → Type 0
IsCleaner clean =
    (p : String)
    → clean p ≡ p
    → str_eq p ".." ≡ false
    → has_prefix p "../" ≡ false
    → climbs p ≡ false

-- The path is a clean one that no component leads out of; it begins neither with a slash nor with a
-- drive, has no backslash, and is not the directory itself.
abbrev pub IsInside : (String → String) → String → Type 0
IsInside clean p =
    (clean p ≡ p)
    × (climbs p ≡ false)
    × (has_prefix p "/" ≡ false)
    × (is_windows_absolute p ≡ false)
    × (contains_rune 92 p ≡ false)
    × (str_eq p "." ≡ false)

-- No path is there twice.
abbrev pub Distinct : List String → Type 0
Distinct [] = Unit
Distinct (p ∷ ps) = (any (str_eq p) ps ≡ false) × Distinct ps

abbrev pub add_size : Option ℕ → Option ℕ → Option ℕ
add_size (some m) (some n) = some (m + n)
add_size _ _ = none

append_nil : (xs : List String) → xs ++ [] ≡ xs
append_nil [] = refl
append_nil (x ∷ xs) = ap (λ ys. x ∷ ys) (append_nil xs)

append_assoc : (xs ys zs : List String) → (xs ++ ys) ++ zs ≡ xs ++ (ys ++ zs)
append_assoc [] ys zs = refl
append_assoc (x ∷ xs) ys zs = ap (λ r. x ∷ r) (append_assoc xs ys zs)

All-snoc {ℓ κ} :
    {A : Type ℓ} (P : A → Type κ) (xs : List A) (x : A) → All P xs → P x → All P (xs ++ x ∷ [])
All-snoc P [] x h k = (k, tt)
All-snoc P (y ∷ xs) x (h, hs) k = (h, All-snoc P xs x hs k)

any-snoc :
    (p x : String) (ps : List String)
    → any (str_eq p) (ps ++ x ∷ []) ≡ (any (str_eq p) ps || str_eq p x)
any-snoc p x [] = ground arith
any-snoc p x (q ∷ ps) = ground (arith, any-snoc p x ps)

Distinct-snoc :
    (ps : List String) (x : String)
    → Distinct ps
    → any (str_eq x) ps ≡ false
    → Distinct (ps ++ x ∷ [])
Distinct-snoc [] x d new = (refl, tt)
Distinct-snoc (p ∷ ps) x (fresh, d) new =
    (ground (arith, any-snoc p x ps, eq_iff x p, eq_iff p x), Distinct-snoc ps x d (ground arith))

slashes-plain : (s : String) → contains_rune 92 s ≡ false → slashes s ≡ s
slashes-plain String.[] h = refl
slashes-plain (String.◌∷◌ c s) h = ground (arith, slashes-plain s)

module _ (lib : WorkspaceLibrary) where
  -- The path and the size of a file, and the size of all.
  abbrev pub path_of : WorkspaceFile → String
  path_of file = lib.clean (slashes (trim_space file.path))

  abbrev pub total_size : List WorkspaceFile → Option ℕ
  total_size [] = some 0
  total_size (file ∷ files) = add_size (lib.decoded_size file.content_base64) (total_size files)

  good_path-IsInside :
      (name : String)
      → IsCleaner lib.clean
      → bad_path name (lib.clean (slashes name)) ≡ false
      → IsInside lib.clean (lib.clean (slashes name))
  unfolding bad_path
  good_path-IsInside name law h =
      let cleaned = lib.clean (slashes name) in
      let same : cleaned ≡ name = ground (arith, eq_iff cleaned name) in
      let plain : slashes name ≡ name = slashes-plain name (ground arith) in
      let fixed : lib.clean name ≡ name = rw plain at same in
      let to_name : lib.clean (slashes name) ≡ name = same in
      rw to_name (
        fixed,
        law name fixed (ground (arith, same)) (ground (arith, same)),
        ground (arith, same),
        ground arith,
        ground arith,
        ground (arith, same),
      )

  -- What the loop over the files has found when it ends.
  record Checked (paths : List String) (total : ℕ) (files : List WorkspaceFile)
      (found : List String) (size : ℕ) : Type 0 where
    names : found ≡ paths ++ map path_of files
    bytes : ℕ
    counted : total_size files ≡ some bytes
    sum : size ≡ total + bytes
    fits : size ≤ maximum_workspace_bytes
    distinct : Distinct found
    inside : All (IsInside lib.clean) found

  check_files-Checked :
      (paths : List String) (total : ℕ) (files : List WorkspaceFile) (found : List String)
      (size : ℕ)
      → IsCleaner lib.clean
      → total ≤ maximum_workspace_bytes
      → Distinct paths
      → All (IsInside lib.clean) paths
      → check_files lib paths total files ≡ some (found, size)
      → Checked paths total files found size
  unfolding check_files
  check_files-Checked paths total [] found size law t d p h =
      let same : found ≡ paths = ground arith in
      record {
        names = rw (same, append_nil paths) refl;
        bytes = 0;
        counted = refl;
        sum = ground arith;
        fits = ground arith;
        distinct = rw same d;
        inside = rw same p;
      }
  check_files-Checked paths total (file ∷ files) found size law t d p h =
      let name = trim_space file.path in
      let cleaned = path_of file in
      elim (Bool-cases (bad_path name cleaned || any (str_eq cleaned) paths)) [
        | inl bad ↦ absurd (ground arith)
        | inr good ↦ elim (Option-cases (lib.decoded_size file.content_base64)) [
          | inl undecoded ↦ absurd (ground arith)
          | inr (bytes, decoded) ↦ elim (Bool-cases (ltb (maximum_workspace_bytes - total) bytes)) [
            | inl large ↦ absurd (ground arith)
            | inr fits ↦
                let rest : check_files lib (paths ++ cleaned ∷ []) (total + bytes) files
                    ≡ some (found, size) =
                  ground arith in
                let inside = good_path-IsInside name law (ground arith) in
                let c =
                  check_files-Checked (paths ++ cleaned ∷ []) (total + bytes) files found size law
                    (ground arith) (Distinct-snoc paths cleaned d (ground arith))
                    (All-snoc (IsInside lib.clean) paths cleaned p inside) rest in
                record {
                  names = rw (c.names, append_assoc paths (cleaned ∷ []) (map path_of files)) refl;
                  bytes = bytes + c.bytes;
                  counted = rw (decoded, c.counted) refl;
                  sum = omega (arith, c.sum);
                  fits = c.fits;
                  distinct = c.distinct;
                  inside = c.inside;
                }
          ]
        ]
      ]

  -- If path.Clean leaves components that lead up only at the beginning of a path, a job that is
  -- accepted has at most 64 files; their contents are at most 512 KiB in all; and their paths are
  -- distinct, clean, and lead neither out of the directory nor to an absolute place.
  pub validate_job_offer-IsInside :
      (now : ℕ) (m : JobOffer)
      → IsCleaner lib.clean
      → validate_job_offer lib now m ≡ none
      → (size : ℕ) × (total_size m.workspace ≡ some size)
        × (size ≤ 524288)
        × (length m.workspace ≤ 64)
        × Distinct (map path_of m.workspace)
        × All (IsInside lib.clean) (map path_of m.workspace)
  unfolding validate_job_offer checked_workspace
  validate_job_offer-IsInside now m law h = elim (Option-cases (check_files lib [] 0 m.workspace)) [
    | inl refused ↦ absurd (ground arith)
    | inr ((found, size), checked) ↦
        let c = check_files-Checked [] 0 m.workspace found size law (omega arith) tt tt checked in
        (
          size,
          rw c.counted (ground (arith, c.sum)),
          c.fits,
          ground arith,
          rw (sym c.names) c.distinct,
          rw (sym c.names) c.inside,
        )
  ]
