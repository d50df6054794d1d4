-- ===== src/Examples/Jobs.antt =====
-- A job with a workspace.
use Prim.Native.String.{String}
use myference.Prelude.{
  Bool-cases, inl, inr, sym, if◌then◌else◌, ℕ, ◌≤◌, none, some, [], ◌∷◌, ◌≡◌, refl, All, is_blank,
  trim_space,
}
use myference.Prelude.Text.{trim_left, trim_right}
use myference.Protocol.Workspace.{
  WorkspaceFile, JobOffer, WorkspaceLibrary, check_files, bad_path, nested, checked_workspace,
  validate_job_offer,
}
use myference.Protocol.Workspace.Safety.{
  components, climbs, total_size, Distinct, IsCleaner, IsInside, validate_job_offer-IsInside,
}

-- A path that leads up is cleaned to the directory itself, and any other stays as it is.
abbrev clean_path : String → String
clean_path p = if climbs p then "." else p

-- Names that are sorted already, and contents of three bytes.
abbrev plain_library : WorkspaceLibrary
plain_library = record { clean = clean_path; decoded_size = λ _. some 3; sort = λ ps. ps }

abbrev file_at : String → WorkspaceFile
file_at path = record { path = path; content_base64 = "Zm9v" }

abbrev two_files : JobOffer
two_files = record {
  request_id = "r1";
  model = "llama";
  offer_id = "o1";
  prompt = "hi";
  price_version = 1;
  maximum_spend = 10;
  maximum_output_tokens = 5;
  lease_expires_at = 100;
  workspace = file_at "a.txt" ∷ file_at "src/b.txt" ∷ [];
}

-- A file and a path below it are both accepted if another path is sorted between them.
abbrev conflicting : JobOffer
conflicting = record two_files { workspace = file_at "a" ∷ file_at "a-b" ∷ file_at "a/c" ∷ [] }

conflict_accepted : validate_job_offer plain_library 1 conflicting ≡ none
unfolding validate_job_offer check_files bad_path checked_workspace nested is_blank trim_space
    trim_left trim_right components
conflict_accepted = refl

IsCleaner-clean_path : IsCleaner clean_path
unfolding components
IsCleaner-clean_path p fixed not_up not_above = elim (Bool-cases (climbs p)) [
  | inr stays ↦ stays
  | inl up ↦ let here : "." ≡ p = rw up at fixed in rw (sym here) refl
]

validate_job_offer-IsInside_example :
    (size : ℕ) × (total_size plain_library two_files.workspace ≡ some size)
    × (size ≤ 524288)
    × (2 ≤ 64)
    × Distinct ("a.txt" ∷ "src/b.txt" ∷ [])
    × All (IsInside clean_path) ("a.txt" ∷ "src/b.txt" ∷ [])
unfolding validate_job_offer check_files bad_path checked_workspace nested is_blank trim_space
    trim_left trim_right components
validate_job_offer-IsInside_example =
    validate_job_offer-IsInside plain_library 1 two_files IsCleaner-clean_path refl
