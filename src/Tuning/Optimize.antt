-- ===== src/Tuning/Optimize.antt =====
-- cli/internal/platform/windows/optimize.go and config.go: what a provider session tunes, and how it
-- is undone. The host and its tools are a runner; a host is a state that the runner changes.
pub mod Rollback
use myference.Prelude.{
  ℕ, String, Bool, true, false, not, ◌&&◌, ◌||◌, Option, none, some, List, [], ◌∷◌, ◌++◌, ◌==◌,
  str_eq, ltb, any, if◌then◌else◌,
}
use myference.Prelude.Decimal.{show_nat}
use myference.Prelude.Result.{Result, ok, err, ◌>>=◌, ◌>>◌, fail_if}
use myference.Tuning.Journal.{
  JournalError, RecoveryJournal, Codec, Disk, Faults, save, load, complete_stage, complete_recovery,
  with_stage, Restore, RecoveryError,
}

-- An `int` that is not positive is 0 here; every test asks for at least 1.
pub record Config : Type 0 where
  pub keep_alive : String
  pub context_length : ℕ
  pub max_loaded_models : ℕ
  pub num_parallel : ℕ
  pub flash_attention : Bool
  pub kv_cache_type : String
  pub performance_power_plan : Bool
  pub process_priority : String
  pub require_ac_power : Bool

pub data ConfigError : Type 0 where
  context_too_short no_models no_parallel unsupported_cache unsupported_priority ac_power_required :
      ConfigError

-- `Config.Validate`
unfoldable pub validate_config : Config → Result ConfigError (Unit {0})
validate_config c =
    fail_if (ltb c.context_length 512) context_too_short
    >> fail_if (ltb c.max_loaded_models 1) no_models
    >> fail_if (ltb c.num_parallel 1) no_parallel
    >> fail_if
        (not (
          str_eq c.kv_cache_type "f16"
          || str_eq c.kv_cache_type "q8_0"
          || str_eq c.kv_cache_type "q4_0"))
        unsupported_cache
    >> fail_if
        (not (
          str_eq c.process_priority "Normal"
          || str_eq c.process_priority "AboveNormal"
          || str_eq c.process_priority "High"))
        unsupported_priority

-- `ValidatePower`
unfoldable pub validate_power : Config → Bool → Bool → Result ConfigError (Unit {0})
validate_power c on_ac_power allow_battery =
    fail_if (c.require_ac_power && not on_ac_power && not allow_battery) ac_power_required

pub data OperationKind : Type 0 where
  power_plan keep_awake ollama_environment process_priority : OperationKind

pub record Operation : Type 0 where
  pub stage : String
  pub kind : OperationKind
  pub program : String
  pub args : List String
  pub environment : List (String × String)
  pub priority : String

pub record HostSnapshot : Type 0 where
  pub on_ac_power : Bool
  pub journal : RecoveryJournal

abbrev plain_operation : String → OperationKind → Operation
plain_operation stage kind = record {
  stage = stage;
  kind = kind;
  program = "";
  args = [];
  environment = [];
  priority = "";
}

bool_string : Bool → String
bool_string b = if b then "1" else "0"

-- The operations, of a configuration that passed the checks.
unfoldable pub operations : Config → List Operation
unfolding bool_string
operations c =
    (if c.performance_power_plan
      then record (plain_operation "power-plan" power_plan) {
        program = "powercfg.exe";
        args = "/setactive" ∷ "SCHEME_MIN" ∷ [];
      }
        ∷ []
      else [])
    ++ plain_operation "keep-awake" keep_awake
      ∷ record (plain_operation "ollama-environment" ollama_environment) {
        environment =
            ("OLLAMA_MAX_LOADED_MODELS", show_nat c.max_loaded_models)
            ∷ ("OLLAMA_NUM_PARALLEL", show_nat c.num_parallel)
            ∷ ("OLLAMA_FLASH_ATTENTION", bool_string c.flash_attention)
            ∷ ("OLLAMA_KV_CACHE_TYPE", c.kv_cache_type)
            ∷ [];
      }
      ∷ record (plain_operation "process-priority" process_priority) {
        priority = c.process_priority;
      }
      ∷ []

-- `PlanProviderTuning`
unfoldable pub plan : Config → Bool → HostSnapshot → Result ConfigError (List Operation)
unfolding operations validate_config validate_power
plan c allow_battery s =
    validate_config c >> validate_power c s.on_ac_power allow_battery >> ok (operations c)

-- `OptimizationRunner` on hosts `H` with errors `E`.
pub record Runner (H E : Type 0) : Type 0 where
  pub snapshot : H → Config → Result E HostSnapshot
  pub apply : H → Operation → H × Option E
  pub restore : H → RecoveryJournal → H × Option E

pub data TuningError (E : Type 0) : Type 0 where
  snapshot_error apply_error immediate_restore_error : E → TuningError E
  config_error : ConfigError → TuningError E
  save_error record_error : JournalError → TuningError E
  rollback_error : RecoveryError E → TuningError E

module _ {H E : Type 0} (r : Runner H E) (c : Codec) where
  -- The restore that follows when the stage could not be recorded.
  unfoldable pub restore_unrecorded :
      H → String → JournalError → Result JournalError RecoveryJournal → H × TuningError E
  restore_unrecorded h stage e (err _) = (h, record_error e)
  restore_unrecorded h stage e (ok j) =
      if any (str_eq stage) j.applied_stages
      then (h, record_error e)
      else (let (h', o) = r.restore h (with_stage j stage) in
          elim o [ some bad ↦ (h', immediate_restore_error bad) | none ↦ (h', record_error e) ])

  unfoldable pub record_applied :
      Faults
      → H
      → Disk
      → String
      → Disk × Result JournalError (Unit {0})
      → (H × Disk) × Option (TuningError E)
  unfolding restore_unrecorded
  record_applied f h before stage (disk, ok _) = ((h, disk), none)
  record_applied f h before stage (disk, err e) =
      let (h', bad) = restore_unrecorded h stage e (load c f.reread disk) in ((h', disk), some bad)

  -- `applyJournaledOperation`, with the faults of the calls for this stage.
  unfoldable pub apply_journaled :
      Faults → H → Disk → Operation → (H × Disk) × Option (TuningError E)
  unfolding record_applied
  apply_journaled f h disk o =
      let (h', e) = r.apply h o in
      elim e [
        | some bad ↦ ((h', disk), some (apply_error bad))
        | none ↦ record_applied f h' disk o.stage (complete_stage c f o.stage disk)
      ]

  -- The loop of `StartProviderTuning`, up to the first error.
  unfoldable pub apply_all :
      (String → Faults) → H → Disk → List Operation → (H × Disk) × Option (TuningError E)
  unfolding apply_journaled
  apply_all f h disk [] = ((h, disk), none)
  apply_all f h disk (o ∷ os) =
      let ((h', disk'), e) = apply_journaled (f o.stage) h disk o in
      let rest = apply_all f h' disk' os in
      elim e [ some bad ↦ ((h', disk'), some bad) | none ↦ rest ]

  -- The error that is returned: with the error of the rollback, if it fails.
  unfoldable pub report :
      TuningError E → (H × Disk) × Option (RecoveryError E) → (H × Disk) × Option (TuningError E)
  report bad (after, some worse) = (after, some (rollback_error worse))
  report bad (after, none) = (after, some bad)

  -- The rollback after an error.
  unfoldable pub roll_back :
      Faults → (H × Disk) × Option (TuningError E) → (H × Disk) × Option (TuningError E)
  unfolding report
  roll_back f ((h, disk), none) = ((h, disk), none)
  roll_back f ((h, disk), some bad) = report bad (complete_recovery c f r.restore h disk)

  unfoldable pub start_saved :
      (String → Faults)
      → H
      → List Operation
      → Disk × Result JournalError (Unit {0})
      → (H × Disk) × Option (TuningError E)
  unfolding roll_back apply_all
  start_saved f h os (disk, err e) = ((h, disk), some (save_error e))
  start_saved f h os (disk, ok _) = roll_back (f "recovery") (apply_all f h disk os)

  unfoldable pub start_planned :
      (String → Faults)
      → H
      → Disk
      → HostSnapshot
      → Result ConfigError (List Operation)
      → (H × Disk) × Option (TuningError E)
  unfolding start_saved
  start_planned f h disk s (err e) = ((h, disk), some (config_error e))
  start_planned f h disk s (ok os) = start_saved f h os (save c (f "save") s.journal disk)

  -- `StartProviderTuning`; `f` gives the faults of the save, of each stage and of the recovery.
  unfoldable pub start_tuning :
      (String → Faults) → Config → Bool → H → Disk → (H × Disk) × Option (TuningError E)
  unfolding plan start_planned
  start_tuning f config allow_battery h disk = elim (r.snapshot h config) [
    | err e ↦ ((h, disk), some (snapshot_error e))
    | ok s ↦ start_planned f h disk s (plan config allow_battery s)
  ]
