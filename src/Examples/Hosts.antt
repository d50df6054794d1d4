-- ===== src/Examples/Hosts.antt =====
-- The tuning of a host and its journal at concrete inputs.
use myference.Prelude.Text.{trim_space, trim_left, trim_right}
use myference.Prelude.{
  ℕ, zero, suc, ◌≡◌, refl, sym, arith, is_blank, String, Bool, true, false, none, some, List, [],
  ◌∷◌, if◌then◌else◌, str_eq, length, take,
}
use myference.Prelude.Result.{Result, ok}
use myference.Tuning.Journal.{
  RecoveryJournal, Codec, no_faults, save, is_valid, link_file, load, add_stage, replace_existing,
  complete_stage, complete_recovery, recover_loaded, after_restore,
}
use myference.Tuning.Optimize.{
  Config, HostSnapshot, Runner, operations, start_tuning, plan, validate_config, validate_power,
  start_planned, start_saved, apply_all, apply_journaled, record_applied, roll_back, report,
}
use myference.Tuning.Optimize.Rollback.{
  ReadsBack, record_stages, stages_of, Outcome, start_tuning-Outcome,
}

abbrev plain_journal : List String → RecoveryJournal
plain_journal stages = record {
  session_kind = "provider";
  owner_pid = 7;
  active_power_scheme = "balanced";
  ollama = record { executable = "ollama.exe"; priority = "Normal"; environment = [] };
  applied_stages = stages;
}

abbrev one_journal : RecoveryJournal
one_journal = plain_journal []

-- A host is the list of the stages that were applied to it, the last one first; its journals are
-- restored by undoing them all. The priority cannot be changed.
abbrev recording_runner : Runner (List String) Bool
recording_runner = record {
  snapshot = λ h c. ok (record { on_ac_power = true; journal = one_journal });
  apply = λ h o. if str_eq o.stage "process-priority" then (h, some true) else (o.stage ∷ h, none);
  restore = λ h j. ([], none);
}

abbrev default_config : Config
default_config = record {
  keep_alive = "-1";
  context_length = 4096;
  max_loaded_models = 1;
  num_parallel = 1;
  flash_attention = true;
  kv_cache_type = "q8_0";
  performance_power_plan = true;
  process_priority = "High";
  require_ac_power = true;
}

abbrev known_stages : List String
known_stages = "power-plan" ∷ "keep-awake" ∷ "ollama-environment" ∷ "process-priority" ∷ []

-- A file holds how many of the known stages were applied.
abbrev counting_codec : Codec
counting_codec = record {
  marshal = λ j. length j.applied_stages ∷ [];
  decode = λ b. elim b [ [] ↦ none | n ∷ _ ↦ some (plain_journal (take n known_stages)) ];
}

-- Journals of the known stages are read back.
counts_back :
    (n : ℕ)
    → ReadsBack counting_codec
        (record_stages one_journal (take n (stages_of (operations default_config))))
unfolding operations trim_space trim_left trim_right
counts_back zero = refl
counts_back (suc zero) = refl
counts_back (suc (suc zero)) = refl
counts_back (suc (suc (suc zero))) = refl
counts_back (suc (suc (suc (suc zero)))) = refl
counts_back (suc (suc (suc (suc (suc n))))) = refl

same_snapshot : {s t : HostSnapshot} → ◌≡◌ {A = Result Bool HostSnapshot} (ok s) (ok t) → s ≡ t
same_snapshot h = ground arith

reads_back :
    (s : HostSnapshot)
    → recording_runner.snapshot [] default_config ≡ ok s
    → (n : ℕ)
    → ReadsBack counting_codec
        (record_stages s.journal (take n (stages_of (operations default_config))))
reads_back s taken n = rw (sym (same_snapshot taken)) (counts_back n)

-- The last stage fails, and the host is restored.
is_restored :
    (start_tuning recording_runner counting_codec (λ _. no_faults) default_config false [] none).0
    ≡ ([], none)
unfolding start_tuning plan validate_config validate_power operations start_planned start_saved save
    is_valid link_file apply_all apply_journaled complete_stage load add_stage replace_existing
    record_applied roll_back report complete_recovery recover_loaded after_restore trim_space
    trim_left trim_right is_blank
is_restored = refl

start_tuning-Outcome_example :
    Outcome recording_runner counting_codec
      (λ _. no_faults)
      default_config
      []
      (start_tuning recording_runner counting_codec (λ _. no_faults) default_config false [] none)
start_tuning-Outcome_example =
    start_tuning-Outcome recording_runner counting_codec (λ _. no_faults) default_config []
      reads_back false none
