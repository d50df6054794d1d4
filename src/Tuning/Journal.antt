-- ===== src/Tuning/Journal.antt =====
-- cli/internal/platform/windows/journal.go: the recovery journal, which says what to put back.
-- The file system is the content of the journal's file, if there is one. An operation takes the
-- faults of the system calls it makes, so that every error path is a value.
pub mod Recovery
use mathlib.Core.Option
use myference.Prelude.{
  ℕ, String, Bool, true, false, not, ◌||◌, Option, none, some, List, [], ◌∷◌, ◌++◌, ◌==◌, str_eq,
  is_blank, is_empty, trim_space, any, if◌then◌else◌,
}
use myference.Prelude.Result.{Result, ok, err, ◌>>=◌, ◌>>◌, fail_if}
use myference.Protocol.Envelopes.{Bytes}

pub data JournalError : Type 0 where
  active_recovery_journal invalid_journal make_directory inspect_journal write_temporary
        commit_journal not_exist read_journal decode_journal stage_required replace_journal
        remove_journal callback_required :
      JournalError

pub record OllamaProcessSettings : Type 0 where
  pub executable : String
  pub priority : String
  pub environment : List (String × Option String)

pub record RecoveryJournal : Type 0 where
  pub session_kind : String
  pub owner_pid : ℕ
  pub active_power_scheme : String
  pub ollama : OllamaProcessSettings
  pub applied_stages : List String

-- `encoding/json` on journals; `decode` fails on trailing data too.
pub record Codec : Type 0 where
  pub marshal : RecoveryJournal → Bytes
  pub decode : Bytes → Option RecoveryJournal

abbrev pub Disk : Type 0
Disk = Option Bytes

-- The system calls that fail, and what another process puts at the journal's path just before the
-- link is made, if it does. `read` is the opening or reading of the journal, and `reread` that of the
-- same call after it failed to record a stage.
pub record Faults : Type 0 where
  pub mkdir : Bool
  pub inspect : Bool
  pub temporary : Bool
  pub link : Bool
  pub replace : Bool
  pub remove : Bool
  pub read : Bool
  pub reread : Bool
  pub raced : Option Bytes

abbrev pub no_faults : Faults
no_faults = record {
  mkdir = false;
  inspect = false;
  temporary = false;
  link = false;
  replace = false;
  remove = false;
  read = false;
  reread = false;
  raced = none;
}

-- `validate`: a process id that is not positive is 0 here.
unfoldable pub is_valid : RecoveryJournal → Bool
is_valid j =
    not
      (not (str_eq j.session_kind "provider") || j.owner_pid == 0 || is_blank j.active_power_scheme)

abbrev exists_file : Disk → Bool
exists_file none = false
exists_file (some _) = true

-- `os.Link(temporary, path)` and what follows it: the link is not made over a file.
unfoldable pub link_file : Faults → Bytes → Disk → Disk × Result JournalError (Unit {0})
link_file f payload (some b) = (some b, err active_recovery_journal)
link_file f payload none = if f.link then (none, err commit_journal) else (some payload, ok tt)

-- What another process did just before.
abbrev arrive : Option Bytes → Disk → Disk
arrive none disk = disk
arrive (some b) disk = some b

-- `Save`
unfoldable pub save :
    Codec → Faults → RecoveryJournal → Disk → Disk × Result JournalError (Unit {0})
unfolding is_valid link_file
save c f journal disk =
    if not (is_valid journal)
    then (disk, err invalid_journal)
    else if f.mkdir
    then (disk, err make_directory)
    else if f.inspect
    then (disk, err inspect_journal)
    else if exists_file disk
    then (disk, err active_recovery_journal)
    else if f.temporary
    then (disk, err write_temporary)
    else link_file f (c.marshal journal) (arrive f.raced disk)

abbrev validated : RecoveryJournal → Result JournalError RecoveryJournal
validated journal = if is_valid journal then ok journal else err invalid_journal

abbrev decoded : Option RecoveryJournal → Result JournalError RecoveryJournal
decoded none = err decode_journal
decoded (some journal) = validated journal

abbrev load_file : Codec → Disk → Result JournalError RecoveryJournal
load_file c none = err not_exist
load_file c (some b) = decoded (c.decode b)

-- `Load`, and whether the file cannot be opened or read, for another reason than that it is not there.
unfoldable pub load : Codec → Bool → Disk → Result JournalError RecoveryJournal
unfolding is_valid
load c unreadable disk = if unreadable then err read_journal else load_file c disk

-- `replaceExisting`
unfoldable pub replace_existing :
    Codec → Faults → RecoveryJournal → Disk → Disk × Result JournalError (Unit {0})
unfolding is_valid
replace_existing c f journal disk =
    if not (is_valid journal)
    then (disk, err invalid_journal)
    else if f.temporary
    then (disk, err write_temporary)
    else if f.replace
    then (disk, err replace_journal)
    else (some (c.marshal journal), ok tt)

abbrev pub with_stage : RecoveryJournal → String → RecoveryJournal
with_stage j stage = record j { applied_stages = j.applied_stages ++ stage ∷ [] }

unfoldable pub add_stage :
    Codec
    → Faults
    → String
    → Disk
    → Result JournalError RecoveryJournal
    → Disk × Result JournalError (Unit {0})
unfolding replace_existing
add_stage c f stage disk (err e) = (disk, err e)
add_stage c f stage disk (ok j) =
    if any (str_eq stage) j.applied_stages
    then (disk, ok tt)
    else replace_existing c f (with_stage j stage) disk

-- `CompleteStage`
unfoldable pub complete_stage :
    Codec → Faults → String → Disk → Disk × Result JournalError (Unit {0})
unfolding load add_stage
complete_stage c f raw disk =
    let stage = trim_space raw in
    if is_empty stage
    then (disk, err stage_required)
    else add_stage c f stage disk (load c f.read disk)

-- `RollbackStages`
unfoldable pub rollback_stages : List String → List String
rollback_stages [] = []
rollback_stages (s ∷ ss) = rollback_stages ss ++ s ∷ []

-- What `restore` says of a journal: the new state of the host, and the error if it fails.
abbrev pub Restore : Type 0 → Type 0 → Type 0
Restore H E = H → RecoveryJournal → H × Option E

pub data RecoveryError (E : Type 0) : Type 0 where
  journal_error : JournalError → RecoveryError E
  restore_error : E → RecoveryError E

unfoldable pub after_restore :
    {H E : Type 0} → Faults → Disk → H × Option E → (H × Disk) × Option (RecoveryError E)
after_restore f disk (h, some e) = ((h, disk), some (restore_error e))
after_restore f disk (h, none) =
    if f.remove then ((h, disk), some (journal_error remove_journal)) else ((h, none), none)

unfoldable pub recover_loaded :
    {H E : Type 0}
    → Faults
    → Restore H E
    → H
    → Disk
    → Result JournalError RecoveryJournal
    → (H × Disk) × Option (RecoveryError E)
unfolding after_restore
recover_loaded f restore h disk (ok j) = after_restore f disk (restore h j)
recover_loaded f restore h disk (err not_exist) = ((h, disk), none)
recover_loaded f restore h disk (err e) = ((h, disk), some (journal_error e))

-- `CompleteRecovery`, with a callback that is not nil.
unfoldable pub complete_recovery :
    {H E : Type 0} → Codec → Faults → Restore H E → H → Disk → (H × Disk) × Option (RecoveryError E)
unfolding load recover_loaded
complete_recovery c f restore h disk = recover_loaded f restore h disk (load c f.read disk)
