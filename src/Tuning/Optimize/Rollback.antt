-- ===== src/Tuning/Optimize/Rollback.antt =====
-- What is on the disk and on the host when a session has started, and when something failed: the
-- journal says what was applied, until a restore with it succeeds.
use myference.Prelude.{
  ℕ, suc, String, Bool, true, false, Option, none, some, List, [], ◌∷◌, ◌≡◌, ◌≢◌, ◌⊎◌, inl, inr,
  refl, sym, arith, str_eq, any, take, Bool-cases, Option-cases, is_empty, trim_space,
  if◌then◌else◌,
}
use myference.Prelude.Result.{Result, ok, err, Result-cases}
use myference.Tuning.Journal.{
  JournalError, RecoveryJournal, Codec, Disk, Faults, save, load, link_file, replace_existing,
  with_stage, add_stage, complete_stage, complete_recovery, recover_loaded, after_restore,
  RecoveryError,
}
use myference.Tuning.Journal.Recovery.{stage_there, stage_new, save-load}
use myference.Tuning.Optimize.{
  Config, HostSnapshot, Operation, Runner, TuningError, operations, plan, record_applied,
  apply_journaled, apply_all, roll_back, report, start_saved, start_planned, start_tuning,
}

-- A journal with a stage that was recorded, once.
abbrev pub record_stage : RecoveryJournal → String → RecoveryJournal
record_stage j stage = if any (str_eq stage) j.applied_stages then j else with_stage j stage

abbrev pub record_stages : RecoveryJournal → List String → RecoveryJournal
record_stages j [] = j
record_stages j (stage ∷ stages) = record_stages (record_stage j (trim_space stage)) stages

abbrev pub stages_of : List Operation → List String
stages_of [] = []
stages_of (o ∷ os) = o.stage ∷ stages_of os

module _ (c : Codec) where
  abbrev pub ReadsBack : RecoveryJournal → Type 0
  ReadsBack j = c.decode (c.marshal j) ≡ some j

  -- The journal on the disk is `j`.
  abbrev pub Holds : Disk → RecoveryJournal → Type 0
  Holds disk j = load c false disk ≡ ok j

  failed_add :
      (f : Faults) (stage : String) (disk : Disk) (l : Result JournalError RecoveryJournal)
      (e : JournalError)
      → (add_stage c f stage disk l).1 ≡ err e
      → (add_stage c f stage disk l).0 ≡ disk
  unfolding add_stage replace_existing
  failed_add f stage disk (err bad) e h = refl
  failed_add f stage disk (ok j) e h = ground arith

  -- A stage that could not be recorded leaves the disk as it was.
  failed_complete :
      (f : Faults) (stage : String) (disk : Disk) (e : JournalError)
      → (complete_stage c f stage disk).1 ≡ err e
      → (complete_stage c f stage disk).0 ≡ disk
  unfolding complete_stage
  failed_complete f stage disk e h = elim (Bool-cases (is_empty (trim_space stage))) [
    | inl blank ↦ rw blank refl
    | inr named ↦
        rw named (failed_add f (trim_space stage) disk (load c f.read disk) e (rw named at h))
  ]

  unread_fails :
      (f : Faults) (stage : String) (disk : Disk)
      → f.read ≡ true
      → (complete_stage c f stage disk).1 ≢ ok tt
  unfolding complete_stage add_stage load
  unread_fails f stage disk h e = ground (arith, h, e)

  -- A stage that was recorded is in the journal.
  completed-Holds :
      (f : Faults) (stage : String) (disk : Disk) (j : RecoveryJournal)
      → Holds disk j
      → ReadsBack (record_stage j (trim_space stage))
      → (complete_stage c f stage disk).1 ≡ ok tt
      → Holds (complete_stage c f stage disk).0 (record_stage j (trim_space stage))
  completed-Holds f stage disk j there law done = elim (Bool-cases f.read) [
    | inl faulty ↦ absurd (unread_fails f stage disk faulty done)
    | inr fine ↦
        let loaded : load c f.read disk ≡ ok j = rw fine there in
        elim (Bool-cases (any (str_eq (trim_space stage)) j.applied_stages)) [
          | inl old ↦ rw old (stage_there c f stage disk j loaded old done)
          | inr new ↦ rw new (stage_new c f stage disk j (rw new at law) loaded new done)
        ]
  ]

module _ {H E : Type 0} (r : Runner H E) (c : Codec) where
  -- The host and the disk after the operations were applied, up to the first that failed.
  abbrev pub applied :
      (String → Faults) → Config → H → HostSnapshot → (H × Disk) × Option (TuningError E)
  applied f config h s = apply_all r c f h (some (c.marshal s.journal)) (operations config)

  -- How a recovery ends that finds host `h0` and journal `j`: the host is restored with the journal
  -- and the journal is gone; or the journal stays, because the restore failed, or the file could not be
  -- removed after it, or not be read before it, with the host as it was.
  pub data Undone (f : Faults) (h0 : H) (j : RecoveryJournal) (o : H × Disk) : Type 0 where
    restored : r.restore h0 j ≡ (o.0, none) → o.1 ≡ none → Undone f h0 j o
    failed : (e : E) → r.restore h0 j ≡ (o.0, some e) → Holds c o.1 j → Undone f h0 j o
    stuck : f.remove ≡ true → r.restore h0 j ≡ (o.0, none) → Holds c o.1 j → Undone f h0 j o
    unread : f.read ≡ true → o.0 ≡ h0 → Holds c o.1 j → Undone f h0 j o

  -- The ways in which an attempt to tune host `h` ends.
  pub data Outcome (f : String → Faults) (config : Config) (h : H)
      (o : (H × Disk) × Option (TuningError E)) : Type 0 where
    untouched : o.0.0 ≡ h → o.1 ≢ none → Outcome f config h o
    tuned :
        (s : HostSnapshot)
        → r.snapshot h config ≡ ok s
        → o.1 ≡ none
        → o.0.0 ≡ (applied f config h s).0.0
        → Holds c o.0.1 (record_stages s.journal (stages_of (operations config)))
        → Outcome f config h o
    undone :
        (s : HostSnapshot) (n : ℕ)
        → r.snapshot h config ≡ ok s
        → o.1 ≢ none
        → Undone
            (f "recovery")
            (applied f config h s).0.0
            (record_stages s.journal (take n (stages_of (operations config))))
            o.0
        → Outcome f config h o

  -- What one operation leaves: its stage in the journal, or an error and the disk as it was.
  abbrev Applied : RecoveryJournal → String → Disk → (H × Disk) × Option (TuningError E) → Type 0
  Applied j stage disk x =
      ((x.1 ≡ none) × Holds c x.0.1 (record_stage j (trim_space stage)))
      ⊎ ((x.1 ≢ none) × (x.0.1 ≡ disk))

  recorded-Applied :
      (f : Faults) (h : H) (disk : Disk) (stage : String) (j : RecoveryJournal)
      (o : Disk × Result JournalError (Unit {0}))
      → (o.1 ≡ ok tt → Holds c o.0 (record_stage j (trim_space stage)))
      → ((e : JournalError) → o.1 ≡ err e → o.0 ≡ disk)
      → Applied j stage disk (record_applied r c f h disk stage o)
  unfolding record_applied
  recorded-Applied f h disk stage j (d, ok _) done kept = inl (refl, done refl)
  recorded-Applied f h disk stage j (d, err e) done kept = inr (λ x. cc, kept e refl)

  apply-Applied :
      (f : Faults) (h : H) (disk : Disk) (o : Operation) (j : RecoveryJournal)
      → Holds c disk j
      → ReadsBack c (record_stage j (trim_space o.stage))
      → Applied j o.stage disk (apply_journaled r c f h disk o)
  unfolding apply_journaled
  apply-Applied f h disk o j there law = elim (Option-cases (r.apply h o).1) [
    | inr (e, bad) ↦ rw (bad, apply_journaled) (inr (λ x. cc, refl))
    | inl fine ↦
        rw (fine, apply_journaled)
          (recorded-Applied f (r.apply h o).0 disk o.stage j (complete_stage c f o.stage disk)
            (λ done. completed-Holds c f o.stage disk j there law done)
            (λ e bad. failed_complete c f o.stage disk e bad))
  ]

  -- What the operations leave: all their stages in the journal, or an error and the first ones.
  abbrev AllApplied :
      RecoveryJournal → List Operation → (H × Disk) × Option (TuningError E) → Type 0
  AllApplied j os x =
      ((x.1 ≡ none) × Holds c x.0.1 (record_stages j (stages_of os)))
      ⊎ ((x.1 ≢ none) × (n : ℕ) × Holds c x.0.1 (record_stages j (take n (stages_of os))))

  more :
      (j : RecoveryJournal) (o : Operation) (os : List Operation)
      (x : (H × Disk) × Option (TuningError E))
      → AllApplied (record_stage j (trim_space o.stage)) os x
      → AllApplied j (o ∷ os) x
  more j o os x (inl all) = inl all
  more j o os x (inr (bad, n, first)) = inr (bad, suc n, first)

  apply_all-Applied :
      (f : String → Faults) (h : H) (disk : Disk) (os : List Operation) (j : RecoveryJournal)
      → ((n : ℕ) → ReadsBack c (record_stages j (take n (stages_of os))))
      → Holds c disk j
      → AllApplied j os (apply_all r c f h disk os)
  unfolding apply_all
  apply_all-Applied f h disk [] j law there = inl (refl, there)
  apply_all-Applied f h disk (o ∷ os) j law there =
      let step = apply_journaled r c (f o.stage) h disk o in
      elim (apply-Applied (f o.stage) h disk o j there (law 1)) [
        | inl (fine, next) ↦
            rw (fine, apply_all)
              (more j o os (apply_all r c f step.0.0 step.0.1 os) (
                apply_all-Applied f step.0.0 step.0.1 os (record_stage j (trim_space o.stage))
                  (λ n. law (suc n)) next))
        | inr (bad, same) ↦ elim (Option-cases step.1) [
          | inl fine ↦ absurd (bad fine)
          | inr (e, is_bad) ↦ rw (is_bad, apply_all) (inr (λ x. cc, 0, rw same there))
        ]
      ]

  after-Undone :
      (f : Faults) (h0 : H) (disk : Disk) (j : RecoveryJournal) (o : H × Option E)
      → Holds c disk j
      → r.restore h0 j ≡ o
      → Undone f h0 j (after_restore f disk o).0
  unfolding after_restore
  after-Undone f h0 disk j (h, some e) there ran = Undone.failed e ran there
  after-Undone f h0 disk j (h, none) there ran = elim (Bool-cases f.remove) [
    | inl left ↦ simp left (Undone.stuck left ran there)
    | inr gone ↦ simp gone (Undone.restored ran refl)
  ]

  recovered-Undone :
      (f : Faults) (h0 : H) (disk : Disk) (j : RecoveryJournal)
      → Holds c disk j
      → Undone f h0 j (complete_recovery c f r.restore h0 disk).0
  unfolding complete_recovery load recover_loaded
  recovered-Undone f h0 disk j there = elim (Bool-cases f.read) [
    | inl faulty ↦ simp faulty (Undone.unread faulty refl there)
    | inr fine ↦ simp (fine, there) (after-Undone f h0 disk j (r.restore h0 j) there refl)
  ]

  reports :
      (bad : TuningError E) (o : (H × Disk) × Option (RecoveryError E))
      → ((report r c bad o).0 ≡ o.0) × ((report r c bad o).1 ≢ none)
  unfolding report
  reports bad (after, some worse) = (refl, λ e. cc)
  reports bad (after, none) = (refl, λ e. cc)

  rolled_back :
      (f : String → Faults) (config : Config) (h : H) (s : HostSnapshot)
      (x : (H × Disk) × Option (TuningError E))
      → r.snapshot h config ≡ ok s
      → x.0.0 ≡ (applied f config h s).0.0
      → AllApplied s.journal (operations config) x
      → Outcome f config h (roll_back r c (f "recovery") x)
  unfolding roll_back
  rolled_back f config h s ((h', disk), none) taken host (inl (fine, all)) =
      Outcome.tuned s taken refl host all
  rolled_back f config h s ((h', disk), none) taken host (inr (bad, n, first)) = absurd (bad refl)
  rolled_back f config h s ((h', disk), some bad) taken host (inl (fine, all)) = cc
  rolled_back f config h s ((h', disk), some bad) taken host (inr (_, n, first)) =
      let j = record_stages s.journal (take n (stages_of (operations config))) in
      let (same, reported) = reports bad (complete_recovery c (f "recovery") r.restore h' disk) in
      Outcome.undone s n taken reported
        (rw (same, sym host) (recovered-Undone (f "recovery") h' disk j first))

  module _ (f : String → Faults) (config : Config) (h : H)
      (reads : (s : HostSnapshot)
        → r.snapshot h config ≡ ok s
        → (n : ℕ)
        → ReadsBack c (record_stages s.journal (take n (stages_of (operations config))))) where
    saved-Outcome :
        (s : HostSnapshot) (o : Disk × Result JournalError (Unit {0}))
        → r.snapshot h config ≡ ok s
        → (o.1 ≡ ok tt → (o.0 ≡ some (c.marshal s.journal)) × Holds c o.0 s.journal)
        → Outcome f config h (start_saved r c f h (operations config) o)
    unfolding start_saved
    saved-Outcome s (disk, err e) taken saved = Outcome.untouched refl (λ x. cc)
    saved-Outcome s (disk, ok _) taken saved =
        let (there, holds) = saved refl in
        rw there (
          rolled_back f config h s (applied f config h s) taken refl (
            apply_all-Applied f h (some (c.marshal s.journal)) (operations config) s.journal
              (reads s taken) (rw there at holds)))

    written :
        (faults : Faults) (j : RecoveryJournal) (disk : Disk)
        → (save c faults j disk).1 ≡ ok tt
        → (save c faults j disk).0 ≡ some (c.marshal j)
    unfolding save link_file
    written faults j disk h = ground arith

    planned-Outcome :
        (s : HostSnapshot) (disk : Disk) (allow_battery : Bool)
        → r.snapshot h config ≡ ok s
        → Outcome f config h (start_planned r c f h disk s (plan config allow_battery s))
    unfolding start_planned plan
    planned-Outcome s disk allow_battery taken = elim (Result-cases (plan config allow_battery s)) [
      | inr (e, bad) ↦ rw (bad, start_planned) (Outcome.untouched refl (λ x. cc))
      | inl (os, fine) ↦
          let all : os ≡ operations config = ground arith in
          rw (fine, start_planned, all)
            (saved-Outcome s (save c (f "save") s.journal disk) taken (λ done. (
              written (f "save") s.journal disk done,
              save-load c (f "save") s.journal disk (reads s taken 0) done,
            )))
    ]

    -- How an attempt to tune a host ends, whichever calls of the system, of the tools or of a restore
    -- fail on the way, if the journals that it writes are read back from their JSON. The host is as it
    -- was and an error is reported. Or no error is, and the journal on the disk is that of the snapshot
    -- with the stages of all operations. Or an error is reported, and the host was given to a restore
    -- with the journal of the stages that were recorded: the restore succeeded and the journal is gone,
    -- or that journal is still on the disk, because the restore failed, or the file could not be removed,
    -- or because it could not be read, and then no restore was made.
    pub start_tuning-Outcome :
        (allow_battery : Bool) (disk : Disk)
        → Outcome f config h (start_tuning r c f config allow_battery h disk)
    unfolding start_tuning
    start_tuning-Outcome allow_battery disk = elim (Result-cases (r.snapshot h config)) [
      | inr (e, bad) ↦ rw (bad, start_tuning) (Outcome.untouched refl (λ x. cc))
      | inl (s, fine) ↦ rw (fine, start_tuning) (planned-Outcome s disk allow_battery fine)
    ]
