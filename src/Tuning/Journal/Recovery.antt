-- ===== src/Tuning/Journal/Recovery.antt =====
-- What the journal guarantees: no later start hides it, and it goes only after a restore.
use myference.Prelude.{
  String, Bool, true, false, not, ◌&&◌, Option, none, some, List, [], ◌∷◌, ◌++◌, ◌≡◌, ◌≢◌, ◌⊎◌, inl,
  inr, refl, ap, arith, str_eq, is_empty, trim_space, any, Bool-cases, if◌then◌else◌,
}
use myference.Prelude.Result.{ok}
use myference.Protocol.Envelopes.{Bytes}
use myference.Tuning.Journal.{
  RecoveryJournal, Codec, Disk, Faults, is_valid, save, load, link_file, replace_existing,
  with_stage, add_stage, complete_stage, rollback_stages, Restore, recover_loaded, after_restore,
  complete_recovery,
}

-- A journal that is on the disk stays there through every attempt to save another one, whatever
-- system calls fail, and the attempt reports an error.
pub save_never_overwrites :
    (c : Codec) (f : Faults) (j : RecoveryJournal) (b : Bytes)
    → ((save c f j (some b)).0 ≡ some b) × ((save c f j (some b)).1 ≢ ok tt)
unfolding save link_file
save_never_overwrites c f j b = (ground arith, ground arith)

-- A journal that was saved, and whose JSON is read back as it was, is the one that is loaded.
pub save-load :
    (c : Codec) (f : Faults) (j : RecoveryJournal) (disk : Disk)
    → c.decode (c.marshal j) ≡ some j
    → (save c f j disk).1 ≡ ok tt
    → load c false (save c f j disk).0 ≡ ok j
unfolding save load link_file is_valid
save-load c f j disk law h = ground (arith, law)

load_valid :
    (c : Codec) (b : Bool) (disk : Disk) (j : RecoveryJournal)
    → load c b disk ≡ ok j
    → is_valid j ≡ true
unfolding load
load_valid c b none j h = ground arith
load_valid c b (some bytes) j h = ground arith

readable :
    (c : Codec) (b : Bool) (disk : Disk) (j : RecoveryJournal)
    → load c b disk ≡ ok j
    → (b ≡ false) × (load c false disk ≡ ok j)
unfolding load
readable c true disk j h = absurd (ground arith)
readable c false disk j h = (refl, h)

rollback-append :
    (ss : List String) (s : String) → rollback_stages (ss ++ s ∷ []) ≡ s ∷ rollback_stages ss
unfolding rollback_stages
rollback-append [] s = refl
rollback-append (t ∷ ss) s = ap (λ r. r ++ t ∷ []) (rollback-append ss s)

pub stage_there :
    (c : Codec) (f : Faults) (stage : String) (disk : Disk) (j : RecoveryJournal)
    → load c f.read disk ≡ ok j
    → any (str_eq (trim_space stage)) j.applied_stages ≡ true
    → (complete_stage c f stage disk).1 ≡ ok tt
    → load c false (complete_stage c f stage disk).0 ≡ ok j
unfolding complete_stage add_stage
stage_there c f stage disk j loaded there h = elim (Bool-cases (is_empty (trim_space stage))) [
  | inl blank ↦ ground arith
  | inr named ↦ rw (named, loaded, there) (readable c f.read disk j loaded).1
]

load-replace_existing :
    (c : Codec) (f : Faults) (j : RecoveryJournal) (disk : Disk)
    → c.decode (c.marshal j) ≡ some j
    → (replace_existing c f j disk).1 ≡ ok tt
    → load c false (replace_existing c f j disk).0 ≡ ok j
unfolding replace_existing load
load-replace_existing c f j disk law h = ground (arith, law)

pub stage_new :
    (c : Codec) (f : Faults) (stage : String) (disk : Disk) (j : RecoveryJournal)
    → c.decode (c.marshal (with_stage j (trim_space stage)))
      ≡ some (with_stage j (trim_space stage))
    → load c f.read disk ≡ ok j
    → any (str_eq (trim_space stage)) j.applied_stages ≡ false
    → (complete_stage c f stage disk).1 ≡ ok tt
    → load c false (complete_stage c f stage disk).0 ≡ ok (with_stage j (trim_space stage))
unfolding complete_stage add_stage
stage_new c f stage disk j law loaded new h = elim (Bool-cases (is_empty (trim_space stage))) [
  | inl blank ↦ ground arith
  | inr named ↦
      let h' = rw (named, loaded, new) at h in
      rw (named, loaded, new)
        (load-replace_existing c f (with_stage j (trim_space stage)) disk law h')
]

abbrev pub succeeded {ℓ} : {E : Type ℓ} → Option E → Bool
succeeded none = true
succeeded (some _) = false

-- A stage that was recorded in a journal whose JSON is read back is in the journal that is loaded
-- next: it was there before, or it is the first that a rollback undoes, before all the stages
-- recorded until then.
pub complete_stage_lem :
    (c : Codec) (f : Faults) (stage : String) (disk : Disk) (j : RecoveryJournal)
    → c.decode (c.marshal (with_stage j (trim_space stage)))
      ≡ some (with_stage j (trim_space stage))
    → load c f.read disk ≡ ok j
    → (complete_stage c f stage disk).1 ≡ ok tt
    → (load c false (complete_stage c f stage disk).0 ≡ ok j)
        × (any (str_eq (trim_space stage)) j.applied_stages ≡ true)
      ⊎ (load c false (complete_stage c f stage disk).0 ≡ ok (with_stage j (trim_space stage)))
        × (rollback_stages (with_stage j (trim_space stage)).applied_stages
            ≡ trim_space stage ∷ rollback_stages j.applied_stages)
unfolding complete_stage
complete_stage_lem c f stage disk j law loaded h =
    elim (Bool-cases (any (str_eq (trim_space stage)) j.applied_stages)) [
      | inl there ↦ inl (stage_there c f stage disk j loaded there h, there)
      | inr new ↦ inr (
        stage_new c f stage disk j law loaded new h,
        rollback-append j.applied_stages (trim_space stage),
      )
    ]

after_restore_leaves :
    {H E : Type 0} (f : Faults) (disk : Disk) (o : H × Option E)
    → ((after_restore f disk o).0.0 ≡ o.0)
      × ((after_restore f disk o).0.1 ≡ (if succeeded o.1 && not f.remove then none else disk))
unfolding after_restore
after_restore_leaves f disk (h, some e) = (refl, refl)
after_restore_leaves f disk (h, none) = (ground arith, ground arith)

-- A recovery whose journal can be read calls `restore` with it; the journal goes if and only if
-- the restore succeeds and the file can be removed, and otherwise stays as it was.
pub recovery_removes :
    {H E : Type 0} (c : Codec) (f : Faults) (restore : Restore H E) (h : H) (disk : Disk)
    (j : RecoveryJournal)
    → load c f.read disk ≡ ok j
    → ((complete_recovery c f restore h disk).0.0 ≡ (restore h j).0)
      × ((complete_recovery c f restore h disk).0.1
          ≡ (if succeeded (restore h j).1 && not f.remove then none else disk))
unfolding complete_recovery
recovery_removes c f restore h disk j loaded =
    rw (loaded, recover_loaded) (after_restore_leaves f disk (restore h j))
