-- ===== src/Fsck/Safe.antt =====
-- What a repair (crates/modeld-core/src/fsck.rs) leaves alone, whatever calls fail.
use model_id.Base.{
  ℕ, zero, suc, ◌≡◌, ◌≢◌, refl, subst, Bool, true, false, Option, some, List, [], ◌∷◌, ◌++◌, All,
  All-mono, All-append, none, list_eq, nat_eq, ==_refl, arith, if◌then◌else◌,
}
use model_id.Base.Text.{Text}
use model_id.Base.Dict.{lookup}
use model_id.Hash.{Blake3Hash}
use model_id.Db.{Database}
use model_id.Cas
use model_id.Cas.{CasStore}
use model_id.Sys.{FilePath, Fs, Node, file, World, M, pure, gets}
use model_id.Sys.Files.{parent, is_under, exists}
use model_id.Sys.Tables.{query}
use model_id.Db.Models.{list_models}
use model_id.Db.Aliases.{list_all_aliases}
use model_id.Fsck.{known_hashes}
use model_id.Sys.Walk.{
  remove_dir, is_dir, deepest, is_under-parent, remove_file-Keeps, remove_dir-Holds, entries_of,
  entries-Ends, read_dir-Keeps, Keeps-knowing,
}
use model_id.Sys.Keeps.{Keeps, Holds, Keeps-bind, Keeps-pure, Keeps-gets, Keeps-try, Keeps-if}
use model_id.Sys.Apart.{execute-Keeps_files}
use model_id.Sys.Results.{Ends, Ends-pure, Ends-bind, any_end, Ends-mono, Ends-and}
use model_id.Fsck.Verify.{
  OrphanRecord, VerifyReport, staging_root, has_part_extension, collect_entry, collect_entries,
  collect_step, collect_within, collect_part_files, residue, run_verify, verify_models,
  empty_report, orphan_records,
}
use model_id.Fsck.Repair.{
  RepairResult, remove_records, remove_residue, remove_below, remove_entries, remove_within,
  remove_empty_dirs, run_repair,
}
use model_id.Fsck.Reads.{run_verify-Keeps}

is_under_refl : (p : FilePath) → is_under p p ≡ true
unfolding is_under
is_under_refl [] = refl
is_under_refl (c ∷ p) = ground (arith, ==_refl c, is_under_refl p)

-- A path below the directory of the stagings whose name ends in `.part`.
abbrev pub IsResidue : FilePath → FilePath → Type 0
IsResidue store p = (is_under (staging_root store) p ≡ true) × (has_part_extension p ≡ true)

module _ (store : FilePath) where
  abbrev IsStaging : FilePath → Type 0
  IsStaging p = is_under (staging_root store) p ≡ true

  below :
      (dir : FilePath) (ps : List FilePath)
      → IsStaging dir
      → All (λ q. parent q ≡ some dir) ps
      → All IsStaging ps
  below dir ps h = All-mono (λ q e. is_under-parent (staging_root store) dir q e h) ps

  push_part :
      (p : FilePath) (out : List FilePath) (b : Bool)
      → IsStaging p
      → has_part_extension p ≡ b
      → All (IsResidue store) out
      → All (IsResidue store) (if b then out ++ p ∷ [] else out)
  push_part p out true h e k = All-append (IsResidue store) out (p ∷ []) k ((h, e), tt)
  push_part p out false h e k = k

  -- What is collected is residue.
  abbrev Collects : (FilePath → List FilePath → M (List FilePath)) → Type 0
  Collects collect =
      (p : FilePath) (out : List FilePath) (w : World)
      → IsStaging p
      → All (IsResidue store) out
      → Ends (λ o _. All (IsResidue store) o) (λ _. Unit {0}) (collect p out w)

  module _ (collect : FilePath → List FilePath → M (List FilePath)) (h : Collects collect) where
    collect_entry-Residue :
        (b : Bool) (p : FilePath) (out : List FilePath) (w : World)
        → IsStaging p
        → All (IsResidue store) out
        → Ends (λ o _. All (IsResidue store) o) (λ _. Unit {0}) (collect_entry collect b p out w)
    collect_entry-Residue true p out w s k = h p out w s k
    collect_entry-Residue false p out w s k =
        Ends-pure _ w (push_part p out (has_part_extension p) s refl k)

    collect_entries-Residue :
        (ps out : List FilePath) (w : World)
        → All IsStaging ps
        → All (IsResidue store) out
        → Ends (λ o _. All (IsResidue store) o) (λ _. Unit {0}) (collect_entries collect ps out w)
    unfolding collect_entries
    collect_entries-Residue [] out w s k = Ends-pure out w k
    collect_entries-Residue (p ∷ ps) out w (s, ss) k =
        Ends-bind _ _ w (any_end (gets (is_dir p)) w)
          (λ b v _.
            Ends-bind _ _ v (collect_entry-Residue b p out v s k)
              (λ out' u k'. collect_entries-Residue ps out' u ss k') (λ u x. x))
          (λ v x. x)

  collect_within-Residue : (n : ℕ) → Collects (collect_within n)
  unfolding collect_within collect_step
  collect_within-Residue zero p out w s k = Ends-pure out w k
  collect_within-Residue (suc n) p out w s k =
      Ends-bind {Bad = λ _. Unit {0}} _ _ w (entries-Ends p w)
        (λ r v all_below.
          collect_entries-Residue (collect_within n) (collect_within-Residue n) (entries_of r) out v
            (below p (entries_of r) s all_below) k)
        (λ v x. x)

  residue-Residue :
      (b : Bool) (w : World)
      → Ends (λ o _. All (IsResidue store) o) (λ _. Unit {0}) (residue store b w)
  unfolding collect_part_files
  residue-Residue false w = Ends-pure [] w tt
  residue-Residue true w =
      Ends-bind _ _ w (any_end (gets (λ u. deepest u.fs)) w)
        (λ n v _. collect_within-Residue (suc n) (staging_root store) [] v (is_under_refl _) tt)
        (λ v x. x)

-- What the removal of empty directories keeps.
module _ {P : Fs → Database → Type 0} (store : FilePath)
    (dirs : (p : FilePath) → is_under (staging_root store) p ≡ true → Keeps P (remove_dir p)) where
  module _ (recur : FilePath → M (Unit {0}))
      (h : (p : FilePath) → IsStaging store p → Keeps P (recur p)) where
    remove_below-Keeps :
        (b : Bool) (p : FilePath) → IsStaging store p → Keeps P (remove_below recur b p)
    remove_below-Keeps false p s = Keeps-pure tt
    remove_below-Keeps true p s =
        Keeps-bind _ _ (h p s) λ _. Keeps-bind _ _ (Keeps-try _ (dirs p s)) λ _. Keeps-pure tt

    remove_entries-Keeps :
        (ps : List FilePath) → All (IsStaging store) ps → Keeps P (remove_entries recur ps)
    unfolding remove_entries
    remove_entries-Keeps [] _ = Keeps-pure tt
    remove_entries-Keeps (p ∷ ps) (s, ss) =
        Keeps-bind _ _ (Keeps-gets _)
          λ b. Keeps-bind _ _ (remove_below-Keeps b p s) λ _. remove_entries-Keeps ps ss

  remove_within-Keeps : (n : ℕ) (p : FilePath) → IsStaging store p → Keeps P (remove_within n p)
  unfolding remove_within
  remove_within-Keeps zero p s = Keeps-pure tt
  remove_within-Keeps (suc n) p s =
      Keeps-knowing _ _ (Keeps-try _ (read_dir-Keeps p)) (λ w. entries-Ends p w)
        λ r all_below.
          remove_entries-Keeps (remove_within n) (remove_within-Keeps n) (entries_of r)
            (below store p (entries_of r) s all_below)

  pub remove_empty_dirs-Keeps :
      (b : Bool) → Keeps P (if b then remove_empty_dirs (staging_root store) else pure tt)
  unfolding remove_empty_dirs
  remove_empty_dirs-Keeps b =
      Keeps-if b _ _
        (λ _.
          Keeps-bind _ _ (Keeps-gets _)
            λ n. remove_within-Keeps (suc n) (staging_root store) (is_under_refl _))
        (λ _. Keeps-pure tt)

-- What a repair keeps of the files.
module _ (store : FilePath) (Q : Option Node → Type 0) (q : FilePath)
    (no_residue : (p : FilePath) → IsResidue store p → p ≢ q)
    (dirs : (p : FilePath)
      → is_under (staging_root store) p ≡ true
      → Keeps (λ fs _. Q (lookup q fs)) (remove_dir p)) where
  abbrev Kept : Fs → Database → Type 0
  Kept fs _ = Q (lookup q fs)

  remove_records-Kept :
      (os : List OrphanRecord) (r : RepairResult) → Keeps Kept (remove_records os r)
  unfolding remove_records
  remove_records-Kept [] r = Keeps-pure r
  remove_records-Kept (o ∷ os) r =
      Keeps-bind _ _ (Keeps-try _ (execute-Keeps_files _)) λ d. remove_records-Kept os _

  remove_residue-Kept :
      (ps : List FilePath) (r : RepairResult)
      → All (IsResidue store) ps
      → Keeps Kept (remove_residue ps r)
  unfolding remove_residue
  remove_residue-Kept [] r _ = Keeps-pure r
  remove_residue-Kept (p ∷ ps) r (h, hs) =
      Keeps-bind _ _ (Keeps-try _ (remove_file-Keeps Q p q (no_residue p h)))
        λ d. remove_residue-Kept ps _ hs

  pub run_repair-Kept :
      (report : VerifyReport)
      → All (IsResidue store) report.staging_residue
      → Keeps Kept (run_repair store report)
  unfolding run_repair
  run_repair-Kept report h = Keeps-bind _ _ (remove_records-Kept _ _) λ r.
      Keeps-bind _ _ (remove_residue-Kept _ r h) λ r'.
        Keeps-bind _ _ (Keeps-gets _)
          λ b. Keeps-bind _ _ (remove_empty_dirs-Keeps store dirs b) λ _. Keeps-pure r'

pub run_verify-Residue :
    (blake3 : Text → Blake3Hash) (store : FilePath) (deep : Bool) (w : World)
    → Ends
        (λ r _. All (IsResidue store) r.staging_residue)
        (λ _. Unit)
        (run_verify blake3 store deep w)
unfolding run_verify
run_verify-Residue blake3 store deep w =
    Ends-bind _ _ w (any_end (query (list_models none)) w)
      (λ ms v _.
        Ends-bind _ _ v (any_end (verify_models blake3 (Cas.new store) deep ms empty_report) v)
          (λ r v _.
            Ends-bind _ _ v (any_end (query list_all_aliases) v)
              (λ rows v _.
                Ends-bind _ _ v
                  (any_end (gets (orphan_records (Cas.new store) (known_hashes ms) rows)) v)
                  (λ os v _.
                    Ends-bind _ _ v (any_end (gets (exists (staging_root store))) v)
                      (λ b v _.
                        Ends-bind _ _ v (residue-Residue store b v) (λ left u k. Ends-pure _ u k)
                          (λ v x. x))
                      (λ v x. x))
                  (λ v x. x))
              (λ v x. x))
          (λ v x. x))
      (λ v x. x)

-- A repair by the report of a check leaves each file as it is, whatever calls fail in the one or
-- the other, unless it stands below the directory of the stagings with a name that ends in `.part`.
pub run_verify-run_repair :
    (blake3 : Text → Blake3Hash) (store : FilePath) (deep : Bool) (q : FilePath) (t : Text)
    (w : World)
    → ¬ IsResidue store q
    → lookup q w.fs ≡ some (file t)
    → Ends
        (λ r v. lookup q (run_repair store r v).1.fs ≡ some (file t))
        (λ v. lookup q v.fs ≡ some (file t))
        (run_verify blake3 store deep w)
run_verify-run_repair blake3 store deep q t w n h =
    Ends-mono
      (Ends-and {P = Holds q t} _ w (run_verify-Residue blake3 store deep w)
        (run_verify-Keeps blake3 store deep) h)
      (λ r v (k, g).
        (run_repair-Kept store (λ m. m ≡ some (file t)) q (λ p x e. n (subst (IsResidue store) e x))
            (λ p _. remove_dir-Holds q t p) r k).at
          v g)
      (λ v (_, g). g)
