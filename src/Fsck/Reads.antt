-- ===== src/Fsck/Reads.antt =====
-- A check of crates/modeld-core/src/fsck.rs changes nothing.
use model_id.Base.{
  ℕ, zero, suc, Bool, true, false, Option, some, List, [], ◌∷◌, ltb, none, list_eq, nat_eq,
}
use model_id.Base.Text.{Text}
use model_id.Base.Results.{Result, ok, err}
use model_id.Hash.{Blake3Hash}
use model_id.Hash.Reading.{hash_file}
use model_id.Db.{Database, Model}
use model_id.Cas
use model_id.Cas.{CasStore}
use model_id.Sys.{FilePath, Fs, M}
use model_id.Sys.Walk.{entries_of, read_dir-Keeps}
use model_id.Sys.Keeps.{Keeps, Keeps-bind, Keeps-pure, Keeps-gets, Keeps-try, Keeps-if}
use model_id.Sys.Apart.{read-Keeps, len-Keeps, query-Keeps}
use model_id.Fsck.Verify.{
  VerifyReport, staging_root, collect_entry, collect_entries, collect_step, collect_within,
  collect_part_files, residue, run_verify, verify_models, verify_object, verify_size, deep_check,
}

module _ {P : Fs → Database → Type 0} where
  module _ (collect : FilePath → List FilePath → M (List FilePath))
      (h : (p : FilePath) (out : List FilePath) → Keeps P (collect p out)) where
    collect_entry-Keeps :
        (b : Bool) (p : FilePath) (out : List FilePath) → Keeps P (collect_entry collect b p out)
    collect_entry-Keeps true p out = h p out
    collect_entry-Keeps false p out = Keeps-pure _

    collect_entries-Keeps : (ps out : List FilePath) → Keeps P (collect_entries collect ps out)
    unfolding collect_entries
    collect_entries-Keeps [] out = Keeps-pure out
    collect_entries-Keeps (p ∷ ps) out =
        Keeps-bind _ _ (Keeps-gets _)
          λ b. Keeps-bind _ _ (collect_entry-Keeps b p out) λ out'. collect_entries-Keeps ps out'

  collect_within-Keeps :
      (n : ℕ) (p : FilePath) (out : List FilePath) → Keeps P (collect_within n p out)
  unfolding collect_within collect_step
  collect_within-Keeps zero p out = Keeps-pure out
  collect_within-Keeps (suc n) p out =
      Keeps-bind _ _ (Keeps-try _ (read_dir-Keeps p))
        λ r. collect_entries-Keeps (collect_within n) (collect_within-Keeps n) (entries_of r) out

  residue-Keeps : (store : FilePath) (b : Bool) → Keeps P (residue store b)
  unfolding collect_part_files
  residue-Keeps store false = Keeps-pure []
  residue-Keeps store true =
      Keeps-bind _ _ (Keeps-gets _) λ n. collect_within-Keeps (suc n) (staging_root store) []

  module _ (blake3 : Text → Blake3Hash) where
    pub hash_file-Keeps : (p : FilePath) → Keeps P (hash_file blake3 p)
    unfolding hash_file
    hash_file-Keeps p = Keeps-bind _ _ (len-Keeps p) λ n.
        Keeps-if (ltb n 10485760) _ _ (λ _. Keeps-bind _ _ (read-Keeps p) λ s. Keeps-pure _)
          (λ _. Keeps-bind _ _ (read-Keeps p) λ s. Keeps-pure _)

    deep_check-Keeps :
        (deep : Bool) (m : Model) (p : FilePath) (r : VerifyReport)
        → Keeps P (deep_check blake3 deep m p r)
    deep_check-Keeps false m p r = Keeps-pure r
    deep_check-Keeps true m p r = Keeps-bind _ _ (Keeps-try _ (hash_file-Keeps p)) λ c. Keeps-pure _

    verify_size-Keeps :
        (deep : Bool) (m : Model) (p : FilePath) (r : VerifyReport) (size : Result ℕ)
        → Keeps P (verify_size blake3 deep m p r size)
    verify_size-Keeps deep m p r (err e) = Keeps-pure r
    verify_size-Keeps deep m p r (ok n) = deep_check-Keeps deep m p _

    verify_object-Keeps :
        (deep : Bool) (m : Model) (r : VerifyReport) (o : Option FilePath)
        → Keeps P (verify_object blake3 deep m r o)
    verify_object-Keeps deep m r none = Keeps-pure _
    verify_object-Keeps deep m r (some p) =
        Keeps-bind _ _ (Keeps-try _ (len-Keeps p)) λ size. verify_size-Keeps deep m p r size

    pub verify_models-Keeps :
        (cas : CasStore) (deep : Bool) (ms : List Model) (r : VerifyReport)
        → Keeps P (verify_models blake3 cas deep ms r)
    unfolding verify_models
    verify_models-Keeps cas deep [] r = Keeps-pure r
    verify_models-Keeps cas deep (m ∷ ms) r = Keeps-bind _ _ (Keeps-gets _) λ o.
        Keeps-bind _ _ (verify_object-Keeps deep m r o) λ r'. verify_models-Keeps cas deep ms r'

    pub run_verify-Keeps : (store : FilePath) (deep : Bool) → Keeps P (run_verify blake3 store deep)
    unfolding run_verify
    run_verify-Keeps store deep = Keeps-bind _ _ (query-Keeps _) λ ms.
        Keeps-bind _ _ (verify_models-Keeps (Cas.new store) deep ms _) λ r.
          Keeps-bind _ _ (query-Keeps _) λ rows. Keeps-bind _ _ (Keeps-gets _) λ os.
            Keeps-bind _ _ (Keeps-gets _)
              λ b. Keeps-bind _ _ (residue-Keeps store b) λ left. Keeps-pure _
