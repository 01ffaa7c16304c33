-- ===== src/Tx/Rollback.antt =====
-- What `rollback` (crates/modeld-core/src/tx.rs) does to the files: an entry is put back whole or
-- not at all, whatever calls fail.
use model_id.Base.{
  ℕ, ◌≡◌, ◌≢◌, refl, sym, ap, ◌∙◌, ◌⊎◌, inl, inr, not, Option, none, some, List, [], ◌∷◌, All,
  list_eq, nat_eq,
}
use model_id.Base.Text.{Text, codes}
use model_id.Base.Dict.{lookup}
use model_id.Base.Results.{not_found}
use model_id.Db.{Database, WalTransaction}
use model_id.Db.Enums.{TransactionStatus}
use model_id.Db.Enums
use model_id.Db.Wal.{get_wal_transaction}
use model_id.Sys.{FilePath, Fs, World, M, pure, throw, ◌>>=◌}
use model_id.Sys.Files.{with_extension, copy, rename}
use model_id.Sys.Tables.{query}
use model_id.Sys.Apart.{execute-Keeps_files, Keeps-Ends_both, Ends-either, query-Keeps}
use model_id.Sys.Keeps.{
  Keeps, Keeps-pure, Keeps-gets, Keeps-try, Keeps-if, Keeps-bind, Keeps-now, Holds, copy-Holds,
  rename-Holds,
}
use model_id.Sys.Results.{
  Ends, Ends-mono, Ends-bind, Ends-and, Ends-throw, Ends-pure, query-Ends, copy-Ends, rename-Ends,
  Keeps-Ends,
}
use model_id.Tx.{
  PathEntry, RollbackPlan, Serde, or_throw, put_back, restore_from, restore_entry, restore_entries,
  restore_plan, restore_json, rollback, rollback_tx, is_rolled_back, finish, update_wal_status,
  update_wal_extended,
}

abbrev pub tmp_of : FilePath → FilePath
tmp_of p = with_extension p (codes "rollback_tmp")

module _ (p t : FilePath) (old new : Text) (apart : t ≢ p) (tmp_apart : tmp_of p ≢ p)
    (t_tmp : t ≢ tmp_of p) where
  -- The object is copied and moved over the file, or the file is as it was.
  pub put_back-Ends :
      (w : World)
      → Holds p old w.fs w.db
      → Holds t new w.fs w.db
      → Ends
          (λ _ v. Holds p new v.fs v.db × Holds t new v.fs v.db)
          (λ v. Holds p old v.fs v.db × Holds t new v.fs v.db)
          (put_back t p w)
  put_back-Ends w h g =
      Ends-bind (copy t (tmp_of p)) _ w
        (Ends-and (copy t (tmp_of p)) w (copy-Ends t (tmp_of p) new t_tmp w g)
          (copy-Holds p old t (tmp_of p) tmp_apart) h)
        (λ _ v ((at_tmp, at_t), at_p).
          Ends-mono
            (Ends-and (rename (tmp_of p) p) v (rename-Ends (tmp_of p) p new tmp_apart v at_tmp)
              (rename-Holds t new (tmp_of p) p (λ e. t_tmp (sym e)) (λ e. apart (sym e))) at_t)
            (λ _ u ((moved, gone), kept). (moved, kept))
            (λ u (same, kept). (ap (lookup p) same ∙ at_p, kept)))
        (λ v (at_t, at_p). (at_p, at_t))

-- The object is there, and the file holds what it did or the content of the object.
abbrev pub Intact : FilePath → FilePath → Text → Text → Fs → Database → Type 0
Intact p t old new fs db = (Holds p old fs db ⊎ Holds p new fs db) × Holds t new fs db

-- The entry puts `p` back from `t`, or writes neither of them.
abbrev pub IsSafe : FilePath → FilePath → PathEntry → Type 0
IsSafe p t entry =
    ((entry.source ≡ p) × (entry.target ≡ some t))
    ⊎ ((entry.source ≢ p)
        × (entry.source ≢ t)
        × (tmp_of entry.source ≢ p)
        × (tmp_of entry.source ≢ t))

module _ (p t : FilePath) (old new : Text) (apart : t ≢ p) (tmp_apart : tmp_of p ≢ p)
    (t_tmp : t ≢ tmp_of p) where
  put_back-Intact : Keeps (Intact p t old new) (put_back t p)
  put_back-Intact = Keeps-Ends_both (put_back t p) by_content
    where
      by_content :
          (w : World)
          → Intact p t old new w.fs w.db
          → Ends
              (λ _ v. Intact p t old new v.fs v.db)
              (λ v. Intact p t old new v.fs v.db)
              (put_back t p w)
      by_content w (inl h, g) =
          Ends-mono (put_back-Ends p t old new apart tmp_apart t_tmp w h g)
            (λ _ v (x, y). (inr x, y)) (λ v (x, y). (inl x, y))
      by_content w (inr h, g) =
          Ends-mono (put_back-Ends p t new new apart tmp_apart t_tmp w h g)
            (λ _ v (x, y). (inr x, y)) (λ v (x, y). (inr x, y))

  -- What writes neither path.
  other_Intact {ℓ} :
      {A : Type ℓ} (m : M A)
      → ((q : FilePath) (s : Text) → (q ≡ p) ⊎ (q ≡ t) → Keeps (Holds q s) m)
      → Keeps (Intact p t old new) m
  other_Intact m k = record {
    at = λ w (h, g). (
      elim h [
        | inl a ↦ inl ((k p old (inl refl)).at w a)
        | inr b ↦ inr ((k p new (inl refl)).at w b)
      ],
      (k t new (inr refl)).at w g,
    );
  }

  put_other-Intact :
      (from source : FilePath)
      → source ≢ p
      → source ≢ t
      → tmp_of source ≢ p
      → tmp_of source ≢ t
      → Keeps (Intact p t old new) (put_back from source)
  put_other-Intact from source sp st up ut = other_Intact (put_back from source) λ q s e.
      Keeps-bind _ _ (copy-Holds q s from (tmp_of source) (away up ut q e))
        λ _. rename-Holds q s (tmp_of source) source (away up ut q e) (away sp st q e)
    where
      away : {x : FilePath} → x ≢ p → x ≢ t → (q : FilePath) → (q ≡ p) ⊎ (q ≡ t) → x ≢ q
      away n m q (inl e) f = n (f ∙ e)
      away n m q (inr e) f = m (f ∙ e)

  restore_from-Intact :
      (source : FilePath) (target : Option FilePath)
      → IsSafe p t (record {
        source = source;
        target = target;
        original_hash = none;
        new_hash = none;
        size = 0;
      })
      → Keeps (Intact p t old new) (restore_from source target)
  restore_from-Intact source none safe = Keeps-pure tt
  restore_from-Intact source (some u) safe =
      Keeps-bind _ _ (Keeps-gets _) λ there.
        Keeps-if there (put_back u source) (pure tt) (λ _. by_case safe) (λ _. Keeps-pure tt)
    where
      same : {a b : FilePath} → some a ≡ some b → a ≡ b
      same e = cc

      by_case :
          ((source ≡ p) × (some u ≡ some t))
            ⊎ ((source ≢ p) × (source ≢ t) × (tmp_of source ≢ p) × (tmp_of source ≢ t))
          → Keeps (Intact p t old new) (put_back u source)
      by_case (inl (e, f)) = rw (e, same f) put_back-Intact
      by_case (inr (sp, st, up, ut)) = put_other-Intact u source sp st up ut

  -- Whatever calls fail.
  restore_entries-Intact :
      (es : List PathEntry) → All (IsSafe p t) es → Keeps (Intact p t old new) (restore_entries es)
  unfolding restore_entries restore_entry
  restore_entries-Intact [] _ = Keeps-pure tt
  restore_entries-Intact (e ∷ es) (safe, safes) =
      Keeps-bind _ _
        (Keeps-try _ (
          Keeps-bind _ _ (Keeps-gets _) λ there.
            Keeps-if (not there) (pure tt) _ (λ _. Keeps-pure tt)
              (λ _. restore_from-Intact e.source e.target safe)))
        λ _. restore_entries-Intact es safes

  restore_plan-Intact :
      (json : Serde) (store_path : FilePath) (plan : Option RollbackPlan)
      → ((r : RollbackPlan) → plan ≡ some r → All (IsSafe p t) r.entries)
      → Keeps (Intact p t old new) (restore_plan json store_path plan)
  unfolding restore_entries
  restore_plan-Intact json store_path none safe = Keeps-pure tt
  restore_plan-Intact json store_path (some r) safe = restore_entries-Intact r.entries (safe r refl)

-- The plan in the row of a transaction.
abbrev pub plan_of : Serde → Option WalTransaction → Option RollbackPlan
plan_of json none = none
plan_of json (some tx) = elim tx.rollback_plan [ none ↦ none | some text ↦ json.plan_from_str text ]

-- The lines about a transaction write no file.
module _ {P : Fs → Type 0} where
  pub update_wal_status-Keeps :
      (tx_id : Text) (status : TransactionStatus)
      → Keeps (λ fs _. P fs) (update_wal_status tx_id status)
  unfolding update_wal_status
  update_wal_status-Keeps tx_id status =
      Keeps-bind _ _ Keeps-now λ at. execute-Keeps_files {P = P} _

  pub update_wal_extended-Keeps :
      (tx_id : Text) (op_type affected rollback_plan : Option Text) (end_time : Option ℕ)
      (message : Option Text)
      → Keeps
          (λ fs _. P fs)
          (update_wal_extended tx_id op_type affected rollback_plan end_time message)
  unfolding update_wal_extended
  update_wal_extended-Keeps tx_id op_type affected rollback_plan end_time message =
      Keeps-bind _ _ Keeps-now λ at. execute-Keeps_files {P = P} _

  pub finish-Keeps :
      (tx_id : Text) (status : TransactionStatus) (message : Option Text)
      → Keeps (λ fs _. P fs) (finish tx_id status message)
  finish-Keeps tx_id status message = Keeps-bind _ _ Keeps-now λ end_time.
      Keeps-bind _ _ (update_wal_status-Keeps tx_id status)
        λ _. update_wal_extended-Keeps tx_id none none none (some end_time) message

module _ (json : Serde) (store_path : FilePath) where
  -- A file that the plan of the transaction puts back from `t` holds, after a rollback, its old
  -- content or that of `t`, which is left as it is, whatever calls fail and however often; the
  -- other entries of the plan do not write the two paths.
  pub rollback-Intact :
      (tx_id : Text) (p t : FilePath) (old new : Text) (w : World)
      → t ≢ p
      → tmp_of p ≢ p
      → t ≢ tmp_of p
      → ((r : RollbackPlan)
          → plan_of json (get_wal_transaction tx_id w.db) ≡ some r
          → All (IsSafe p t) r.entries)
      → Intact p t old new w.fs w.db
      → Intact p t old new
          (rollback json store_path tx_id w).1.fs
          (rollback json store_path tx_id w).1.db
  unfolding rollback update_wal_status update_wal_extended
  rollback-Intact tx_id p t old new w apart tmp_apart t_tmp safe h =
      Ends-either (rollback json store_path tx_id w) (
        Ends-bind (query (get_wal_transaction tx_id)) _ w
          (Ends-and (query (get_wal_transaction tx_id)) w (query-Ends (get_wal_transaction tx_id) w)
            (query-Keeps _) h)
          (λ found v ((e, _, _), g).
            by_row found v (λ r k. safe r (ap (plan_of json) (sym e) ∙ k)) g)
          (λ v (_, g). g))
    where
      by_text :
          (text : Option Text)
          → ((r : RollbackPlan)
              → elim text [ none ↦ none | some s ↦ json.plan_from_str s ] ≡ some r
              → All (IsSafe p t) r.entries)
          → Keeps (Intact p t old new) (restore_json json store_path text)
      by_text none k = Keeps-pure tt
      by_text (some s) k =
          restore_plan-Intact p t old new apart tmp_apart t_tmp json store_path
            (json.plan_from_str s) k

      by_row :
          (found : Option WalTransaction) (v : World)
          → ((r : RollbackPlan) → plan_of json found ≡ some r → All (IsSafe p t) r.entries)
          → Intact p t old new v.fs v.db
          → Ends
              (λ _ u. Intact p t old new u.fs u.db)
              (λ u. Intact p t old new u.fs u.db)
              ((or_throw not_found found >>= rollback_tx json store_path tx_id) v)
      by_row none v k g =
          Ends-bind (throw not_found) _ v
            (Ends-throw {Good = λ _ _. ⊥} {Bad = λ u. Intact p t old new u.fs u.db} not_found v g)
            (λ tx u f. absurd f) (λ u b. b)
      by_row (some tx) v k g =
          Ends-bind (pure tx) _ v
            (Ends-pure {Good = λ a u. (a ≡ tx) × Intact p t old new u.fs u.db} {Bad = λ _. ⊥} tx v
              (refl, g))
            (λ a u (e, b).
              Keeps-Ends (rollback_tx json store_path tx_id a) u
                (rw e (after tx (by_text tx.rollback_plan k))) b)
            (λ u f. absurd f)
        where
          after :
              (tx : WalTransaction)
              → Keeps (Intact p t old new) (restore_json json store_path tx.rollback_plan)
              → Keeps (Intact p t old new) (rollback_tx json store_path tx_id tx)
          after tx k =
              Keeps-if (is_rolled_back json store_path tx.status) (pure tt) _ (λ _. Keeps-pure tt)
                (λ _. Keeps-bind _ _ k λ _. finish-Keeps tx_id Enums.rolled_back none)
