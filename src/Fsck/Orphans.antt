-- ===== src/Fsck/Orphans.antt =====
-- The orphan records that a check of crates/modeld-core/src/fsck.rs finds, and what deleting them
-- comes to.
use model_id.Base.{
  ◌≡◌, refl, ap, ◌∙◌, Bool, true, false, ◌&&◌, ◌||◌, not, List, [], ◌∷◌, arith, any, fun_ext,
  list_eq, nat_eq, ◌==◌, ==_refl, if◌then◌else◌,
}
use model_id.Base.Text.{Text}
use model_id.Hash.{Blake3Hash}
use model_id.Db.{Database, Alias}
use model_id.Db.Aliases.{at_path, delete_alias, list_all_aliases}
use model_id.Db.Table.{delete_where}
use model_id.Db.Lexical.{place_text, order_text}
use model_id.Db.Order.{any-order_asc}
use model_id.Cas
use model_id.Cas.{CasStore, path_for_hash}
use model_id.Sys.{World}
use model_id.Fsck.Verify.{OrphanRecord, is_orphan, orphan_record, orphan_records}

any-place_text :
    (p : Alias → Bool) (key : Alias → Text) (x : Alias) (xs : List Alias)
    → any p (place_text key x xs) ≡ (p x || any p xs)
unfolding place_text
any-place_text p key x [] = refl
any-place_text p key x (y ∷ ys) = ground (arith, any-place_text p key x ys)

any-order_text :
    (p : Alias → Bool) (key : Alias → Text) (xs : List Alias) → any p (order_text key xs) ≡ any p xs
unfolding order_text
any-order_text p key [] = refl
any-order_text p key (x ∷ xs) =
    any-place_text p key x (order_text key xs) ∙ ap (λ b. p x || b) (any-order_text p key xs)

pub any-list_all_aliases :
    (p : Alias → Bool) (db : Database) → any p (list_all_aliases db) ≡ any p db.aliases
unfolding list_all_aliases
any-list_all_aliases p db = any-order_text p _ _ ∙ any-order_asc p _ db.aliases

-- The alias is one of those to be deleted.
abbrev pub listed : List OrphanRecord → Alias → Bool
listed os a = any (λ (o : OrphanRecord). a.path == o.alias_path) os

module _ (cas : CasStore) (known : List Text) (w : World) where
  abbrev pub left_over : List OrphanRecord → Alias → Bool
  left_over os a = is_orphan cas known w a && not (listed os a)

  -- Each orphan of the list is reported.
  pub none_left_over :
      (os : List OrphanRecord) (rows : List Alias)
      → ((a : Alias) → listed (orphan_records cas known rows w) a ≡ true → listed os a ≡ true)
      → any (left_over os) rows ≡ false
  unfolding orphan_records
  none_left_over os [] h = refl
  none_left_over os (a ∷ rows) h = by_test (is_orphan cas known w a) refl h (none_left_over os rows)
    where
      by_test :
          (b : Bool)
          → is_orphan cas known w a ≡ b
          → ((x : Alias)
              → listed
                  (if b
                    then orphan_record a ∷ orphan_records cas known rows w
                    else orphan_records cas known rows w)
                  x
                ≡ true
              → listed os x ≡ true)
          → (((x : Alias) → listed (orphan_records cas known rows w) x ≡ true → listed os x ≡ true)
              → any (left_over os) rows ≡ false)
          → (left_over os a || any (left_over os) rows) ≡ false
      by_test false e k ih = rw e (ih k)
      by_test true e k ih =
          rw (e, k a (ground (arith, ==_refl a.path))) (ih (λ x l. k x (ground (arith, l))))

  pub no_orphans :
      (rows : List Alias)
      → any (is_orphan cas known w) rows ≡ false
      → orphan_records cas known rows w ≡ []
  unfolding orphan_records
  no_orphans [] h = refl
  no_orphans (a ∷ rows) h = ground (arith, no_orphans rows, h)

pub orphan_records-cong :
    (cas : CasStore) (known : List Text) (u w : World) (rows : List Alias)
    → ((h : Blake3Hash) → Cas.contains cas h u ≡ Cas.contains cas h w)
    → orphan_records cas known rows u ≡ orphan_records cas known rows w
unfolding orphan_records
orphan_records-cong cas known u w [] h = refl
orphan_records-cong cas known u w (a ∷ rows) h =
    rw (h a.model_hash, orphan_records-cong cas known u w rows h) refl

any-delete_where_mono :
    (q q' r : Alias → Bool) (xs : List Alias)
    → ((x : Alias) → r x ≡ false → q' x ≡ false → q x ≡ false)
    → any q' xs ≡ false
    → any q (delete_where r xs) ≡ false
unfolding delete_where
any-delete_where_mono q q' r [] h k = refl
any-delete_where_mono q q' r (x ∷ xs) h k =
    ground (arith, h x, any-delete_where_mono q q' r xs h, k)

unfoldable pub deleted : List OrphanRecord → Database → Database
deleted [] db = db
deleted (o ∷ os) db = deleted os (delete_alias o.alias_path db)

pub deleted-models : (os : List OrphanRecord) (db : Database) → (deleted os db).models ≡ db.models
unfolding deleted delete_alias
deleted-models [] db = refl
deleted-models (o ∷ os) db = deleted-models os (delete_alias o.alias_path db)

pub any-deleted :
    (p : Alias → Bool) (os : List OrphanRecord) (db : Database)
    → any (λ a. p a && not (listed os a)) db.aliases ≡ false
    → any p (deleted os db).aliases ≡ false
unfolding deleted delete_alias
any-deleted p [] db h = ap (λ f. any f db.aliases) (fun_ext same) ∙ h
  where
    same : (a : Alias) → p a ≡ (p a && true)
    same a = ground arith
any-deleted p (o ∷ os) db h =
    any-deleted p os (delete_alias o.alias_path db) (
      any-delete_where_mono _ _ (at_path o.alias_path) db.aliases (λ x e f. ground (arith, e, f)) h)
