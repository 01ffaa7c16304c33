-- ===== src/Db/Integrity.antt =====
-- What the schema promises of `aliases`, and that the statements of db.rs keep it.
use model_id.Base.{
  ℕ, ◌+◌, ◌≡◌, ◌≢◌, refl, ◌∙◌, Bool, true, false, ◌||◌, some, List, [], ◌∷◌, ◌++◌, arith, any, find,
  if◌then◌else◌, list_eq, nat_eq, ==_iff, ==_refl, All, All-append,
}
use model_id.Base.Text.{Text}
use model_id.Base.Results.{Result, ok, err, unique_violation, foreign_key_violation}
use model_id.Hash.{Blake3Hash}
use model_id.Db.{Database, Alias}
use model_id.Db.Enums.{AliasType, Frontend}
use model_id.Db.Models.{has_model}
use model_id.Db.Aliases.{
  at_path, of_model, insert_alias, get_alias_by_path, count_aliases, delete_aliases_for_model,
}
use model_id.Db.Table.{delete_where, count_where-delete_where, count_where-delete_where_self}

-- No two aliases have one path.
abbrev pub Distinct : List Alias → Type 0
Distinct [] = Unit
Distinct (a ∷ rest) = (any (at_path a.path) rest ≡ false) × Distinct rest

-- The UNIQUE clause on the path and the FOREIGN KEY clause on the hash hold.
pub record IsSound (db : Database) : Type 0 where
  pub distinct : Distinct db.aliases
  pub known : All (λ (a : Alias). has_model a.model_hash db.models ≡ true) db.aliases

any-append_one :
    (p : Alias → Bool) (xs : List Alias) (b : Alias) → any p (xs ++ b ∷ []) ≡ (any p xs || p b)
any-append_one p [] b = ground arith
any-append_one p (x ∷ xs) b = ground (arith, any-append_one p xs b)

Distinct-append_one :
    (xs : List Alias) (b : Alias)
    → any (at_path b.path) xs ≡ false
    → Distinct xs
    → Distinct (xs ++ b ∷ [])
Distinct-append_one [] b h d = (refl, tt)
Distinct-append_one (x ∷ xs) b h (f, d) = (
  any-append_one (at_path x.path) xs b
      ∙ ground (arith, f, ==_iff b.path x.path, ==_iff x.path b.path),
  Distinct-append_one xs b (ground (arith, h)) d,
)

find-append_one :
    (p : Alias → Bool) (xs : List Alias) (b : Alias)
    → any p xs ≡ false
    → p b ≡ true
    → find p (xs ++ b ∷ []) ≡ some b
find-append_one p [] b h k = rw k refl
find-append_one p (x ∷ xs) b h k = ground (arith, find-append_one p xs b, k)

-- What `insert_alias` comes to.
abbrev pub Inserted : Blake3Hash → List Text → Database → Result (ℕ × Database) → Type 0
Inserted hash path db (ok (id, after)) =
    IsSound after
    × ((a : Alias) × (get_alias_by_path path after ≡ some a) × (a.id ≡ id) × (a.model_hash ≡ hash))
Inserted hash path db (err unique_violation) = any (at_path path) db.aliases ≡ true
Inserted hash path db (err foreign_key_violation) = has_model hash db.models ≡ false
Inserted hash path db (err _) = ⊥

-- `insert_alias` on tables that are sound: if it returns, the tables are sound again and the path
-- is found with the new id and the hash; otherwise the path is taken or the model is missing.
pub insert_alias-Inserted :
    (now : ℕ) (hash : Blake3Hash) (path : List Text) (frontend : Frontend) (alias_type : AliasType)
    (db : Database)
    → IsSound db
    → Inserted hash path db (insert_alias now hash path frontend alias_type db)
unfolding insert_alias get_alias_by_path
insert_alias-Inserted now hash path frontend alias_type db s =
    by_tests (any (at_path path) db.aliases) (has_model hash db.models) refl refl
  where
    new : Alias
    new = record {
      id = db.alias_seq + 1;
      model_hash = hash;
      path = path;
      frontend = frontend;
      alias_type = alias_type;
      created_at = now;
    }

    after : Database
    after = record db {
      aliases = db.aliases ++ new ∷ [];
      alias_seq = db.alias_seq + 1;
      last_insert_rowid = db.alias_seq + 1;
    }

    by_tests :
        (taken known : Bool)
        → any (at_path path) db.aliases ≡ taken
        → has_model hash db.models ≡ known
        → Inserted hash path db (
            if taken
            then err unique_violation
            else if known
            then ok (db.alias_seq + 1, after)
            else err foreign_key_violation)
    by_tests true known h k = h
    by_tests false false h k = k
    by_tests false true h k = (
      record {
        distinct = Distinct-append_one db.aliases new h s.distinct;
        known = All-append _ db.aliases (new ∷ []) s.known (k, tt);
      },
      (new, find-append_one (at_path path) db.aliases new h (==_refl path), refl, refl),
    )

any-delete_where_none :
    (p q : Alias → Bool) (xs : List Alias) → any p xs ≡ false → any p (delete_where q xs) ≡ false
unfolding delete_where
any-delete_where_none p q [] h = refl
any-delete_where_none p q (x ∷ xs) h = ground (arith, any-delete_where_none p q xs)

Distinct-delete_where :
    (q : Alias → Bool) (xs : List Alias) → Distinct xs → Distinct (delete_where q xs)
unfolding delete_where
Distinct-delete_where q [] _ = tt
Distinct-delete_where q (x ∷ xs) (f, d) = by_test (q x) (Distinct-delete_where q xs d)
  where
    by_test :
        (b : Bool)
        → Distinct (delete_where q xs)
        → Distinct (if b then delete_where q xs else x ∷ delete_where q xs)
    by_test true h = h
    by_test false h = (any-delete_where_none (at_path x.path) q xs f, h)

All-delete_where {κ} :
    (P : Alias → Type κ) (q : Alias → Bool) (xs : List Alias) → All P xs → All P (delete_where q xs)
unfolding delete_where
All-delete_where P q [] _ = tt
All-delete_where P q (x ∷ xs) (p, ps) = by_test (q x) (All-delete_where P q xs ps)
  where
    by_test :
        (b : Bool)
        → All P (delete_where q xs)
        → All P (if b then delete_where q xs else x ∷ delete_where q xs)
    by_test true h = h
    by_test false h = (p, h)

-- `delete_aliases_for_model` on tables that are sound: they stay sound, the model has no alias any
-- more, and each other hash has as many as before.
pub delete_aliases_for_model-count_aliases :
    (hash : Blake3Hash) (db : Database)
    → IsSound db
    → IsSound (delete_aliases_for_model hash db).1
      × (count_aliases hash (delete_aliases_for_model hash db).1 ≡ 0)
      × ((g : Blake3Hash)
          → g.hex ≢ hash.hex
          → count_aliases g (delete_aliases_for_model hash db).1 ≡ count_aliases g db)
unfolding delete_aliases_for_model count_aliases
delete_aliases_for_model-count_aliases hash db s = (
  record {
    distinct = Distinct-delete_where (of_model hash) db.aliases s.distinct;
    known = All-delete_where _ (of_model hash) db.aliases s.known;
  },
  count_where-delete_where_self (of_model hash) db.aliases,
  λ g n.
      count_where-delete_where (of_model g) (of_model hash) db.aliases
        (λ a e. ground (arith, ==_iff a.model_hash.hex hash.hex, ==_iff a.model_hash.hex g.hex)),
)
