-- ===== src/Governance/Import.antt =====
-- What `import_tags_json` (crates/modeld-core/src/governance.rs) does to the tags.
use model_id.Base.{
  ℕ, ◌+◌, ◌≡◌, refl, sym, ap, subst, ◌∙◌, Bool, true, false, Option, none, some, List, [], ◌∷◌,
  ◌++◌, arith, any, any-append, find, length, if◌then◌else◌, All, All-mono, list_eq, nat_eq,
  ==_refl,
}
use model_id.Base.Text.{Text}
use model_id.Base.Results.{Result, ok, err, foreign_key_violation}
use model_id.Hash.{Blake3Hash, from_hex}
use model_id.Db.{Database, Model}
use model_id.Db.Models.{◌=h◌, has_model, is_tag, get_model}
use model_id.Db.Models
use model_id.Sys.{World, pure, lift}
use model_id.Sys.Tables.{query, attempt}
use model_id.Sys.Apart.{attempt-Ends, lift-Ends}
use model_id.Sys.Results.{Ends, Ends-pure, Ends-bind, Ends-mono, query-Ends}
use model_id.Governance.{
  TagEntry, no_value, import_tags, import_known, import_entries, import_tags_json,
}

abbrev pub HasTag : Blake3Hash → Text → Database → Type 0
HasTag hash tag db = any (is_tag hash tag) db.tags ≡ true

-- The models are the same, and no tag is lost.
abbrev pub Grows : Database → Database → Type 0
Grows db db' =
    (db'.models ≡ db.models)
    × ((hash : Blake3Hash) (tag : Text) → HasTag hash tag db → HasTag hash tag db')

Grows-trans : (a b c : Database) → Grows a b → Grows b c → Grows a c
Grows-trans a b c (e, f) (g, h) = (g ∙ e, λ hash tag k. h hash tag (f hash tag k))

add_tag-Grows :
    (hash : Blake3Hash) (tag : Text) (db db' : Database) (u : Unit {0})
    → no_value (Models.add_tag hash tag db) ≡ ok (u, db')
    → Grows db db' × HasTag hash tag db'
unfolding Models.add_tag
add_tag-Grows hash tag db db' u e =
    by_test (any (is_tag hash tag) db.tags) (has_model hash db.models) refl e
  where
    added : Database
    added = record db { tags = db.tags ++ record { model_hash = hash; tag = tag } ∷ [] }

    returned : Unit {0} → Database → Result (Unit {0} × Database)
    returned v a = ok (v, a)

    same : {a b : Database} {v : Unit {0}} → returned v a ≡ returned u b → a ≡ b
    same k = cc

    more : Grows db added
    more = (refl, λ g t k. any-append (is_tag g t) db.tags _ ∙ ground (arith, k))

    there : HasTag hash tag added
    there = any-append (is_tag hash tag) db.tags _ ∙ ground (arith, ==_refl hash.hex, ==_refl tag)

    by_test :
        (b c : Bool)
        → any (is_tag hash tag) db.tags ≡ b
        → no_value (if b then ok db else if c then ok added else err foreign_key_violation)
          ≡ ok (u, db')
        → Grows db db' × HasTag hash tag db'
    by_test true c k e =
        subst (λ d. Grows db d × HasTag hash tag d) (same e) ((refl, λ g t h. h), k)
    by_test false true k e = subst (λ d. Grows db d × HasTag hash tag d) (same e) (more, there)
    by_test false false k e = cc

-- The tags of one entry.
import_tags-Ends :
    (hash : Blake3Hash) (count : ℕ) (tags : List Text) (w : World)
    → Ends
        (λ n v. (n ≡ count + length tags) × Grows w.db v.db × All (λ t. HasTag hash t v.db) tags)
        (λ _. Unit)
        (import_tags hash count tags w)
unfolding import_tags
import_tags-Ends hash count [] w = Ends-pure count w (omega arith, (refl, λ g t h. h), tt)
import_tags-Ends hash count (t ∷ tags) w =
    Ends-bind (attempt (λ db. no_value (Models.add_tag hash t db))) _ w (attempt-Ends _ w)
      (λ u v e.
        let (grows, there) = add_tag-Grows hash t w.db v.db u e in
        Ends-mono (import_tags-Ends hash (count + 1) tags v)
          (λ n x (c, g, h).
            (omega (arith, c), Grows-trans w.db v.db x.db grows g, (g.1 hash t there, h)))
          (λ x _. tt))
      (λ v _. tt)

abbrev pub is_known : Option Model → Bool
is_known none = false
is_known (some m) = true

-- The hash of the entry is read and in the database.
abbrev pub IsListed : Database → Blake3Hash → TagEntry → Type 0
IsListed db hash e = (from_hex e.hash ≡ ok hash) × (is_known (get_model hash db) ≡ true)

abbrev counted : Database → Result Blake3Hash → List Text → ℕ
counted db (err e) tags = 0
counted db (ok hash) tags = if is_known (get_model hash db) then length tags else 0

-- The tags of the entries whose model is known, each as often as it is listed.
abbrev pub tags_listed : Database → List TagEntry → ℕ
tags_listed db [] = 0
tags_listed db (e ∷ entries) = counted db (from_hex e.hash) e.tags + tags_listed db entries

abbrev pub IsImported : Database → List TagEntry → Database → Type 0
IsImported db entries db' =
    All
      (λ (e : TagEntry).
        (hash : Blake3Hash) → IsListed db hash e → All (λ t. HasTag hash t db') e.tags)
      entries

known_same :
    (hash : Blake3Hash) (db db' : Database)
    → db'.models ≡ db.models
    → get_model hash db' ≡ get_model hash db
unfolding get_model
known_same hash db db' e = ap (find (λ (m : Model). m.blake3_hash =h hash)) e

tags_listed_same :
    (db db' : Database) (entries : List TagEntry)
    → db'.models ≡ db.models
    → tags_listed db' entries ≡ tags_listed db entries
tags_listed_same db db' [] e = refl
tags_listed_same db db' (x ∷ entries) e =
    omega (arith, by_hash (from_hex x.hash), tags_listed_same db db' entries e)
  where
    by_hash : (r : Result Blake3Hash) → counted db' r x.tags ≡ counted db r x.tags
    by_hash (err b) = refl
    by_hash (ok hash) = ap (λ o. if is_known o then length x.tags else 0) (known_same hash db db' e)

import_known-Ends :
    (hash : Blake3Hash) (count : ℕ) (tags : List Text) (known : Option Model) (w : World)
    → Ends
        (λ n v.
          (n ≡ count + (if is_known known then length tags else 0))
          × Grows w.db v.db
          × (is_known known ≡ true → All (λ t. HasTag hash t v.db) tags))
        (λ _. Unit)
        (import_known hash count tags known w)
unfolding import_tags
import_known-Ends hash count tags none w =
    Ends-pure count w (omega arith, (refl, λ g t h. h), λ e. cc)
import_known-Ends hash count tags (some m) w =
    Ends-mono (import_tags-Ends hash count tags w) (λ n v (c, g, h). (c, g, λ _. h)) (λ v _. tt)

-- One entry after the others: what it adds, and what the rest adds.
joined :
    (hash : Blake3Hash) (e : TagEntry) (entries : List TagEntry) (db mid db' : Database)
    (count n n' : ℕ)
    → from_hex e.hash ≡ ok hash
    → n ≡ count + (if is_known (get_model hash db) then length e.tags else 0)
    → Grows db mid
    → (is_known (get_model hash db) ≡ true → All (λ t. HasTag hash t mid) e.tags)
    → n' ≡ n + tags_listed mid entries
    → Grows mid db'
    → IsImported mid entries db'
    → (n' ≡ count + tags_listed db (e ∷ entries)) × Grows db db' × IsImported db (e ∷ entries) db'
joined hash e entries db mid db' count n n' k c g h c' g' h' = (
  omega (arith, c, c', ap (λ r. counted db r e.tags) k, tags_listed_same db mid entries g.0),
  Grows-trans db mid db' g g',
  (
    λ other (p, known).
        subst (λ x. All (λ t. HasTag x t db') e.tags) (same (sym k ∙ p))
          (All-mono (λ t. g'.1 hash t) e.tags
            (h (ap (λ x. is_known (get_model x db)) (same (sym k ∙ p)) ∙ known))),
    All-mono
        (λ x there other (p, known).
          there other (p, ap is_known (known_same other db mid g.0) ∙ known))
        entries h',
  ),
)
  where
    same : {a b : Blake3Hash} → ok a ≡ ok b → a ≡ b
    same q = cc

import_entries-Ends :
    (count : ℕ) (entries : List TagEntry) (w : World)
    → Ends
        (λ n v.
          (n ≡ count + tags_listed w.db entries) × Grows w.db v.db × IsImported w.db entries v.db)
        (λ _. Unit)
        (import_entries count entries w)
unfolding import_entries
import_entries-Ends count [] w = Ends-pure count w (omega arith, (refl, λ g t h. h), tt)
import_entries-Ends count (e ∷ entries) w =
    Ends-bind (lift (from_hex e.hash)) _ w (lift-Ends (from_hex e.hash) w)
      (λ hash v (k, same).
        Ends-bind (query (get_model hash)) _ v (query-Ends (get_model hash) v)
          (λ known v1 (f, d, _).
            Ends-bind (import_known hash count e.tags known) _ v1
              (import_known-Ends hash count e.tags known v1)
              (λ n v2 (c, g, h).
                Ends-mono (import_entries-Ends n entries v2)
                  (λ n' u (c', g', h').
                    joined hash e entries w.db v2.db u.db count n n' k
                      (c
                        ∙ ap (λ o. count + (if is_known o then length e.tags else 0))
                            (f ∙ ap (λ (x : World). get_model hash x.db) same))
                      (subst (λ db. Grows db v2.db) (d ∙ ap (λ (x : World). x.db) same) g)
                      (λ q. h (ap is_known (f ∙ ap (λ (x : World). get_model hash x.db) same) ∙ q))
                      c' g' h')
                  (λ u _. tt))
              (λ v2 _. tt))
          (λ v1 _. tt))
      (λ v _. tt)

-- If `import_tags_json` returns, the models are as they were and no tag is lost, each entry whose
-- hash is of a known model has its tags, and what is returned is the number of tags that those
-- entries list, those that were there already among them.
pub import_tags_json-IsImported :
    (from_str : Text → Option (List TagEntry)) (json : Text) (entries : List TagEntry) (w : World)
    → from_str json ≡ some entries
    → Ends
        (λ n v. (n ≡ tags_listed w.db entries) × Grows w.db v.db × IsImported w.db entries v.db)
        (λ _. Unit)
        (import_tags_json from_str json w)
unfolding import_tags_json
import_tags_json-IsImported from_str json entries w e = rw e (
    Ends-bind (pure entries) _ w
      (Ends-pure {Good = λ es v. (es ≡ entries) × (v ≡ w)} {Bad = λ _. Unit} entries w (refl, refl))
      (λ es v (p, q).
        rw (p, q)
          (Ends-mono (import_entries-Ends 0 entries w) (λ n x (c, g, h). (omega (arith, c), g, h))
            (λ x _. tt)))
      (λ v _. tt))
