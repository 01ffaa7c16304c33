-- ===== src/Gc/Agree.antt =====
-- The three places of gc.rs and refs.rs that say which models are free to take, against each other.
use mathlib.Core.List.{append-nil, append_assoc, map-append}
use model_id.Base.{
  ℕ, ◌+◌, ◌<◌, ◌%◌, ◌^◌, ◌≡◌, refl, ap, sym, ◌∙◌, ◌↔◌, Option, none, some, List, [], ◌∷◌, ◌++◌,
  arith, map, select, find, if◌then◌else◌, list_eq, nat_eq,
}
use model_id.Base.Text.{Text}
use model_id.Base.Results.{ok}
use model_id.Hash.{Blake3Hash}
use model_id.Db.{Database}
use model_id.Db.Counts.{GcRow, get_gc_candidate_counts}
use model_id.Sys.{World, try}
use model_id.Quarantine.{Serde, list}
use model_id.Sys.Results.{Ends, any_end, Ends-pure, Ends-bind, Ends-mono, gets-Ends, query-Ends}
use model_id.Sys.Tables.{query}
use model_id.Cas.{CasStore}
use model_id.Gc.{
  RefStatus, is_orphan, recently_used, unknown, hard_reference, soft_reference, pinned,
  orphan_candidate, ref_status, GcPreview, GcPreviewItem, GcCandidate, candidate_of, hash_prefix_of,
  preview_all, preview_status, no_preview, list_orphans, is_free, classify_refs, explain_refs,
  is_row, reasons_of, classify_row, preview, candidates, GcEngine,
}

-- `classify_refs` calls a model an orphan exactly if `explain_refs` finds no reason to keep it.
pub classify_refs-explain_refs :
    (db : Database) (hash : Blake3Hash)
    → classify_refs (ok (get_gc_candidate_counts db)) hash ≡ orphan_candidate
      ↔ explain_refs db hash ≡ []
unfolding classify_refs explain_refs ref_status
classify_refs-explain_refs db hash = by_row (find (is_row hash) (get_gc_candidate_counts db))
  where
    by_row : (row : Option GcRow) → classify_row row ≡ orphan_candidate ↔ reasons_of row ≡ []
    by_row none = ground arith
    by_row (some row) = ground arith

abbrev prefix_of_row : GcRow → Text
prefix_of_row row = hash_prefix_of row.model.blake3_hash

is_orphan-ref_status :
    (row : GcRow)
    → is_orphan (ref_status row.model.pinned row.workflow_ref_count row.alias_count) ≡ is_free row
unfolding ref_status
is_orphan-ref_status row = ground arith

-- The hash prefixes of a list of preview items.
pub prefixes_of : List GcPreviewItem → List Text
prefixes_of items = map (λ (i : GcPreviewItem). i.hash_prefix) items

-- The bytes that the models of the rows take.
pub sizes_of : List GcRow → ℕ
sizes_of [] = 0
sizes_of (row ∷ rows) = row.model.size_bytes + sizes_of rows

-- `q` is `p` with the free models among the rows added to what would be quarantined.
abbrev Adds : List GcRow → GcPreview → GcPreview → Type 0
Adds free p q =
    (prefixes_of q.would_quarantine ≡ prefixes_of p.would_quarantine ++ map prefix_of_row free)
    × (p.total_reclaimable_bytes < 2 ^ 64
        → q.total_reclaimable_bytes ≡ (p.total_reclaimable_bytes + sizes_of free) % 2 ^ 64)

preview_all-Adds :
    (cas : CasStore) (w : World) (rows : List GcRow) (p : GcPreview)
    → Adds (select is_free rows) p (preview_all (map (candidate_of cas w) rows) p)
unfolding preview_all prefixes_of sizes_of ref_status
preview_all-Adds cas w [] p = (sym (append-nil _), λ k. omega (arith, k))
preview_all-Adds cas w (row ∷ rows) p = rw (sym (is_orphan-ref_status row)) (
    step (preview_all-Adds cas w rows)
      (ref_status row.model.pinned row.workflow_ref_count row.alias_count))
  where
    c : RefStatus → GcCandidate
    c s = record (candidate_of cas w row) { status = s }

    rest : List GcCandidate
    rest = map (candidate_of cas w) rows

    step :
        ((p' : GcPreview) → Adds (select is_free rows) p' (preview_all rest p'))
        → (s : RefStatus)
        → Adds
            (if is_orphan s then row ∷ select is_free rows else select is_free rows)
            p
            (preview_all rest (preview_status s (c s) p))
    step ih orphan_candidate =
        let (l, n) = ih (preview_status orphan_candidate (c orphan_candidate) p) in
        (
          l
              ∙ ap (λ xs. xs ++ map prefix_of_row (select is_free rows))
                  (map-append (λ (i : GcPreviewItem). i.hash_prefix) p.would_quarantine _)
              ∙ append_assoc _ (prefix_of_row row ∷ []) _,
          λ k. omega (arith, n (omega arith)),
        )
    step ih hard_reference = ih _
    step ih soft_reference = ih _
    step ih pinned = ih _
    step ih recently_used = ih _
    step ih unknown = ih _

map-map :
    {A B C : Type 0} (f : B → C) (g : A → B) (xs : List A)
    → map f (map g xs) ≡ map (λ x. f (g x)) xs
map-map f g [] = refl
map-map f g (x ∷ xs) = ap (λ ys. f (g x) ∷ ys) (map-map f g xs)

pub candidates-Ends :
    (gc : GcEngine) (w : World)
    → Ends
        (λ cs v. cs ≡ map (candidate_of gc.cas v) (get_gc_candidate_counts w.db))
        (λ _. Unit)
        (candidates gc w)
unfolding candidates
candidates-Ends gc w =
    Ends-bind (query get_gc_candidate_counts) _ w (query-Ends get_gc_candidate_counts w)
      (λ rows v (e, d, _).
        Ends-mono (gets-Ends {Bad = λ _. Unit} (λ x. map (candidate_of gc.cas x) rows) v)
          (λ cs u (g, _). g ∙ ap (λ r. map (candidate_of gc.cas u) r) e) (λ u g. g))
      (λ v e. tt)

-- If `preview` returns, what it says it would quarantine is what `list_orphans` lists, in the same
-- order, and the reclaimable bytes are the sum of the sizes of these models, modulo 2^64.
pub preview-list_orphans :
    (json : Serde) (gc : GcEngine) (w : World)
    → Ends
        (λ p _.
          (prefixes_of p.would_quarantine ≡ map hash_prefix_of (list_orphans w.db))
          × (p.total_reclaimable_bytes
              ≡ sizes_of (select is_free (get_gc_candidate_counts w.db)) % 2 ^ 64))
        (λ _. Unit)
        (preview json gc w)
unfolding preview list_orphans prefixes_of
preview-list_orphans json gc w =
    Ends-bind (candidates gc) _ w (candidates-Ends gc w)
      (λ cs v e.
        Ends-bind (try (list json gc.quarantine)) _ v (any_end (try (list json gc.quarantine)) v)
          (λ r u _. Ends-pure _ u (total cs v e)) (λ u _. tt))
      (λ v _. tt)
  where
    rows : List GcRow
    rows = get_gc_candidate_counts w.db

    total :
        (cs : List GcCandidate) (v : World)
        → cs ≡ map (candidate_of gc.cas v) rows
        → (prefixes_of (preview_all cs no_preview).would_quarantine
            ≡ map hash_prefix_of (list_orphans w.db))
          × ((preview_all cs no_preview).total_reclaimable_bytes
              ≡ sizes_of (select is_free rows) % 2 ^ 64)
    total cs v e =
        let (l, n) = preview_all-Adds gc.cas v rows no_preview in
        rw e (
          l
              ∙ sym (
                  map-map hash_prefix_of (λ (row : GcRow). row.model.blake3_hash)
                    (select is_free rows)),
          omega (arith, n (omega arith)),
        )
