-- ===== src/Dedup/Linked.antt =====
-- What the link phase of `execute_dedup_group` (crates/modeld-core/src/dedup.rs, links.rs) leaves
-- alone: every path that it does not replace.
use model_id.Base.{
  ℕ, ◌≡◌, ◌≢◌, Bool, true, false, Option, none, some, List, [], ◌∷◌, All, list_eq, nat_eq, ◌==◌,
}
use model_id.Base.Text.{Text}
use model_id.Base.Dict.{lookup}
use model_id.Base.Results.{Result, ok, err}
use model_id.Hash.{Blake3Hash}
use model_id.Db.{Alias}
use model_id.Db.Enums.{AliasType, hardlink, symlink, junction, reference_only, original}
use model_id.Links.{
  failed, LinkCapability, hardlink_after, symlink_after, create_hardlink, create_symlink,
  create_across, create_link,
}
use model_id.Platform
use model_id.Platform.{is_same_volume, check_file_locked}
use model_id.Dedup
use model_id.Dedup.{DedupEngine, DedupStrategy, DuplicateGroup}
use model_id.Dedup.Linking.{
  DedupGroupResult, replaces, put_alias, add_original, resolve, link_by, link_duplicates,
  keep_or_link, link_canonical, cas_path_for_hash, type_of,
}
use model_id.Dedup.Linking.{link_group}
use model_id.Dedup.{CanonicalSelection}
use model_id.Db.Enums
use model_id.Tx.{commit}
use model_id.Tx.Rollback.{finish-Keeps}
use model_id.Sys.Apart.{query-Keeps}
use model_id.Sys.{FilePath, Node}
use model_id.Sys.Keeps.{Keeps, Keeps-pure, Keeps-bind, Keeps-try, Keeps-if, Keeps-now}
use model_id.Sys.Apart.{len-Keeps, execute-Keeps_files, attempt-Keeps_files}
use model_id.Sys.Walk.{remove_file-Keeps}
use model_id.Sys.Links.{hard_link-Keeps, symlink-Keeps}

module _ (Q : Option Node → Type 0) (q : FilePath) where
  pub put_alias-Keeps :
      (hash : Blake3Hash) (path : FilePath) (t : AliasType)
      → Keeps (λ fs _. Q (lookup q fs)) (put_alias hash path t)
  put_alias-Keeps hash path t =
      Keeps-bind _ _ (Keeps-try _ (execute-Keeps_files {P = λ fs. Q (lookup q fs)} _)) λ _.
        Keeps-bind _ _ Keeps-now λ at.
          Keeps-bind _ _ (attempt-Keeps_files {P = λ fs. Q (lookup q fs)} _) λ _. Keeps-pure tt

  pub add_original-Keeps :
      (hash : Blake3Hash) (path : FilePath) (known : Option Alias)
      → Keeps (λ fs _. Q (lookup q fs)) (add_original hash path known)
  add_original-Keeps hash path (some a) = Keeps-pure tt
  add_original-Keeps hash path none =
      Keeps-bind _ _ Keeps-now
        λ at. Keeps-bind _ _ (attempt-Keeps_files {P = λ fs. Q (lookup q fs)} _) λ _. Keeps-pure tt

  module _ (source target : FilePath) (apart : source ≢ q) where
    create_hardlink-Keeps : Keeps (λ fs _. Q (lookup q fs)) (create_hardlink source target)
    unfolding create_hardlink
    create_hardlink-Keeps = Keeps-bind _ _ (Keeps-try _ (remove_file-Keeps Q source q apart)) after
      where
        after :
            (r : Result (Unit {0}))
            → Keeps (λ fs _. Q (lookup q fs)) (hardlink_after source target r)
        after (err e) = Keeps-pure failed
        after (ok u) =
            Keeps-bind _ _ (Keeps-try _ (hard_link-Keeps Q q source apart target)) λ r. Keeps-pure _

    create_symlink-Keeps : Keeps (λ fs _. Q (lookup q fs)) (create_symlink source target)
    unfolding create_symlink
    create_symlink-Keeps = Keeps-bind _ _ (Keeps-try _ (remove_file-Keeps Q source q apart)) after
      where
        after :
            (r : Result (Unit {0}))
            → Keeps (λ fs _. Q (lookup q fs)) (symlink_after source target r)
        after (err e) = Keeps-pure failed
        after (ok u) =
            Keeps-bind _ _ (Keeps-try _ (symlink-Keeps Q q source apart target)) λ r. Keeps-pure _

    pub create_link-Keeps :
        (device : FilePath → ℕ) (capability : LinkCapability)
        → Keeps (λ fs _. Q (lookup q fs)) (create_link device source target capability)
    unfolding create_link
    create_link-Keeps device capability =
        Keeps-bind _ _
          (Keeps-bind _ _ (Keeps-try _ (len-Keeps {P = λ fs _. Q (lookup q fs)} source)) λ m1.
            Keeps-bind _ _ (Keeps-try _ (len-Keeps {P = λ fs _. Q (lookup q fs)} target))
              λ m2. Keeps-pure _)
          by_volume
      where
        by_volume :
            (same : Bool)
            → Keeps (λ fs _. Q (lookup q fs)) (create_across device source target capability same)
        by_volume true = create_hardlink-Keeps
        by_volume false =
            Keeps-if capability.has_symlink_privilege _ _ (λ _. create_symlink-Keeps)
              λ _. Keeps-pure _

  is_same_volume-Keeps :
      (device : FilePath → ℕ) (canonicalize : FilePath → Option FilePath) (p1 p2 : FilePath)
      → Keeps (λ fs _. Q (lookup q fs)) (Platform.is_same_volume device canonicalize p1 p2)
  unfolding Platform.is_same_volume
  is_same_volume-Keeps device canonicalize p1 p2 =
      Keeps-bind _ _ (Keeps-try _ (len-Keeps {P = λ fs _. Q (lookup q fs)} p1)) λ m1.
        Keeps-bind _ _ (Keeps-try _ (len-Keeps {P = λ fs _. Q (lookup q fs)} p2)) λ m2. Keeps-pure _

  module _ (blake3 : Text → Blake3Hash) (device : FilePath → ℕ)
      (canonicalize : FilePath → Option FilePath) (capability : LinkCapability)
      (e : DedupEngine) where
    resolve-Keeps :
        (s : DedupStrategy) (source target : FilePath)
        → Keeps
            (λ fs _. Q (lookup q fs))
            (resolve e blake3 device canonicalize capability s source target)
    resolve-Keeps Dedup.hardlink source target =
        Keeps-bind _ _ (is_same_volume-Keeps device canonicalize source target) λ same. Keeps-pure _
    resolve-Keeps Dedup.symlink source target = Keeps-pure _
    resolve-Keeps Dedup.copy_to_cas source target = Keeps-pure _
    resolve-Keeps Dedup.virtual_alias source target = Keeps-pure _

    link_by-Keeps :
        (s : DedupStrategy) (path cas_path : FilePath)
        → path ≢ q
        → Keeps
            (λ fs _. Q (lookup q fs))
            (link_by e blake3 device canonicalize capability s path cas_path)
    link_by-Keeps Dedup.virtual_alias path cas_path n = Keeps-pure _
    link_by-Keeps Dedup.copy_to_cas path cas_path n = Keeps-pure _
    link_by-Keeps Dedup.hardlink path cas_path n =
        create_link-Keeps path cas_path n device capability
    link_by-Keeps Dedup.symlink path cas_path n =
        create_link-Keeps path cas_path n device capability

    pub link_duplicates-Keeps :
        (group : DuplicateGroup) (ps : List FilePath) (r : DedupGroupResult)
        → All (λ p. p ≢ q) ps
        → Keeps
            (λ fs _. Q (lookup q fs))
            (link_duplicates e blake3 device canonicalize capability group ps r)
    unfolding link_duplicates
    link_duplicates-Keeps group [] r n = Keeps-pure r
    link_duplicates-Keeps group (p ∷ ps) r (n, ns) =
        Keeps-bind _ _
          (Keeps-bind _ _ (resolve-Keeps _ p _) λ s.
            Keeps-bind _ _ (link_by-Keeps s p _ n) λ made.
              Keeps-bind _ _ (put_alias-Keeps group.hash p (type_of made)) λ _. Keeps-pure _)
          λ r'. link_duplicates-Keeps group ps r' ns

    keep_or_link-Keeps :
        (group : DuplicateGroup) (canonical : FilePath) (r : DedupGroupResult)
        (o : Option AliasType)
        → Keeps
            (λ fs _. Q (lookup q fs))
            (keep_or_link e blake3 device canonicalize capability group canonical r o)
    keep_or_link-Keeps group canonical r none = Keeps-pure r
    keep_or_link-Keeps group canonical r (some t) =
        Keeps-bind _ _ (put_alias-Keeps group.hash canonical t) λ _. Keeps-pure _

    pub link_canonical-Keeps :
        (group : DuplicateGroup) (canonical : FilePath) (r : DedupGroupResult)
        → (canonical == cas_path_for_hash e group.hash ≡ false → canonical ≢ q)
        → Keeps
            (λ fs _. Q (lookup q fs))
            (link_canonical e blake3 device canonicalize capability group canonical r)
    unfolding link_canonical
    link_canonical-Keeps group canonical r n =
        Keeps-if (canonical == _) _ _ (λ _. Keeps-pure r)
          λ other.
            Keeps-bind _ _ (create_link-Keeps canonical _ (n other) device capability)
              λ made. keep_or_link-Keeps group canonical r (replaces made)

    pub link_group-Keeps :
        (tx_id : Text) (group : DuplicateGroup) (s : CanonicalSelection)
        → All (λ p. p ≢ q) s.duplicates
        → (s.canonical == cas_path_for_hash e group.hash ≡ false → s.canonical ≢ q)
        → Keeps
            (λ fs _. Q (lookup q fs))
            (link_group e blake3 device canonicalize capability tx_id group s)
    unfolding commit
    link_group-Keeps tx_id group s ns n =
        Keeps-bind _ _ (query-Keeps {P = λ fs _. Q (lookup q fs)} _) λ known.
          Keeps-bind _ _ (add_original-Keeps group.hash s.canonical known) λ _.
            Keeps-bind _ _ (link_duplicates-Keeps group s.duplicates _ ns) λ r.
              Keeps-bind _ _ (link_canonical-Keeps group s.canonical r n) λ r'.
                Keeps-bind _ _ (finish-Keeps {P = λ fs. Q (lookup q fs)} tx_id Enums.committed none)
                  λ _. Keeps-pure r'
