-- ===== src/Quarantine/Success.antt =====
-- When `quarantine` (crates/modeld-core/src/quarantine.rs) returns.
use model_id.Base.{
  ◌≡◌, ◌≢◌, refl, ap, sym, ◌∙◌, Option, none, some, List, [], ◌∷◌, arith, list_eq, nat_eq, length,
  length-append,
}
use model_id.Base.Text.{Text}
use model_id.Base.Dict.{lookup, insert, lookup-insert}
use model_id.Base.Results.{ok, parse_error}
use model_id.Sys.{FilePath, Fs, Node, dir, file, World, try, now}
use model_id.Base.{◌==◌, ◌||◌, true, false}
use model_id.Sys.Files.{
  is_place, is_dir_node, target, on_way, file_above, parent-join, join, create_dir_all, make_dirs,
  make_dirs-keeps, metadata_len, put_over, write, rename, move_to,
}
use model_id.Sys.Dirs.{lookup-make_dirs, make_dirs-dir}
use model_id.Sys.Returns.{Returns, Returns-pure, Returns-call, Returns-bind, Returns-try}
use model_id.Quarantine.{
  QuarantineMeta, QuarantineManager, Serde, move_file, init, quarantine, meta_name, file_name_for,
  or_throw,
}
use model_id.Quarantine.Safe.{Outside}

module _ (q : QuarantineManager) (file_path : FilePath) (t : Text) where
  -- No call will fail, the file is there, and no directory stands where the quarantine puts files.
  pub record IsReady (w : World) : Type 0 where
    pub no_faults : w.faults ≡ []
    pub there : lookup file_path w.fs ≡ some (file t)
    pub free : (name : Text) → lookup (join q.quarantine_dir name) w.fs ≢ some dir

  Ready-same : (v w : World) → v.fs ≡ w.fs → v.faults ≡ [] → IsReady w → IsReady v
  Ready-same v w e n h = record {
    no_faults = n;
    there = ap (lookup file_path) e ∙ h.there;
    free = λ name d. h.free name (ap (lookup (join q.quarantine_dir name)) (sym e) ∙ d);
  }

  -- And the quarantine directory is there.
  abbrev IsOpen : World → Type 0
  IsOpen w = IsReady w × (is_place q.quarantine_dir w.fs ≡ true)

  Open-same : (v w : World) → v.fs ≡ w.fs → v.faults ≡ [] → IsOpen w → IsOpen v
  Open-same v w e n (h, k) = (Ready-same v w e n h, ap (is_place q.quarantine_dir) e ∙ k)

  init-Returns :
      (w : World)
      → file_above [] q.quarantine_dir w.fs ≡ false
      → IsReady w
      → Returns (λ _ v. IsOpen v) (create_dir_all q.quarantine_dir w)
  unfolding create_dir_all on_way list_eq
  init-Returns w no_file h = Returns-call _ _ w h.no_faults λ v e n.
      rw (ap (file_above [] q.quarantine_dir) e ∙ no_file) (record {
        value = tt;
        is_ok = refl;
        good = (
          made v (Ready-same v w e n h),
          placed q.quarantine_dir v.fs (ap (file_above [] q.quarantine_dir) e ∙ no_file),
        );
      })
    where
      made :
          (v : World) → IsReady v → IsReady (record v { fs = make_dirs [] q.quarantine_dir v.fs })
      made v h = record {
        no_faults = h.no_faults;
        there = make_dirs-keeps file_path (file t) [] q.quarantine_dir v.fs h.there;
        free = λ name d. h.free name (
            sym (
              lookup-make_dirs (join q.quarantine_dir name) [] q.quarantine_dir v.fs
                (omega (arith, length-append q.quarantine_dir (name ∷ []))))
            ∙ d);
      }

      placed :
          (d : FilePath) (fs : Fs)
          → file_above [] d fs ≡ false
          → is_place d (make_dirs [] d fs) ≡ true
      placed [] fs k = refl
      placed (c ∷ d) fs k = rw (make_dirs-dir [] c d fs k) refl

  len-Returns : (w : World) → IsOpen w → Returns (λ _ v. IsOpen v) (metadata_len file_path w)
  unfolding metadata_len
  len-Returns w h = Returns-call _ _ w h.0.no_faults λ v e n.
      rw (ap (lookup file_path) e ∙ h.0.there)
        (record { value = length t; is_ok = refl; good = Open-same v w e n h })

  -- Nothing that stands in an open quarantine directory is refused.
  target-join :
      (name : Text) (fs : Fs)
      → is_place q.quarantine_dir fs ≡ true
      → target (join q.quarantine_dir name) fs ≡ lookup (join q.quarantine_dir name) fs
  unfolding target
  target-join name fs k = ground (arith, parent-join q.quarantine_dir name, k)

  write-Returns :
      (name text : Text) (w : World)
      → join q.quarantine_dir name ≢ file_path
      → IsOpen w
      → Returns (λ _ v. IsOpen v) (write (join q.quarantine_dir name) text w)
  unfolding write
  write-Returns name text w apart h = Returns-call _ _ w h.0.no_faults λ v e n.
      rw (target-join name v.fs (Open-same v w e n h).1) (
        by_node (lookup (join q.quarantine_dir name) v.fs) v (Open-same v w e n h)
          ((Open-same v w e n h).0.free name))
    where
      put :
          (v : World)
          → IsReady v
          → IsReady (record v { fs = insert (join q.quarantine_dir name) (file text) v.fs })
      put v h = record {
        no_faults = h.no_faults;
        there =
            ground (
              arith,
              lookup-insert file_path (join q.quarantine_dir name) (file text) v.fs,
              h.there,
            );
        free = λ other d. ground (
          arith,
          lookup-insert (join q.quarantine_dir other) (join q.quarantine_dir name) (file text) v.fs,
          h.free other,
        );
      }

      longer : join q.quarantine_dir name ≢ q.quarantine_dir
      longer e = omega (arith, ap length e, length-append q.quarantine_dir (name ∷ []))

      placed :
          (fs : Fs)
          → is_place q.quarantine_dir fs ≡ true
          → is_place q.quarantine_dir (insert (join q.quarantine_dir name) (file text) fs) ≡ true
      placed fs k =
          ap (λ n. q.quarantine_dir == [] || is_dir_node n)
            (ground (
              arith,
              lookup-insert q.quarantine_dir (join q.quarantine_dir name) (file text) fs,
              longer,
            ))
          ∙ k

      opened :
          (v : World)
          → IsOpen v
          → IsOpen (record v { fs = insert (join q.quarantine_dir name) (file text) v.fs })
      opened v (h, k) = (put v h, placed v.fs k)

      by_node :
          (n : Option Node) (v : World)
          → IsOpen v
          → n ≢ some dir
          → Returns (λ _ v. IsOpen v) (put_over n (join q.quarantine_dir name) text v)
      by_node none v h k = record { value = tt; is_ok = refl; good = opened v h }
      by_node (some dir) v h k = absurd (k refl)
      by_node (some (file s)) v h k = record { value = tt; is_ok = refl; good = opened v h }

  rename-Returns :
      (name : Text) (w : World)
      → IsOpen w
      → Returns (λ _ _. Unit) (rename file_path (join q.quarantine_dir name) w)
  unfolding rename
  rename-Returns name w h = Returns-call _ _ w h.0.no_faults λ v e n.
      rw (ap (lookup file_path) e ∙ h.0.there, target-join name v.fs (Open-same v w e n h).1)
        (by_node (lookup (join q.quarantine_dir name) v.fs) v ((Open-same v w e n h).0.free name))
    where
      by_node :
          (n : Option Node) (v : World)
          → n ≢ some dir
          → Returns (λ _ _. Unit {0}) (move_to n t file_path (join q.quarantine_dir name) v)
      by_node none v k = record { value = tt; is_ok = refl; good = tt }
      by_node (some dir) v k = absurd (k refl)
      by_node (some (file s)) v k = record { value = tt; is_ok = refl; good = tt }

  move_file-Returns :
      (name : Text) (w : World)
      → IsOpen w
      → Returns (λ _ _. Unit) (move_file file_path (join q.quarantine_dir name) w)
  unfolding move_file
  move_file-Returns name w h =
      Returns-bind (try (rename file_path (join q.quarantine_dir name))) _ w
        (Returns-try (rename file_path (join q.quarantine_dir name)) w (rename-Returns name w h))
        λ r v (a, e, _). rw e (Returns-pure tt v tt)

  now-Returns : (w : World) → IsOpen w → Returns (λ _ v. IsOpen v) (now w)
  unfolding now
  now-Returns w h = record { value = _; is_ok = refl; good = Open-same _ w refl h.0.no_faults h }

  -- `quarantine` returns a path if no call fails, the file is there and not one of the quarantine
  -- directory, the metadata can be written as JSON, no file stands at the path of the quarantine
  -- directory or at one above it, and no directory where it puts files; the directory itself may be
  -- missing, and a write into a missing directory would fail.
  pub quarantine-Returns :
      (json : Serde) (hash reason : Text) (references : List FilePath) (w : World)
      → IsReady w
      → Outside q file_path
      → ((m : QuarantineMeta) → json.to_string_pretty m ≢ none)
      → file_above [] q.quarantine_dir w.fs ≡ false
      → (p : FilePath) × ((quarantine json q file_path hash reason references w).0 ≡ ok p)
  unfolding quarantine init
  quarantine-Returns json hash reason references w h outside writes no_file = (run.value, run.is_ok)
    where
      or_throw-Returns :
          (o : Option Text) (v : World)
          → o ≢ none
          → IsOpen v
          → Returns (λ _ u. IsOpen u) (or_throw parse_error o v)
      or_throw-Returns none v k h = absurd (k refl)
      or_throw-Returns (some text) v k h = Returns-pure text v h

      run : Returns (λ _ _. Unit {0}) (quarantine json q file_path hash reason references w)
      run = Returns-bind (create_dir_all q.quarantine_dir) _ w (init-Returns w no_file h) λ a w1 h1.
          Returns-bind now _ w1 (now-Returns w1 h1) λ at w2 h2.
            Returns-bind (metadata_len file_path) _ w2 (len-Returns w2 h2) λ size w3 h3.
              Returns-bind (or_throw parse_error _) _ w3 (or_throw-Returns _ w3 (writes _) h3)
                λ text w4 h4.
                  Returns-bind
                    (write (join q.quarantine_dir (meta_name (file_name_for hash at))) text) _ w4
                    (write-Returns (meta_name (file_name_for hash at)) text w4 (outside _) h4)
                    λ b w5 h5.
                      Returns-bind
                        (move_file file_path (join q.quarantine_dir (file_name_for hash at))) _ w5
                        (move_file-Returns (file_name_for hash at) w5 h5)
                        λ c w6 _. Returns-pure _ w6 tt
