-- ===== src/Sys/Walk.antt =====
-- Walks over directories: what the code asks of `std::fs` on the way, and a bound for their depth.
use model_id.Base.{
  ℕ, ◌<◌, ◌≡◌, ◌≢◌, refl, sym, subst, Bool, true, false, ◌&&◌, Option, none, some, List, [], ◌∷◌,
  arith, max, length, All, list_eq, nat_eq, ◌==◌,
}
use model_id.Base.Text.{Text}
use model_id.Base.Dict.{lookup, erase, lookup-erase}
use model_id.Base.Results.{Result, ok, err, io_error}
use model_id.Db.{Database}
use model_id.Sys.{FilePath, Fs, Node, dir, file, Outcome, World, M, call, try, ◌>>=◌}
use model_id.Sys.Files.{
  children, parent, is_under, read_dir, remove_file, remove_node, create_dir_all, dirs_over, on_way,
  make_dirs,
}
use model_id.Sys.Dirs.{lookup-make_dirs}
use model_id.Sys.Keeps.{Keeps, Keeps-call, Holds}
use model_id.Sys.Results.{Ends, Ends-ok, Ends-bind, Ends-and, Keeps-Ends, read_dir-Ends}
use model_id.Sys.Apart.{Keeps-Ends_both}

abbrev pub dir_node : Option Node → Bool
dir_node none = false
dir_node (some dir) = true
dir_node (some (file t)) = false

-- `path.is_dir()`
abbrev pub is_dir : FilePath → World → Bool
is_dir p w = dir_node (lookup p w.fs)

-- `into_iter().flatten()` of what `read_dir` gave
abbrev pub entries_of : Result (List FilePath) → List FilePath
entries_of (ok ps) = ps
entries_of (err e) = []

abbrev nothing : Outcome → World → World
nothing o w = w

abbrev pub remove_empty : Option Node → List FilePath → FilePath → World → Result (Unit {0}) × World
remove_empty (some dir) [] p w = (ok tt, record w { fs = erase p w.fs })
remove_empty (some dir) (q ∷ qs) p w = (err io_error, w)
remove_empty (some (file t)) qs p w = (err io_error, w)
remove_empty none qs p w = (err io_error, w)

-- `remove_dir(path)`, of a directory with nothing in it
unfoldable pub remove_dir : FilePath → M (Unit {0})
unfolding children
remove_dir p = call (λ w. remove_empty (lookup p w.fs) (children p w.fs) p w) nothing

-- The length of the longest path: more directories do not stand inside one another.
unfoldable pub deepest : Fs → ℕ
deepest [] = 0
deepest ((p, n) ∷ fs) = max (length p) (deepest fs)

-- Another path is left alone.
pub remove_dir-Keeps :
    (Q : Option Node → Type 0) (p q : FilePath)
    → p ≢ q
    → Keeps (λ fs _. Q (lookup q fs)) (remove_dir p)
unfolding remove_dir
remove_dir-Keeps Q p q n =
    Keeps-call _ _ (λ w h. by_node (lookup p w.fs) (children p w.fs) w h) (λ o w h. h)
  where
    kept : (w : World) → lookup q (erase p w.fs) ≡ lookup q w.fs
    kept w = ground (arith, lookup-erase q p w.fs)

    by_node :
        (m : Option Node) (qs : List FilePath) (w : World)
        → Q (lookup q w.fs)
        → Q (lookup q (remove_empty m qs p w).1.fs)
    by_node none qs w h = h
    by_node (some (file t)) qs w h = h
    by_node (some dir) (x ∷ qs) w h = h
    by_node (some dir) [] w h = subst Q (sym (kept w)) h

-- So it is by the removal of a file.
pub remove_file-Keeps :
    (Q : Option Node → Type 0) (p q : FilePath)
    → p ≢ q
    → Keeps (λ fs _. Q (lookup q fs)) (remove_file p)
unfolding remove_file
remove_file-Keeps Q p q n = Keeps-call _ _ (λ w h. by_node (lookup p w.fs) w h) (λ o w h. h)
  where
    kept : (w : World) → lookup q (erase p w.fs) ≡ lookup q w.fs
    kept w = ground (arith, lookup-erase q p w.fs)

    by_node :
        (m : Option Node) (w : World) → Q (lookup q w.fs) → Q (lookup q (remove_node m p w).1.fs)
    by_node none w h = h
    by_node (some dir) w h = h
    by_node (some (file t)) w h = subst Q (sym (kept w)) h

-- So it is when directories are made at shorter paths.
pub create_dir_all-Keeps :
    (Q : Option Node → Type 0) (p q : FilePath)
    → length p < length q
    → Keeps (λ fs _. Q (lookup q fs)) (create_dir_all p)
unfolding create_dir_all
create_dir_all-Keeps Q p q shorter =
    Keeps-call _ _ (λ w h. by_node (on_way p w.fs) w h) (λ o w h. h)
  where
    made : (w : World) → Q (lookup q w.fs) → Q (lookup q (make_dirs [] p w.fs))
    made w h = subst Q (sym (lookup-make_dirs q [] p w.fs (omega arith))) h

    by_node :
        (m : Option Node) (w : World) → Q (lookup q w.fs) → Q (lookup q (dirs_over m p w).1.fs)
    by_node none w h = made w h
    by_node (some dir) w h = made w h
    by_node (some (file t)) w h = h

-- A file is not removed as a directory.
pub remove_dir-Holds : (q : FilePath) (t : Text) (p : FilePath) → Keeps (Holds q t) (remove_dir p)
unfolding remove_dir
remove_dir-Holds q t p =
    Keeps-call _ _ (λ w h. by_node (lookup p w.fs) (children p w.fs) w refl h) (λ o w h. h)
  where
    by_node :
        (m : Option Node) (qs : List FilePath) (w : World)
        → lookup p w.fs ≡ m
        → lookup q w.fs ≡ some (file t)
        → lookup q (remove_empty m qs p w).1.fs ≡ some (file t)
    by_node none qs w e h = h
    by_node (some (file s)) qs w e h = h
    by_node (some dir) (x ∷ qs) w e h = h
    by_node (some dir) [] w e h = ground (arith, lookup-erase q p w.fs, e, h)

-- A walk sees only what stands right below.
pub entries-Ends :
    {Bad : World → Type 0} (p : FilePath) (w : World)
    → Ends (λ r _. All (λ q. parent q ≡ some p) (entries_of r)) Bad (try (read_dir p) w)
unfolding try
entries-Ends {Bad} p w = by_result (read_dir p w) (read_dir-Ends p w)
  where
    by_result :
        (x : Result (List FilePath) × World)
        → Ends (λ qs _. All (λ q. parent q ≡ some p) qs) (λ _. Unit {0}) x
        → Ends (λ r _. All (λ q. parent q ≡ some p) (entries_of r)) Bad (ok x.0, x.1)
    by_result (ok qs, v) h = Ends-ok (h.on_ok qs refl)
    by_result (err e, v) h = Ends-ok tt

pub read_dir-Keeps : {P : Fs → Database → Type 0} (p : FilePath) → Keeps P (read_dir p)
unfolding read_dir
read_dir-Keeps p = Keeps-call _ _ (λ w h. h) (λ o w h. h)

-- A step of which something is known, in front of steps that need to know it.
pub Keeps-knowing :
    {A B : Type 0} {P : Fs → Database → Type 0} {G : A → Type 0} (m : M A) (f : A → M B)
    → Keeps P m
    → ((w : World) → Ends (λ a _. G a) (λ _. Unit {0}) (m w))
    → ((a : A) → G a → Keeps P (f a))
    → Keeps P (m >>= f)
Keeps-knowing {P = P} m f k g h = Keeps-Ends_both (m >>= f) λ w p.
    Ends-bind m f w (Ends-and m w (g w) k p) (λ a v (x, y). Keeps-Ends (f a) v (h a x) y)
      (λ v (_, y). y)

-- What stands right below a path below `base` stands below `base`.
pub is_under-parent :
    (base p q : FilePath) → parent q ≡ some p → is_under base p ≡ true → is_under base q ≡ true
unfolding is_under parent
is_under-parent [] p q e h = refl
is_under-parent (b ∷ base) [] q e h = cc
is_under-parent (b ∷ base) (c ∷ p) [] e h = cc
is_under-parent (b ∷ base) (c ∷ p) (d ∷ []) e h = cc
is_under-parent (b ∷ base) (c ∷ p) (d ∷ d' ∷ q) e h =
    by_parent (parent (d' ∷ q)) refl e (is_under-parent base p (d' ∷ q))
  where
    by_parent :
        (o : Option FilePath)
        → parent (d' ∷ q) ≡ o
        → elim o [ none ↦ none | some r ↦ some (d ∷ r) ] ≡ some (c ∷ p)
        → (parent (d' ∷ q) ≡ some p → is_under base p ≡ true → is_under base (d' ∷ q) ≡ true)
        → (b == d && is_under base (d' ∷ q)) ≡ true
    by_parent none k e rest = cc
    by_parent (some r) k e rest = ground (arith, k, e, h, rest)

pub remove_dir-Keeps_db :
    {P : Database → Type 0} (p : FilePath) → Keeps (λ _ db. P db) (remove_dir p)
unfolding remove_dir
remove_dir-Keeps_db {P} p =
    Keeps-call _ _ (λ w h. by_node (lookup p w.fs) (children p w.fs) w h) (λ o w h. h)
  where
    by_node :
        (m : Option Node) (qs : List FilePath) (w : World) → P w.db → P (remove_empty m qs p w).1.db
    by_node none qs w h = h
    by_node (some (file t)) qs w h = h
    by_node (some dir) (x ∷ qs) w h = h
    by_node (some dir) [] w h = h
