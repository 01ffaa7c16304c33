-- ===== src/Sys/Files.antt =====
-- The functions of `std::fs` that the code calls.
use model_id.Base.{
  ℕ, zero, suc, ◌≡◌, ap, Bool, true, false, ◌||◌, Option, none, some, List, [], ◌∷◌, arith, length,
  take, list_eq, nat_eq, ◌==◌, ==_iff, All, if◌then◌else◌,
}
use model_id.Base.Text.{Text}
use model_id.Base.Dict.{lookup, insert, erase, lookup-insert}
use model_id.Base.Results.{Result, ok, err, io_error}
pub use model_id.Sys.Paths.{join, file_name-join, parent-join}
unfoldable pub use model_id.Sys.Paths.{parent, file_name, extension, with_extension, is_under}
use model_id.Sys.{FilePath, Fs, Node, dir, file, Outcome, fine, fails, torn, World, M, call}

abbrev pub is_some {ℓ} : {A : Type ℓ} → Option A → Bool
is_some none = false
is_some (some a) = true

-- `path.exists()`
abbrev pub exists : FilePath → World → Bool
exists p w = is_some (lookup p w.fs)

abbrev with_fs : Fs → World → World
with_fs fs w = record w { fs = fs }

abbrev pub add_dir : FilePath → Fs → Fs
add_dir p fs = if is_some (lookup p fs) then fs else insert p dir fs

unfoldable pub make_dirs : FilePath → FilePath → Fs → Fs
make_dirs done [] fs = fs
make_dirs done (c ∷ rest) fs = make_dirs (join done c) rest (add_dir (join done c) fs)

abbrev nothing : Outcome → World → World
nothing o w = w

abbrev pub is_dir_node : Option Node → Bool
is_dir_node none = false
is_dir_node (some dir) = true
is_dir_node (some (file t)) = false

-- A directory stands at the path, or it is the root.
abbrev pub is_place : FilePath → Fs → Bool
is_place p fs = p == [] || is_dir_node (lookup p fs)

-- What stands at a path to be written; a path in no directory is refused as a directory is.
unfoldable pub target : FilePath → Fs → Option Node
unfolding parent
target p fs = elim (parent p) [
  | none ↦ some dir
  | some r ↦ if is_place r fs then lookup p fs else some dir
]

abbrev pub is_file_node : Option Node → Bool
is_file_node none = false
is_file_node (some dir) = false
is_file_node (some (file t)) = true

-- A file stands at one of the paths that lead on from `done`.
unfoldable pub file_above : FilePath → FilePath → Fs → Bool
file_above done [] fs = false
file_above done (c ∷ rest) fs =
    is_file_node (lookup (join done c) fs) || file_above (join done c) rest fs

-- What stops `create_dir_all`: a file at the path or above it.
unfoldable pub on_way : FilePath → Fs → Option Node
unfolding file_above
on_way p fs = if file_above [] p fs then some (file []) else none

abbrev pub dirs_over : Option Node → FilePath → World → Result (Unit {0}) × World
dirs_over (some (file t)) p w = (err io_error, w)
dirs_over (some dir) p w = (ok tt, with_fs (make_dirs [] p w.fs) w)
dirs_over none p w = (ok tt, with_fs (make_dirs [] p w.fs) w)

unfoldable pub create_dir_all : FilePath → M (Unit {0})
unfolding make_dirs on_way
create_dir_all p = call (λ w. dirs_over (on_way p w.fs) p w) nothing

-- `metadata(path)?.len()`
unfoldable pub metadata_len : FilePath → M ℕ
metadata_len p =
    call
      (λ w. elim (lookup p w.fs) [
        | none ↦ (err io_error, w)
        | some dir ↦ (ok 0, w)
        | some (file t) ↦ (ok (length t), w)
      ])
      nothing

abbrev pub read_node : Option Node → World → Result Text × World
read_node (some (file t)) w = (ok t, w)
read_node (some dir) w = (err io_error, w)
read_node none w = (err io_error, w)

unfoldable pub read_to_string : FilePath → M Text
read_to_string p = call (λ w. read_node (lookup p w.fs) w) nothing

-- A directory is not written over.
abbrev pub put_over : Option Node → FilePath → Text → World → Result (Unit {0}) × World
put_over (some dir) p t w = (err io_error, w)
put_over (some (file s)) p t w = (ok tt, with_fs (insert p (file t) w.fs) w)
put_over none p t w = (ok tt, with_fs (insert p (file t) w.fs) w)

abbrev pub put_file : FilePath → Text → World → Result (Unit {0}) × World
put_file p t w = put_over (target p w.fs) p t w

-- What a write of `t` leaves when it breaks off.
abbrev pub torn_write : FilePath → Text → Outcome → World → World
torn_write p t (torn n) w = (put_file p (take n t) w).1
torn_write p t fine w = w
torn_write p t fails w = w

unfoldable pub write : FilePath → Text → M (Unit {0})
unfolding target
write p t = call (put_file p t) (torn_write p t)

abbrev pub copy_node : Option Node → FilePath → World → Result (Unit {0}) × World
copy_node (some (file t)) to w = put_file to t w
copy_node (some dir) to w = (err io_error, w)
copy_node none to w = (err io_error, w)

abbrev pub torn_copy : Option Node → FilePath → Outcome → World → World
torn_copy (some (file t)) to o w = torn_write to t o w
torn_copy (some dir) to o w = w
torn_copy none to o w = w

-- `copy(from, to)`, between two paths that differ
unfoldable pub copy : FilePath → FilePath → M (Unit {0})
unfolding target
copy from to =
    call (λ w. copy_node (lookup from w.fs) to w) (λ o w. torn_copy (lookup from w.fs) to o w)

-- The move itself, by what stands at the target.
abbrev pub move_to : Option Node → Text → FilePath → FilePath → World → Result (Unit {0}) × World
move_to (some dir) t from to w = (err io_error, w)
move_to (some (file s)) t from to w = (ok tt, with_fs (insert to (file t) (erase from w.fs)) w)
move_to none t from to w = (ok tt, with_fs (insert to (file t) (erase from w.fs)) w)

abbrev pub move_node : Option Node → FilePath → FilePath → World → Result (Unit {0}) × World
move_node (some (file t)) from to w = move_to (target to w.fs) t from to w
move_node (some dir) from to w = (err io_error, w)
move_node none from to w = (err io_error, w)

-- `rename(from, to)` of a file, between two paths that differ: all or nothing
unfoldable pub rename : FilePath → FilePath → M (Unit {0})
unfolding target
rename from to = call (λ w. move_node (lookup from w.fs) from to w) nothing

abbrev pub remove_node : Option Node → FilePath → World → Result (Unit {0}) × World
remove_node (some (file t)) p w = (ok tt, with_fs (erase p w.fs) w)
remove_node (some dir) p w = (err io_error, w)
remove_node none p w = (err io_error, w)

unfoldable pub remove_file : FilePath → M (Unit {0})
remove_file p = call (λ w. remove_node (lookup p w.fs) p w) nothing

-- The first so many paths at or below `base` go.
pub erase_under : FilePath → ℕ → Fs → Fs
erase_under base count [] = []
erase_under base zero fs = fs
erase_under base (suc count) ((q, n) ∷ fs) =
    let without = erase_under base count fs in
    let more = erase_under base (suc count) fs in if is_under base q then without else (q, n) ∷ more

abbrev pub part_of_tree : FilePath → Outcome → World → World
part_of_tree p (torn n) w = with_fs (erase_under p n w.fs) w
part_of_tree p fine w = w
part_of_tree p fails w = w

abbrev pub remove_tree : Option Node → FilePath → World → Result (Unit {0}) × World
remove_tree (some dir) p w = (ok tt, with_fs (erase_under p (length w.fs) w.fs) w)
remove_tree (some (file t)) p w = (err io_error, w)
remove_tree none p w = (err io_error, w)

-- `remove_dir_all(path)`; when it fails, a part of what is below may be gone
unfoldable pub remove_dir_all : FilePath → M (Unit {0})
unfolding erase_under
remove_dir_all p = call (λ w. remove_tree (lookup p w.fs) p w) (part_of_tree p)

abbrev is_child : FilePath → FilePath → Bool
is_child p q = elim (parent q) [ none ↦ false | some r ↦ r == p ]

unfoldable pub children : FilePath → Fs → List FilePath
children p [] = []
children p ((q, n) ∷ fs) = let rest = children p fs in if is_child p q then q ∷ rest else rest

-- `read_dir(path)`: the paths right below it
unfoldable pub read_dir : FilePath → M (List FilePath)
unfolding children parent
read_dir p = call (λ w. (ok (children p w.fs), w)) nothing

-- Making directories leaves what is there as it is.
pub make_dirs-keeps :
    (q : FilePath) (n : Node) (done p : FilePath) (fs : Fs)
    → lookup q fs ≡ some n
    → lookup q (make_dirs done p fs) ≡ some n
unfolding make_dirs
make_dirs-keeps q n done [] fs h = h
make_dirs-keeps q n done (c ∷ p) fs h =
    make_dirs-keeps q n (join done c) p _ (ground (arith, lookup-insert q (join done c) dir fs))

is_child-parent : (p q : FilePath) → is_child p q ≡ true → parent q ≡ some p
is_child-parent p q e = by_parent (parent q) e
  where
    by_parent :
        (o : Option FilePath) → elim o [ none ↦ false | some r ↦ r == p ] ≡ true → o ≡ some p
    by_parent none e = cc
    by_parent (some r) e = ap some ((==_iff r p).0 e)

pub children-All : (p : FilePath) (fs : Fs) → All (λ q. parent q ≡ some p) (children p fs)
unfolding children
children-All p [] = tt
children-All p ((q, n) ∷ fs) = ground (arith, children-All p fs, is_child-parent p q)
