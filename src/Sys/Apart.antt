-- ===== src/Sys/Apart.antt =====
-- Calls on files leave the database alone, and statements leave the files alone.
use model_id.Base.{◌≤◌, arith, ◌≡◌, refl, ap, subst, sym, Option, none, some, list_eq, nat_eq}
use model_id.Base.Text.{Text}
use model_id.Base.Dict.{lookup}
use model_id.Base.Results.{Result, ok, err, Error}
use model_id.Db.{Database}
use model_id.Sys.{
  FilePath, Fs, Node, dir, file, Outcome, fine, fails, torn, World, M, call, lift, now, try,
  on_outcome,
}
use model_id.Sys.Files.{
  target, on_way, create_dir_all, dirs_over, metadata_len, read_to_string, read_node, remove_file,
  remove_node, remove_dir_all, remove_tree, part_of_tree, copy, copy_node, torn_copy, put_over,
  rename, move_node, move_to,
}
use model_id.Sys.Tables.{query, execute, attempt, attempted}
use model_id.Sys.Keeps.{Keeps, Keeps-call}
use model_id.Sys.Results.{Ends, Ends-ok, Ends-err}

module _ {P : Database → Type 0} where
  pub call-Keeps_db {ℓ} :
      {A : Type ℓ} (act : World → Result A × World) (partly : Outcome → World → World)
      → ((w : World) → (act w).1.db ≡ w.db)
      → ((o : Outcome) (w : World) → (partly o w).db ≡ w.db)
      → Keeps (λ _ db. P db) (call act partly)
  call-Keeps_db act partly h k =
      Keeps-call act partly (λ w p. subst P (sym (h w)) p) (λ o w p. subst P (sym (k o w)) p)

  pub create_dir_all-Keeps_db : (p : FilePath) → Keeps (λ _ db. P db) (create_dir_all p)
  unfolding create_dir_all
  create_dir_all-Keeps_db p = call-Keeps_db _ _ (λ w. by_node (on_way p w.fs) w) (λ o w. refl)
    where
      by_node : (n : Option Node) (w : World) → (dirs_over n p w).1.db ≡ w.db
      by_node none w = refl
      by_node (some dir) w = refl
      by_node (some (file t)) w = refl

  pub remove_file-Keeps_db : (p : FilePath) → Keeps (λ _ db. P db) (remove_file p)
  unfolding remove_file
  remove_file-Keeps_db p = call-Keeps_db _ _ (λ w. by_node (lookup p w.fs) w) (λ o w. refl)
    where
      by_node : (n : Option Node) (w : World) → (remove_node n p w).1.db ≡ w.db
      by_node none w = refl
      by_node (some dir) w = refl
      by_node (some (file t)) w = refl

  pub remove_dir_all-Keeps_db : (p : FilePath) → Keeps (λ _ db. P db) (remove_dir_all p)
  unfolding remove_dir_all
  remove_dir_all-Keeps_db p = call-Keeps_db _ _ (λ w. by_node (lookup p w.fs) w) part
    where
      by_node : (n : Option Node) (w : World) → (remove_tree n p w).1.db ≡ w.db
      by_node none w = refl
      by_node (some dir) w = refl
      by_node (some (file t)) w = refl

      part : (o : Outcome) (w : World) → (part_of_tree p o w).db ≡ w.db
      part fine w = refl
      part fails w = refl
      part (torn n) w = refl

  pub rename-Keeps_db : (from to : FilePath) → Keeps (λ _ db. P db) (rename from to)
  unfolding rename
  rename-Keeps_db from to =
      call-Keeps_db _ _ (λ w. by_node (lookup from w.fs) (target to w.fs) w) (λ o w. refl)
    where
      over : (m : Option Node) (t : Text) (w : World) → (move_to m t from to w).1.db ≡ w.db
      over none t w = refl
      over (some dir) t w = refl
      over (some (file s)) t w = refl

      by_node : (n m : Option Node) (w : World) → (move_node n from to w).1.db ≡ w.db
      by_node none m w = refl
      by_node (some dir) m w = refl
      by_node (some (file t)) m w = over (target to w.fs) t w

  pub copy-Keeps_db : (from to : FilePath) → Keeps (λ _ db. P db) (copy from to)
  unfolding copy
  copy-Keeps_db from to =
      call-Keeps_db _ _ (λ w. by_node (lookup from w.fs) w) (λ o w. part (lookup from w.fs) o w)
    where
      over : (m : Option Node) (t : Text) (w : World) → (put_over m to t w).1.db ≡ w.db
      over none t w = refl
      over (some dir) t w = refl
      over (some (file s)) t w = refl

      by_node : (n : Option Node) (w : World) → (copy_node n to w).1.db ≡ w.db
      by_node none w = refl
      by_node (some dir) w = refl
      by_node (some (file t)) w = over (target to w.fs) t w

      part : (n : Option Node) (o : Outcome) (w : World) → (torn_copy n to o w).db ≡ w.db
      part none o w = refl
      part (some dir) o w = refl
      part (some (file t)) fine w = refl
      part (some (file t)) fails w = refl
      part (some (file t)) (torn n) w = over (target to w.fs) _ w

pub execute-Ends :
    (f : Database → Database) (w : World)
    → Ends
        (λ _ v. (v.db ≡ f w.db) × (v.fs ≡ w.fs))
        (λ v. (v.db ≡ w.db) × (v.fs ≡ w.fs))
        (execute f w)
unfolding execute call
execute-Ends f w = by_outcome _ _ refl refl
  where
    by_outcome :
        (o : Outcome) (v : World)
        → v.db ≡ w.db
        → v.fs ≡ w.fs
        → Ends {A = Unit {0}}
            (λ _ u. (u.db ≡ f w.db) × (u.fs ≡ w.fs))
            (λ u. (u.db ≡ w.db) × (u.fs ≡ w.fs))
            (on_outcome (λ v. (ok tt, record v { db = f v.db })) (λ o v. v) o v)
    by_outcome fine v d e = Ends-ok (ap f d, e)
    by_outcome fails v d e = Ends-err (d, e)
    by_outcome (torn n) v d e = Ends-err (d, e)

pub execute-Keeps_files :
    {P : Fs → Type 0} (f : Database → Database) → Keeps (λ fs _. P fs) (execute f)
unfolding execute
execute-Keeps_files f = Keeps-call _ _ (λ w h. h) (λ o w h. h)

pub Ends-either {ℓ} :
    {A : Type ℓ} {Q : World → Type 0} (x : Result A × World) → Ends (λ _ v. Q v) Q x → Q x.1
Ends-either (ok a, v) e = e.on_ok a refl
Ends-either (err b, v) e = e.on_err b refl

-- A run that keeps `P` whether it returns or throws.
pub Keeps-Ends_both {ℓ} :
    {A : Type ℓ} {P : Fs → Database → Type 0} (m : M A)
    → ((w : World) → P w.fs w.db → Ends (λ _ v. P v.fs v.db) (λ v. P v.fs v.db) (m w))
    → Keeps P m
Keeps-Ends_both m h = record { at = λ w p. Ends-either (m w) (h w p) }

pub query-Keeps {ℓ} :
    {A : Type ℓ} {P : Fs → Database → Type 0} (f : Database → A) → Keeps P (query f)
unfolding query
query-Keeps f = Keeps-call _ _ (λ w h. h) (λ o w h. h)

pub attempt-Ends :
    {A : Type 0} (f : Database → Result (A × Database)) (w : World)
    → Ends (λ a v. f w.db ≡ ok (a, v.db)) (λ _. Unit) (attempt f w)
unfolding attempt call
attempt-Ends {A} f w = by_outcome _ _ refl
  where
    by_result :
        (r : Result (A × Database)) (v : World)
        → f w.db ≡ r
        → Ends (λ a u. f w.db ≡ ok (a, u.db)) (λ _. Unit) (attempted r v)
    by_result (ok (a, db)) v e = Ends-ok e
    by_result (err b) v e = Ends-err tt

    by_outcome :
        (o : Outcome) (v : World)
        → v.db ≡ w.db
        → Ends
            (λ a u. f w.db ≡ ok (a, u.db))
            (λ _. Unit)
            (on_outcome (λ v. attempted (f v.db) v) (λ o v. v) o v)
    by_outcome fine v d = by_result (f v.db) v (ap f (sym d))
    by_outcome fails v d = Ends-err tt
    by_outcome (torn n) v d = Ends-err tt

-- A statement that keeps `P` when it succeeds.
pub attempt-Keeps_db :
    {A : Type 0} {P : Database → Type 0} (f : Database → Result (A × Database))
    → ((db db' : Database) (a : A) → f db ≡ ok (a, db') → P db → P db')
    → Keeps (λ _ db. P db) (attempt f)
unfolding attempt
attempt-Keeps_db {A} {P} f k = Keeps-call _ _ (λ w h. by_result (f w.db) w refl h) (λ o w h. h)
  where
    by_result :
        (r : Result (A × Database)) (w : World) → f w.db ≡ r → P w.db → P (attempted r w).1.db
    by_result (ok (a, db)) w e h = k w.db db a e h
    by_result (err x) w e h = h

pub execute-Keeps_db :
    {P : Database → Type 0} (f : Database → Database)
    → ((db : Database) → P db → P (f db))
    → Keeps (λ _ db. P db) (execute f)
unfolding execute
execute-Keeps_db f k = Keeps-call _ _ (λ w h. k w.db h) (λ o w h. h)

pub now-Ends :
    (w : World) → Ends (λ at v. (w.clock ≤ at) × (v.db ≡ w.db) × (v.fs ≡ w.fs)) (λ _. ⊥) (now w)
unfolding now
now-Ends w = Ends-ok (omega arith, refl, refl)

-- Reading changes nothing.
pub read-Keeps : {P : Fs → Database → Type 0} (p : FilePath) → Keeps P (read_to_string p)
unfolding read_to_string
read-Keeps {P} p = Keeps-call _ _ (λ w h. by_node (lookup p w.fs) w h) (λ o w h. h)
  where
    by_node :
        (n : Option Node) (w : World) → P w.fs w.db → P (read_node n w).1.fs (read_node n w).1.db
    by_node none w h = h
    by_node (some dir) w h = h
    by_node (some (file t)) w h = h

pub len-Keeps : {P : Fs → Database → Type 0} (p : FilePath) → Keeps P (metadata_len p)
unfolding metadata_len
len-Keeps p = Keeps-call _ _ (λ w h. ground arith) (λ o w h. h)

-- What a call whose result is looked at comes to.
pub tried-Ends :
    {A : Type 0} {Good : A → World → Type 0} {Bad Bad' : World → Type 0} (m : M A) (w : World)
    → Ends Good Bad (m w)
    → Ends
        (λ r v. ((a : A) → r ≡ ok a → Good a v) × ((e : Error) → r ≡ err e → Bad v))
        Bad'
        (try m w)
unfolding try
tried-Ends m w h = Ends-ok (h.on_ok, h.on_err)

pub lift-Ends :
    {A : Type 0} (r : Result A) (w : World)
    → Ends (λ a v. (r ≡ ok a) × (v ≡ w)) (λ v. v ≡ w) (lift r w)
unfolding lift
lift-Ends (ok a) w = Ends-ok (refl, refl)
lift-Ends (err e) w = Ends-err refl

pub attempt-Keeps_files :
    {A : Type 0} {P : Fs → Type 0} (f : Database → Result (A × Database))
    → Keeps (λ fs _. P fs) (attempt f)
unfolding attempt
attempt-Keeps_files {A} {P} f = Keeps-call _ _ (λ w h. by_result (f w.db) w h) (λ o w h. h)
  where
    by_result : (r : Result (A × Database)) (w : World) → P w.fs → P (attempted r w).1.fs
    by_result (ok (a, db)) w h = h
    by_result (err e) w h = h
