-- ===== src/Sys/Keeps.antt =====
-- Invariants of actions: one rule for each way to build one.
use model_id.Base.{
  ◌≡◌, ◌≢◌, refl, Bool, true, false, Option, none, some, [], arith, take, if◌then◌else◌, list_eq,
  nat_eq,
}
use model_id.Base.Text.{Text}
use model_id.Base.Dict.{lookup, erase, lookup-insert, lookup-erase}
use model_id.Base.Results.{Result, ok, err, Error}
use model_id.Db.{Database}
use model_id.Sys.{
  FilePath, Fs, Node, dir, file, Outcome, fine, fails, torn, World, M, call, now, pure, throw, lift,
  gets, try, continue, on_outcome, ◌>>=◌,
}
use model_id.Sys.Files.{
  create_dir_all, metadata_len, read_to_string, write, copy, rename, remove_file, read_dir,
  make_dirs-keeps, put_file, torn_write, copy_node, torn_copy, move_node,
}

-- Whatever calls fail, and whether it returns or throws, `m` keeps `P` of the files and the
-- database.
pub record Keeps {ℓ} {A : Type ℓ} (P : Fs → Database → Type 0) (m : M A) : Type ℓ where
  pub at : (w : World) → P w.fs w.db → P (m w).1.fs (m w).1.db

module _ {P : Fs → Database → Type 0} where
  pub Keeps-pure {ℓ} : {A : Type ℓ} (a : A) → Keeps P (pure a)
  unfolding pure
  Keeps-pure a = record { at = λ w h. h }

  pub Keeps-throw {ℓ} : {A : Type ℓ} (e : Error) → Keeps P (throw {A = A} e)
  unfolding throw
  Keeps-throw e = record { at = λ w h. h }

  pub Keeps-lift {ℓ} : {A : Type ℓ} (r : Result A) → Keeps P (lift r)
  unfolding lift
  Keeps-lift r = record { at = λ w h. h }

  pub Keeps-gets {ℓ} : {A : Type ℓ} (f : World → A) → Keeps P (gets f)
  unfolding gets
  Keeps-gets f = record { at = λ w h. h }

  pub Keeps-try {ℓ} : {A : Type ℓ} (m : M A) → Keeps P m → Keeps P (try m)
  unfolding try
  Keeps-try m k = record { at = λ w h. k.at w h }

  pub Keeps-if {ℓ} :
      {A : Type ℓ} (test : Bool) (m other : M A)
      → (test ≡ true → Keeps P m)
      → (test ≡ false → Keeps P other)
      → Keeps P (if test then m else other)
  Keeps-if false m other _ h = h refl
  Keeps-if true m other h _ = h refl

  continue-Keeps {ℓ κ} :
      {A : Type ℓ} {B : Type κ} (r : Result A) (f : A → M B)
      → ((a : A) → Keeps P (f a))
      → (w : World) → P w.fs w.db
      → P (continue r f w).1.fs (continue r f w).1.db
  continue-Keeps (ok a) f kf w h = (kf a).at w h
  continue-Keeps (err e) f kf w h = h

  pub Keeps-bind {ℓ κ} :
      {A : Type ℓ} {B : Type κ} (first : M A) (next : A → M B)
      → Keeps P first
      → ((result : A) → Keeps P (next result))
      → Keeps P (first >>= next)
  unfolding ◌>>=◌
  Keeps-bind first next h step = record {
    at = λ w p. continue-Keeps (first w).0 next step (first w).1 (h.at w p);
  }

  -- A question whose answer the next step is told.
  pub Keeps-bind_gets {ℓ κ} :
      {A : Type ℓ} {B : Type κ} (f : World → A) (g : A → M B)
      → ((w : World) → Keeps P (g (f w)))
      → Keeps P (gets f >>= g)
  unfolding ◌>>=◌ gets
  Keeps-bind_gets f g k = record { at = λ w h. (k w).at w h }

  pub Keeps-call {ℓ} :
      {A : Type ℓ} (act : World → Result A × World) (partly : Outcome → World → World)
      → ((w : World) → P w.fs w.db → P (act w).1.fs (act w).1.db)
      → ((o : Outcome) (w : World) → P w.fs w.db → P (partly o w).fs (partly o w).db)
      → Keeps P (call act partly)
  unfolding call
  Keeps-call act partly ka kp = record { at = λ w h. by_outcome _ _ h }
    where
      by_outcome :
          (o : Outcome) (w : World)
          → P w.fs w.db
          → P (on_outcome act partly o w).1.fs (on_outcome act partly o w).1.db
      by_outcome fine w h = ka w h
      by_outcome fails w h = kp fails w h
      by_outcome (torn n) w h = kp (torn n) w h

  pub Keeps-now : Keeps P now
  unfolding now
  Keeps-now = record { at = λ w h. h }

pub Keeps-and {ℓ} :
    {A : Type ℓ} {P Q : Fs → Database → Type 0} {m : M A}
    → Keeps P m
    → Keeps Q m
    → Keeps (λ fs db. P fs db × Q fs db) m
Keeps-and k l = record { at = λ w h. (k.at w h.0, l.at w h.1) }

pub ruleset keeps_rules =
    (Keeps-pure, Keeps-throw, Keeps-lift, Keeps-gets, Keeps-try, Keeps-if, Keeps-bind, Keeps-now)

-- One file's content stands, whatever happens elsewhere.
abbrev pub Holds : FilePath → Text → Fs → Database → Type 0
Holds q t fs db = lookup q fs ≡ some (file t)

module _ (q : FilePath) (t : Text) where
  pub create_dir_all-Holds : (p : FilePath) → Keeps (Holds q t) (create_dir_all p)
  unfolding create_dir_all
  create_dir_all-Holds p =
      Keeps-call _ _ (λ w h. ground (arith, make_dirs-keeps q (file t) [] p w.fs)) (λ o w h. h)

  pub metadata_len-Holds : (p : FilePath) → Keeps (Holds q t) (metadata_len p)
  unfolding metadata_len
  metadata_len-Holds p = Keeps-call _ _ (λ w h. ground arith) (λ o w h. h)

  pub read_to_string-Holds : (p : FilePath) → Keeps (Holds q t) (read_to_string p)
  unfolding read_to_string
  read_to_string-Holds p = Keeps-call _ _ (λ w h. ground arith) (λ o w h. h)

  pub read_dir-Holds : (p : FilePath) → Keeps (Holds q t) (read_dir p)
  unfolding read_dir
  read_dir-Holds p = Keeps-call _ _ (λ w h. h) (λ o w h. h)

  pub remove_file-Holds : (p : FilePath) → p ≢ q → Keeps (Holds q t) (remove_file p)
  unfolding remove_file
  remove_file-Holds p n = Keeps-call _ _ (λ w h. ground (arith, lookup-erase q p w.fs)) (λ o w h. h)

  put_file-Holds :
      (p : FilePath) (s : Text) (w : World)
      → p ≢ q
      → Holds q t w.fs w.db
      → Holds q t (put_file p s w).1.fs (put_file p s w).1.db
  put_file-Holds p s w n h = ground (arith, lookup-insert q p (file s) w.fs)

  pub torn_write-Holds :
      (p : FilePath) (s : Text) (o : Outcome) (w : World)
      → p ≢ q
      → Holds q t w.fs w.db
      → Holds q t (torn_write p s o w).fs (torn_write p s o w).db
  torn_write-Holds p s (torn k) w n h = ground (arith, lookup-insert q p (file (take k s)) w.fs)
  torn_write-Holds p s _ w n h = h

  pub write-Holds : (p : FilePath) (s : Text) → p ≢ q → Keeps (Holds q t) (write p s)
  unfolding write
  write-Holds p s n =
      Keeps-call _ _ (λ w h. put_file-Holds p s w n h) (λ o w h. torn_write-Holds p s o w n h)

  move_node-Holds :
      (n : Option Node) (from to : FilePath) (w : World)
      → from ≢ q
      → to ≢ q
      → Holds q t w.fs w.db
      → Holds q t (move_node n from to w).1.fs (move_node n from to w).1.db
  move_node-Holds none from to w n m h = h
  move_node-Holds (some dir) from to w n m h = h
  move_node-Holds (some (file s)) from to w n m h =
      ground (arith, lookup-insert q to (file s) (erase from w.fs), lookup-erase q from w.fs)

  pub rename-Holds : (from to : FilePath) → from ≢ q → to ≢ q → Keeps (Holds q t) (rename from to)
  unfolding rename
  rename-Holds from to n m =
      Keeps-call _ _ (λ w h. move_node-Holds (lookup from w.fs) from to w n m h) (λ o w h. h)

  copy_node-Holds :
      (n : Option Node) (to : FilePath) (w : World)
      → to ≢ q
      → Holds q t w.fs w.db
      → Holds q t (copy_node n to w).1.fs (copy_node n to w).1.db
  copy_node-Holds none to w m h = h
  copy_node-Holds (some dir) to w m h = h
  copy_node-Holds (some (file s)) to w m h = put_file-Holds to s w m h

  torn_copy-Holds :
      (n : Option Node) (to : FilePath) (o : Outcome) (w : World)
      → to ≢ q
      → Holds q t w.fs w.db
      → Holds q t (torn_copy n to o w).fs (torn_copy n to o w).db
  torn_copy-Holds none to o w m h = h
  torn_copy-Holds (some dir) to o w m h = h
  torn_copy-Holds (some (file s)) to o w m h = torn_write-Holds to s o w m h

  pub copy-Holds : (from to : FilePath) → to ≢ q → Keeps (Holds q t) (copy from to)
  unfolding copy
  copy-Holds from to n =
      Keeps-call _ _ (λ w h. copy_node-Holds (lookup from w.fs) to w n h)
        (λ o w h. torn_copy-Holds (lookup from w.fs) to o w n h)
