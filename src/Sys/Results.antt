-- ===== src/Sys/Results.antt =====
-- What a call on a file returns, together with what it leaves behind.
use model_id.Base.{
  ◌≡◌, ◌≢◌, refl, sym, ap, subst, ◌∙◌, Option, none, some, arith, list_eq, nat_eq, All,
}
use model_id.Base.Text.{Text}
use model_id.Base.Dict.{lookup, insert, erase, lookup-insert, lookup-erase}
use model_id.Base.Results.{Result, ok, err, Error}
use model_id.Db.{Database}
use model_id.Sys.{
  FilePath, Fs, Node, dir, file, Outcome, fine, fails, torn, World, M, call, on_outcome, pure,
  throw, gets, try, continue, ◌>>=◌,
}
use model_id.Sys.Files.{
  read_dir, children-All, parent, read_to_string, read_node, copy, rename, remove_file, move_node,
  target, move_to, remove_node, put_over, write,
}
use model_id.Sys.Tables.{query}
use model_id.Sys.Keeps.{Keeps, torn_write-Holds}

-- What a run comes to: `Good` of the value and the world after it, or, after an error, `Bad` of the
-- world.
pub record Ends {ℓ} {A : Type ℓ} (Good : A → World → Type 0) (Bad : World → Type 0)
    (x : Result A × World) : Type ℓ where
  pub on_ok : (a : A) → x.0 ≡ ok a → Good a x.1
  pub on_err : (e : Error) → x.0 ≡ err e → Bad x.1

module _ {ℓ} {A : Type ℓ} {Good : A → World → Type 0} {Bad : World → Type 0} where
  pub Ends-ok : {a : A} {w : World} → Good a w → Ends Good Bad (ok a, w)
  Ends-ok {a} {w} g = record {
    on_ok = λ b e. subst (λ c. Good c w) (ok-injective e) g;
    on_err = λ e p. cc;
  }
    where
      ok-injective : {b c : A} → ok b ≡ ok c → b ≡ c
      ok-injective p = cc

  pub Ends-err : {e : Error} {w : World} → Bad w → Ends Good Bad (err e, w)
  Ends-err b = record { on_ok = λ a e. cc; on_err = λ e p. b }

  pub Ends-pure : (a : A) (w : World) → Good a w → Ends Good Bad (pure a w)
  unfolding pure
  Ends-pure a w g = Ends-ok g

  pub Ends-throw : (e : Error) (w : World) → Bad w → Ends Good Bad (throw e w)
  unfolding throw
  Ends-throw e w b = Ends-err b

  pub call-Ends :
      (act : World → Result A × World) (partly : Outcome → World → World) (w : World)
      → ((v : World) → v.fs ≡ w.fs → Ends Good Bad (act v))
      → ((o : Outcome) (v : World) → v.fs ≡ w.fs → Bad (partly o v))
      → Ends Good Bad (call act partly w)
  unfolding call
  call-Ends act partly w ha hp = by_outcome _ _ refl
    where
      by_outcome :
          (o : Outcome) (v : World) → v.fs ≡ w.fs → Ends Good Bad (on_outcome act partly o v)
      by_outcome fine v e = ha v e
      by_outcome fails v e = Ends-err (hp fails v e)
      by_outcome (torn n) v e = Ends-err (hp (torn n) v e)

module _ {ℓ} {A : Type ℓ} {Good : A → World → Type 0} {Bad : World → Type 0} where
  pub Ends-mono :
      {Good' : A → World → Type 0} {Bad' : World → Type 0} {x : Result A × World}
      → Ends Good Bad x
      → ((a : A) (w : World) → Good a w → Good' a w)
      → ((w : World) → Bad w → Bad' w)
      → Ends Good' Bad' x
  Ends-mono h hg hb = record {
    on_ok = λ a e. hg a _ (h.on_ok a e);
    on_err = λ e p. hb _ (h.on_err e p);
  }

  pub Ends-bind {κ} :
      {B : Type κ} {Good' : B → World → Type 0} {Bad' : World → Type 0} (m : M A) (f : A → M B)
      (w : World)
      → Ends Good Bad (m w)
      → ((a : A) (v : World) → Good a v → Ends Good' Bad' (f a v))
      → ((v : World) → Bad v → Bad' v)
      → Ends Good' Bad' ((m >>= f) w)
  unfolding ◌>>=◌
  Ends-bind {B} {Good' = Good'} {Bad' = Bad'} m f w h hf hb = after (m w) h
    where
      after : (x : Result A × World) → Ends Good Bad x → Ends Good' Bad' (continue x.0 f x.1)
      after (ok a, v) h = hf a v (h.on_ok a refl)
      after (err e, v) h = Ends-err (hb v (h.on_err e refl))

-- What `try` makes of a run: the result is only looked at.
abbrev pub Tried :
    (Unit {0} → World → Type 0) → (World → Type 0) → Result (Unit {0}) → World → Type 0
Tried Good Bad (ok a) v = Good a v
Tried Good Bad (err e) v = Bad v

module _ {Good : Unit {0} → World → Type 0} {Bad : World → Type 0} where
  pub Ends-try :
      {Bad' : World → Type 0} (m : M (Unit {0})) (w : World)
      → Ends Good Bad (m w)
      → Ends (Tried Good Bad) Bad' (try m w)
  unfolding try
  Ends-try {Bad' = Bad'} m w h = after (m w) h
    where
      after :
          (x : Result (Unit {0}) × World)
          → Ends Good Bad x
          → Ends (Tried Good Bad) Bad' (ok x.0, x.1)
      after (ok a, v) h = Ends-ok (h.on_ok a refl)
      after (err e, v) h = Ends-ok (h.on_err e refl)

-- Of any run.
pub any_end {ℓ} : {A : Type ℓ} (m : M A) (w : World) → Ends (λ _ _. Unit) (λ _. Unit) (m w)
any_end m w = record { on_ok = λ a e. tt; on_err = λ e p. tt }

-- What is kept all along may be added to what a run comes to.
pub Ends-and {ℓ} :
    {A : Type ℓ} {Good : A → World → Type 0} {Bad : World → Type 0} {P : Fs → Database → Type 0}
    (m : M A) (w : World)
    → Ends Good Bad (m w)
    → Keeps P m
    → P w.fs w.db
    → Ends (λ a v. Good a v × P v.fs v.db) (λ v. Bad v × P v.fs v.db) (m w)
Ends-and m w h k p = record {
  on_ok = λ a e. (h.on_ok a e, k.at w p);
  on_err = λ e q. (h.on_err e q, k.at w p);
}

pub Keeps-Ends {ℓ} :
    {A : Type ℓ} {P : Fs → Database → Type 0} (m : M A) (w : World)
    → Keeps P m
    → P w.fs w.db
    → Ends (λ _ v. P v.fs v.db) (λ v. P v.fs v.db) (m w)
Keeps-Ends m w k h = record { on_ok = λ a e. k.at w h; on_err = λ e p. k.at w h }

abbrev pub Moved : FilePath → FilePath → Text → World → Type 0
Moved from to t v = (lookup to v.fs ≡ some (file t)) × (lookup from v.fs ≡ none)

module _ (from to : FilePath) (t : Text) (apart : from ≢ to) where
  moved : (v : World) → Moved from to t (record v { fs = insert to (file t) (erase from v.fs) })
  moved v = ground (
    arith,
    lookup-insert to to (file t) (erase from v.fs),
    lookup-insert from to (file t) (erase from v.fs),
    lookup-erase from from v.fs,
  )

  move_node-Ends :
      (n : Option Node) (v : World)
      → Ends (λ _ u. Moved from to t u) (λ u. u.fs ≡ v.fs) (move_to n t from to v)
  move_node-Ends none v = Ends-ok (moved v)
  move_node-Ends (some dir) v = Ends-err refl
  move_node-Ends (some (file s)) v = Ends-ok (moved v)

  -- A rename moves the file or changes nothing.
  pub rename-Ends :
      (w : World)
      → lookup from w.fs ≡ some (file t)
      → Ends (λ _ v. Moved from to t v) (λ v. v.fs ≡ w.fs) (rename from to w)
  unfolding rename
  rename-Ends w h =
      call-Ends _ _ w (λ v e. Ends-mono (start v e) (λ a u g. g) (λ u b. b ∙ e)) (λ o v e. e)
    where
      start :
          (v : World)
          → v.fs ≡ w.fs
          → Ends
              (λ _ u. Moved from to t u)
              (λ u. u.fs ≡ v.fs)
              (move_node (lookup from v.fs) from to v)
      start v e = rw (ap (lookup from) e ∙ h) (move_node-Ends (target to v.fs) v)

  copied :
      (v : World)
      → lookup from v.fs ≡ some (file t)
      → (lookup to (insert to (file t) v.fs) ≡ some (file t))
        × (lookup from (insert to (file t) v.fs) ≡ some (file t))
  copied v g =
      ground (arith, lookup-insert to to (file t) v.fs, lookup-insert from to (file t) v.fs)

  -- After a copy both hold the content; after a copy that failed the source still does.
  pub copy-Ends :
      (w : World)
      → lookup from w.fs ≡ some (file t)
      → Ends
          (λ _ v. (lookup to v.fs ≡ some (file t)) × (lookup from v.fs ≡ some (file t)))
          (λ v. lookup from v.fs ≡ some (file t))
          (copy from to w)
  unfolding copy
  copy-Ends w h =
      call-Ends _ _ w
        (λ v e. rw (ap (lookup from) e ∙ h) (put (target to v.fs) v (ap (lookup from) e ∙ h)))
        (λ o v e.
          rw (ap (lookup from) e ∙ h)
            (torn_write-Holds from t to t o v (λ p. apart (sym p)) (ap (lookup from) e ∙ h)))
    where
      put :
          (n : Option Node) (v : World)
          → lookup from v.fs ≡ some (file t)
          → Ends
              (λ _ u. (lookup to u.fs ≡ some (file t)) × (lookup from u.fs ≡ some (file t)))
              (λ u. lookup from u.fs ≡ some (file t))
              (put_over n to t v)
      put (some dir) v g = Ends-err g
      put (some (file s)) v g = Ends-ok (copied v g)
      put none v g = Ends-ok (copied v g)

-- A file that is removed is gone; a failed removal changes nothing.
pub remove_file-Ends :
    (p : FilePath) (w : World)
    → Ends (λ _ v. v.fs ≡ erase p w.fs) (λ v. v.fs ≡ w.fs) (remove_file p w)
unfolding remove_file
remove_file-Ends p w = call-Ends _ _ w (λ v e. by_node (lookup p v.fs) v e) (λ o v e. e)
  where
    by_node :
        (n : Option Node) (v : World)
        → v.fs ≡ w.fs
        → Ends (λ _ u. u.fs ≡ erase p w.fs) (λ u. u.fs ≡ w.fs) (remove_node n p v)
    by_node none v e = Ends-err e
    by_node (some dir) v e = Ends-err e
    by_node (some (file t)) v e = Ends-ok (ap (erase p) e)

pub write-Ends :
    (p : FilePath) (t : Text) (w : World)
    → Ends (λ _ v. lookup p v.fs ≡ some (file t)) (λ _. Unit) (write p t w)
unfolding write
write-Ends p t w = call-Ends _ _ w (λ v e. put (target p v.fs) v) (λ o v e. tt)
  where
    put :
        (n : Option Node) (v : World)
        → Ends (λ _ u. lookup p u.fs ≡ some (file t)) (λ _. Unit) (put_over n p t v)
    put (some dir) v = Ends-err tt
    put (some (file s)) v = Ends-ok (ground (arith, lookup-insert p p (file t) v.fs))
    put none v = Ends-ok (ground (arith, lookup-insert p p (file t) v.fs))

-- A step that keeps `P`, in front of a run from where `P` holds.
pub Keeps-then {ℓ κ} :
    {A : Type ℓ} {B : Type κ} {P : Fs → Database → Type 0} {Good : B → World → Type 0}
    {Bad : World → Type 0} (m : M A) (f : A → M B) (w : World)
    → Keeps P m
    → P w.fs w.db
    → ((a : A) (v : World) → P v.fs v.db → Ends Good Bad (f a v))
    → ((v : World) → P v.fs v.db → Bad v)
    → Ends Good Bad ((m >>= f) w)
Keeps-then m f w k h hf hb = Ends-bind m f w (Keeps-Ends m w k h) hf hb

pub gets-Ends :
    {A : Type 0} {Bad : World → Type 0} (f : World → A) (w : World)
    → Ends (λ a v. (a ≡ f v) × (v ≡ w)) Bad (gets f w)
unfolding gets
gets-Ends f w = Ends-ok (refl, refl)

pub read_to_string-Ends :
    (p : FilePath) (w : World)
    → Ends (λ t v. lookup p v.fs ≡ some (file t)) (λ _. Unit) (read_to_string p w)
unfolding read_to_string
read_to_string-Ends p w = call-Ends _ _ w (λ v e. by_node v (lookup p v.fs) refl) (λ o v e. tt)
  where
    by_node :
        (v : World) (n : Option Node)
        → lookup p v.fs ≡ n
        → Ends (λ t u. lookup p u.fs ≡ some (file t)) (λ _. Unit) (read_node n v)
    by_node v none e = Ends-err tt
    by_node v (some dir) e = Ends-err tt
    by_node v (some (file t)) e = Ends-ok e

pub query-Ends :
    {A : Type 0} (f : Database → A) (w : World)
    → Ends (λ a v. (a ≡ f w.db) × (v.db ≡ w.db) × (v.fs ≡ w.fs)) (λ v. v.db ≡ w.db) (query f w)
unfolding query call
query-Ends f w = by_outcome _ _ refl refl
  where
    by_outcome :
        (o : Outcome) (v : World)
        → v.db ≡ w.db
        → v.fs ≡ w.fs
        → Ends
            (λ a v. (a ≡ f w.db) × (v.db ≡ w.db) × (v.fs ≡ w.fs))
            (λ v. v.db ≡ w.db)
            (on_outcome (λ v. (ok (f v.db), v)) (λ o v. v) o v)
    by_outcome fine v d e = Ends-ok (ap f d, d, e)
    by_outcome fails v d e = Ends-err d
    by_outcome (torn n) v d e = Ends-err d

pub read_dir-Ends :
    (p : FilePath) (w : World)
    → Ends (λ qs _. All (λ q. parent q ≡ some p) qs) (λ _. Unit) (read_dir p w)
unfolding read_dir
read_dir-Ends p w = call-Ends _ _ w (λ v e. Ends-ok (children-All p v.fs)) (λ o v e. tt)

-- What holds after a run, if it holds whether the run returns or fails.
pub Ends-after {ℓ} :
    {A : Type ℓ} {P : World → Type 0} (x : Result A × World) → Ends (λ _ v. P v) P x → P x.1
Ends-after (ok a, v) h = h.on_ok a refl
Ends-after (err e, v) h = h.on_err e refl
