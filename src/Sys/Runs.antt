-- ===== src/Sys/Runs.antt =====
-- Actions that return whenever no call fails.
use model_id.Base.{
  Option, none, some, list_eq, nat_eq, ◌≡◌, refl, Bool, true, false, [], if◌then◌else◌,
}
use model_id.Base.Results.{Result}
use model_id.Db.{Database}
use model_id.Sys.{FilePath, Node, dir, file, Outcome, World, M, call, pure, try, gets, now, ◌>>=◌}
use model_id.Base.Dict.{lookup}
use model_id.Sys.Files.{remove_file, remove_node, remove_dir_all, remove_tree}
use model_id.Sys.Tables.{query, execute}
use model_id.Sys.Returns.{Returns, Returns-pure, Returns-call, Returns-bind}

-- No call is going to fail.
abbrev pub IsCalm : World → Type 0
IsCalm w = w.faults ≡ []

-- From a calm world the action returns, in a calm world.
pub record Runs {A : Type 0} (m : M A) : Type 0 where
  pub runs : (w : World) → IsCalm w → Returns (λ _ v. IsCalm v) (m w)

module _ {A : Type 0} where
  pub Runs-pure : (a : A) → Runs (pure a)
  Runs-pure a = record { runs = λ w h. Returns-pure a w h }

  pub Runs-gets : (f : World → A) → Runs (gets f)
  unfolding gets
  Runs-gets f = record { runs = λ w h. record { value = f w; is_ok = refl; good = h } }

  pub Runs-query : (f : Database → A) → Runs (query f)
  unfolding query
  Runs-query f = record {
    runs = λ w h. Returns-call _ _ w h (λ v e n. record { value = f v.db; is_ok = refl; good = n });
  }

  pub Runs-bind :
      {B : Type 0} (m : M A) (f : A → M B) → Runs m → ((a : A) → Runs (f a)) → Runs (m >>= f)
  Runs-bind m f h k = record {
    runs = λ w c. Returns-bind m f w (h.runs w c) (λ a v d. (k a).runs v d);
  }

  pub Runs-if : (b : Bool) (m n : M A) → Runs m → Runs n → Runs (if b then m else n)
  Runs-if true m n h k = h
  Runs-if false m n h k = k

  -- A call whose result is only looked at.
  pub Runs-try :
      (act : World → Result A × World) (partly : Outcome → World → World)
      → ((w : World) → (act w).1.faults ≡ w.faults)
      → Runs (try (call act partly))
  unfolding try call
  Runs-try act partly same = record {
    runs = λ w c. rw c (record { value = _; is_ok = refl; good = same _ });
  }

pub Runs-now : Runs now
unfolding now
Runs-now = record { runs = λ w c. record { value = _; is_ok = refl; good = c } }

pub Runs-execute : (f : Database → Database) → Runs (execute f)
unfolding execute
Runs-execute f = record {
  runs = λ w h. Returns-call _ _ w h (λ v e n. record { value = tt; is_ok = refl; good = n });
}

pub ruleset runs_rules =
    (Runs-pure, Runs-gets, Runs-query, Runs-bind, Runs-if, Runs-now, Runs-execute)

pub Runs-remove_file : (p : FilePath) → Runs (try (remove_file p))
unfolding remove_file
Runs-remove_file p = Runs-try _ _ (λ w. by_node (lookup p w.fs) w)
  where
    by_node : (n : Option Node) (w : World) → (remove_node n p w).1.faults ≡ w.faults
    by_node none w = refl
    by_node (some dir) w = refl
    by_node (some (file t)) w = refl

pub Runs-remove_dir_all : (p : FilePath) → Runs (try (remove_dir_all p))
unfolding remove_dir_all
Runs-remove_dir_all p = Runs-try _ _ (λ w. by_node (lookup p w.fs) w)
  where
    by_node : (n : Option Node) (w : World) → (remove_tree n p w).1.faults ≡ w.faults
    by_node none w = refl
    by_node (some dir) w = refl
    by_node (some (file t)) w = refl
