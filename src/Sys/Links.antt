-- ===== src/Sys/Links.antt =====
-- Links on Unix. A link to an object is a file with the content of the object: objects are
-- read-only, and nothing here writes a file in place.
use model_id.Base.{◌≡◌, ◌≢◌, refl, sym, subst, Option, none, some, arith, list_eq, nat_eq}
use model_id.Base.Text.{Text}
use model_id.Base.Dict.{lookup, insert, lookup-insert}
use model_id.Base.Results.{Result, ok, err, io_error}
use model_id.Sys.{FilePath, Node, dir, file, Outcome, World, M, call}
use model_id.Db.{Database}
use model_id.Sys.Apart.{call-Keeps_db}
use model_id.Sys.Files.{target}
use model_id.Sys.Keeps.{Keeps, Keeps-call}

abbrev nothing : Outcome → World → World
nothing o w = w

abbrev link_file : Option Node → FilePath → Text → World → Result (Unit {0}) × World
link_file none link t w = (ok tt, record w { fs = insert link (file t) w.fs })
link_file (some n) link t w = (err io_error, w)

abbrev link_node : Option Node → FilePath → World → Result (Unit {0}) × World
link_node none link w = (err io_error, w)
link_node (some dir) link w = (err io_error, w)
link_node (some (file t)) link w = link_file (target link w.fs) link t w

-- `hard_link(original, link)`
unfoldable pub hard_link : FilePath → FilePath → M (Unit {0})
unfolding target
hard_link original link = call (λ w. link_node (lookup original w.fs) link w) nothing

abbrev symlink_at : Option Node → Option Node → FilePath → World → Result (Unit {0}) × World
symlink_at (some n) target link w = (err io_error, w)
symlink_at none none link w = (ok tt, w)
symlink_at none (some n) link w = (ok tt, record w { fs = insert link n w.fs })

-- `symlink(original, link)`; a link to nothing is as if it were not there
unfoldable pub symlink : FilePath → FilePath → M (Unit {0})
unfolding target
symlink original link =
    call (λ w. symlink_at (target link w.fs) (lookup original w.fs) link w) nothing

module _ (Q : Option Node → Type 0) (q link : FilePath) (apart : link ≢ q) where
  kept : (n : Node) (w : World) → lookup q (insert link n w.fs) ≡ lookup q w.fs
  kept n w = ground (arith, lookup-insert q link n w.fs)

  pub hard_link-Keeps :
      (original : FilePath) → Keeps (λ fs _. Q (lookup q fs)) (hard_link original link)
  unfolding hard_link
  hard_link-Keeps original =
      Keeps-call _ _ (λ w h. by_node (lookup original w.fs) (target link w.fs) w refl h)
        (λ o w h. h)
    where
      over :
          (m : Option Node) (t : Text) (w : World)
          → Q (lookup q w.fs)
          → Q (lookup q (link_file m link t w).1.fs)
      over none t w h = subst Q (sym (kept (file t) w)) h
      over (some n) t w h = h

      by_node :
          (n m : Option Node) (w : World)
          → target link w.fs ≡ m
          → Q (lookup q w.fs)
          → Q (lookup q (link_node n link w).1.fs)
      by_node none m w e h = h
      by_node (some dir) m w e h = h
      by_node (some (file t)) m w e h = over (target link w.fs) t w h

  pub symlink-Keeps :
      (original : FilePath) → Keeps (λ fs _. Q (lookup q fs)) (symlink original link)
  unfolding symlink
  symlink-Keeps original =
      Keeps-call _ _ (λ w h. by_node (target link w.fs) (lookup original w.fs) w h) (λ o w h. h)
    where
      by_node :
          (m n : Option Node) (w : World)
          → Q (lookup q w.fs)
          → Q (lookup q (symlink_at m n link w).1.fs)
      by_node (some x) n w h = h
      by_node none none w h = h
      by_node none (some n) w h = subst Q (sym (kept n w)) h

module _ {P : Database → Type 0} where
  pub hard_link-Keeps_db :
      (original link : FilePath) → Keeps (λ _ db. P db) (hard_link original link)
  unfolding hard_link
  hard_link-Keeps_db original link =
      call-Keeps_db _ _ (λ w. by_node (lookup original w.fs) (target link w.fs) w) (λ o w. refl)
    where
      over : (m : Option Node) (t : Text) (w : World) → (link_file m link t w).1.db ≡ w.db
      over none t w = refl
      over (some n) t w = refl

      by_node : (n m : Option Node) (w : World) → (link_node n link w).1.db ≡ w.db
      by_node none m w = refl
      by_node (some dir) m w = refl
      by_node (some (file t)) m w = over (target link w.fs) t w

  pub symlink-Keeps_db : (original link : FilePath) → Keeps (λ _ db. P db) (symlink original link)
  unfolding symlink
  symlink-Keeps_db original link =
      call-Keeps_db _ _ (λ w. by_node (target link w.fs) (lookup original w.fs) w) (λ o w. refl)
    where
      by_node : (m n : Option Node) (w : World) → (symlink_at m n link w).1.db ≡ w.db
      by_node (some x) n w = refl
      by_node none none w = refl
      by_node none (some n) w = refl
