-- ===== src/Scanner/Glob.antt =====
-- What `glob_matches` (crates/modeld-core/src/scanner.rs) comes to.
use model_id.Base.{
  ℕ, zero, suc, ◌<◌, ◌≡◌, ◌↔◌, refl, sym, ap, subst, ◌∙◌, Bool, true, false, not, ◌&&◌, ◌||◌,
  Option, none, some, List, [], ◌∷◌, ◌++◌, arith, length, length-append, if◌then◌else◌, nat_eq,
}
use mathlib.Core.List.{append_assoc}
use model_id.Base.Text.{Text, codes, split}
use model_id.Base.Search.{
  split_at, contains, ends_with, split_at-exact, split_at-finds, trim_start_matches,
  trim_end_matches, length-trim_start_matches,
}
use model_id.Scanner.{
  is_empty, in_order, last_part, single_star, glob_split, glob_step, glob_within, glob_matches,
}

-- The body calls itself with shorter patterns only.
glob_step-shorter :
    (f g : Text → Bool) (pattern path : Text)
    → ((after : Text) → length after < length pattern → f after ≡ g after)
    → glob_step f pattern path ≡ glob_step g pattern path
unfolding glob_step
glob_step-shorter f g pattern path same =
    by_star (not (contains (codes "*") pattern)) _ (by_split (split_at (codes "**") pattern) refl)
  where
    by_star :
        (b : Bool) (x : Bool) {y z : Bool} → y ≡ z → (if b then x else y) ≡ (if b then x else z)
    by_star true x e = refl
    by_star false x e = e

    by_split :
        (o : Option (Text × Text))
        → split_at (codes "**") pattern ≡ o
        → glob_split f o pattern path ≡ glob_split g o pattern path
    by_split none e = refl
    by_split (some (before, after)) e =
        by_star
          (not (
            is_empty (trim_end_matches b'/' before)
            || contains (trim_end_matches b'/' before) path))
          _
          (by_star (is_empty (trim_start_matches b'/' after)) _ (
            same (trim_start_matches b'/' after) (
              omega (
                arith,
                length-trim_start_matches b'/' after,
                ap length (split_at-exact (codes "**") pattern before after e),
                length-append before (codes "**" ++ after),
                length-append (codes "**") after,
              ))))

-- Two fuels that are both more than the pattern's length.
glob_within-agree :
    (n m : ℕ) (pattern path : Text)
    → length pattern < n
    → length pattern < m
    → glob_within n pattern path ≡ glob_within m pattern path
unfolding glob_within
glob_within-agree zero m pattern path h k = absurd (omega (arith, h))
glob_within-agree (suc n) zero pattern path h k = absurd (omega (arith, k))
glob_within-agree (suc n) (suc m) pattern path h k =
    glob_step-shorter _ _ pattern path
      λ after l. glob_within-agree n m after path (omega (arith, h, l)) (omega (arith, k, l))

-- `glob_matches` is its body, with itself for the recursive call: the recursion ends, since each
-- call is given a shorter pattern.
pub glob_matches_exact :
    (pattern path : Text)
    → glob_matches pattern path ≡ glob_step (λ after. glob_matches after path) pattern path
unfolding glob_matches
glob_matches_exact pattern path = glob_step-shorter _ _ pattern path λ after l.
    glob_within-agree (length pattern) (suc (length after)) after path (omega (arith, l))
      (omega arith)

-- The parts stand in the text one behind the other, with anything between them.
abbrev pub InOrder : List Text → Text → Type 0
InOrder [] path = Unit
InOrder (part ∷ parts) path =
    (gap : Text) × (rest : Text) × (path ≡ gap ++ (part ++ rest)) × InOrder parts rest

in_order-InOrder :
    (parts : List Text) (path : Text) → in_order parts path ≡ true → InOrder parts path
unfolding in_order
in_order-InOrder [] path e = tt
in_order-InOrder ([] ∷ parts) path e = ([], path, refl, in_order-InOrder parts path e)
in_order-InOrder ((c ∷ part) ∷ parts) path e =
    by_place (split_at (c ∷ part) path) refl e (in_order-InOrder parts)
  where
    by_place :
        (o : Option (Text × Text))
        → split_at (c ∷ part) path ≡ o
        → elim o [ none ↦ false | some (_, rest) ↦ in_order parts rest ] ≡ true
        → ((rest : Text) → in_order parts rest ≡ true → InOrder parts rest)
        → InOrder ((c ∷ part) ∷ parts) path
    by_place none k e more = cc
    by_place (some (gap, rest)) k e more =
        (gap, rest, split_at-exact (c ∷ part) path gap rest k, more rest e)

-- Text in front takes nothing away.
InOrder-append :
    (parts : List Text) (front path : Text) → InOrder parts path → InOrder parts (front ++ path)
InOrder-append [] front path h = tt
InOrder-append (part ∷ parts) front path (gap, rest, e, h) =
    (front ++ gap, rest, ap (λ x. front ++ x) e ∙ sym (append_assoc front gap (part ++ rest)), h)

InOrder-in_order :
    (parts : List Text) (path : Text) → InOrder parts path → in_order parts path ≡ true
unfolding in_order
InOrder-in_order [] path h = refl
InOrder-in_order ([] ∷ parts) path (gap, rest, e, h) =
    InOrder-in_order parts path (subst (InOrder parts) (sym e) (InOrder-append parts gap rest h))
InOrder-in_order ((c ∷ part) ∷ parts) path (gap, rest, e, h) =
    let (before, more, k) = split_at-finds (c ∷ part) gap rest in
    rw e (
      ap (λ o. elim o [ none ↦ false | some (_, r) ↦ in_order parts r ]) k
      ∙ InOrder-in_order parts (more ++ rest) (InOrder-append parts more rest h))

-- A pattern with single wildcards matches just the paths in which its parts stand in order, and
-- that end in its last part unless the pattern ends in a wildcard.
pub glob_matches-InOrder :
    (pattern path : Text)
    → contains (codes "*") pattern ≡ true
    → split_at (codes "**") pattern ≡ none
    → (glob_matches pattern path ≡ true) ↔ (
        InOrder (split b'*' pattern) path
        × ((ends_with (codes "*") pattern
              || is_empty (last_part (split b'*' pattern))
              || ends_with (last_part (split b'*' pattern)) path)
            ≡ true))
unfolding glob_matches glob_within glob_step single_star
glob_matches-InOrder pattern path star no_double = rw (star, no_double) (to, from)
  where
    both : (a b : Bool) → (a && b) ≡ true → (a ≡ true) × (b ≡ true)
    both a b e = ground (arith, e)

    to :
        {b : Bool}
        → (in_order (split b'*' pattern) path && b) ≡ true
        → InOrder (split b'*' pattern) path × (b ≡ true)
    to e = let (h, k) = both _ _ e in (in_order-InOrder (split b'*' pattern) path h, k)

    from :
        {b : Bool}
        → InOrder (split b'*' pattern) path × (b ≡ true)
        → (in_order (split b'*' pattern) path && b) ≡ true
    from (h, k) = rw (InOrder-in_order (split b'*' pattern) path h) k
