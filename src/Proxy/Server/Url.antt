-- ===== src/Proxy/Server/Url.antt =====
-- The URL helpers of crates/modeld-proxy/src/server.rs, with the guard against path traversal.
use mathlib.Core.Bool.{not}
use model_id.Base.{
  ℕ, ◌≡◌, ◌≢◌, refl, sym, ap, ◌∙◌, Bool, true, false, ◌&&◌, ◌||◌, List, [], ◌∷◌, ◌++◌, Option, none,
  some, arith, if◌then◌else◌, all, list_eq, nat_eq, ◌==◌, contains, All,
}
use model_id.Base.Options.{◌>>=◌, >>=-eq-some}
use model_id.Base.Text.{Text, codes, strip_prefix, starts_with, split, onto_head}

abbrev pub is_empty : Text → Bool
is_empty [] = true
is_empty (c ∷ s) = false

unfoldable pub match_blob_url : Text → Option Text
match_blob_url url = do
  rest ← strip_prefix (codes "/v1/blobs/") url
  if is_empty rest || contains rest b'/' then none else some rest

-- A single segment (org, repo, revision).
unfoldable pub is_safe_path_segment : Text → Bool
is_safe_path_segment s =
    not (is_empty s)
    && not (s == codes "..")
    && not (s == codes ".")
    && not (contains s 0)
    && not (contains s b'/')
    && not (contains s b'\\')

unfoldable pub is_safe_filename : Text → Bool
unfolding is_safe_path_segment
is_safe_filename s =
    if is_empty s || contains s 0 || starts_with (b'/' ∷ []) s || starts_with (b'\\' ∷ []) s
    then false
    else all is_safe_path_segment (split b'/' s)

pub record HfProxyParts : Type 0 where
  pub org : Text
  pub repo : Text
  pub revision : Text
  pub file : Text

-- `join("/")`
unfoldable pub join : List Text → Text
join [] = []
join (s ∷ []) = s
join (s ∷ t ∷ r) = s ++ b'/' ∷ join (t ∷ r)

abbrev guarded : Text → Text → Text → Text → Option HfProxyParts
guarded org repo revision file =
    if is_empty org || is_empty repo || is_empty revision || is_empty file
    then none
    else if not (is_safe_path_segment org)
        || not (is_safe_path_segment repo)
        || not (is_safe_path_segment revision)
        || not (is_safe_filename file)
    then none
    else some (record { org = org; repo = repo; revision = revision; file = file })

abbrev of_segments : List Text → Option HfProxyParts
of_segments (org ∷ repo ∷ resolve ∷ revision ∷ file) =
    if resolve == codes "resolve" then guarded org repo revision (join file) else none
of_segments _ = none

unfoldable pub match_hf_proxy_url : Text → Option HfProxyParts
unfolding is_safe_filename join
match_hf_proxy_url url = do
  rest ← strip_prefix (codes "/v1/hf-proxy/") url
  of_segments (split b'/' rest)

-- A path component that does not leave its directory.
pub record IsSafe (s : Text) : Type 0 where
  pub named : s ≢ []
  pub not_parent : s ≢ codes ".."
  pub not_self : s ≢ codes "."
  pub no_slash : contains s b'/' ≡ false
  pub no_backslash : contains s b'\\' ≡ false
  pub no_nul : contains s 0 ≡ false

segment-IsSafe : (s : Text) → is_safe_path_segment s ≡ true → IsSafe s
unfolding is_safe_path_segment
segment-IsSafe [] h = cc
segment-IsSafe (c ∷ s) h = ground arith

segments-IsSafe : (l : List Text) → all is_safe_path_segment l ≡ true → All IsSafe l
segments-IsSafe [] h = tt
segments-IsSafe (s ∷ l) h = (segment-IsSafe s (ground arith), segments-IsSafe l (ground arith))

join-onto_head : (x : ℕ) (l : List Text) → l ≢ [] → join (onto_head x l) ≡ x ∷ join l
unfolding join
join-onto_head x [] h = absurd (h refl)
join-onto_head x (s ∷ []) h = refl
join-onto_head x (s ∷ t ∷ r) h = refl

split-ne-nil : (c : ℕ) (s : Text) → split c s ≢ []
unfolding split
split-ne-nil c [] h = cc
split-ne-nil c (x ∷ s) h = ground arith

join-cons : (l : List Text) → l ≢ [] → join ([] ∷ l) ≡ b'/' ∷ join l
unfolding join
join-cons [] h = absurd (h refl)
join-cons (s ∷ l) h = refl

-- Joining what `split` cut gives the text back.
join-split : (s : Text) → join (split b'/' s) ≡ s
unfolding split
join-split [] = unfold join in refl
join-split (x ∷ s) = ground (
  arith,
  join-split s,
  join-cons (split b'/' s) (split-ne-nil b'/' s),
  join-onto_head x (split b'/' s) (split-ne-nil b'/' s),
)

strip_prefix-eq-some : (p s r : Text) → strip_prefix p s ≡ some r → s ≡ p ++ r
unfolding strip_prefix
strip_prefix-eq-some [] s r e = cc
strip_prefix-eq-some (x ∷ p) [] r e = cc
strip_prefix-eq-some (x ∷ p) (c ∷ s) r e = ground (arith, strip_prefix-eq-some p s r)

-- What a URL of the proxy route is made of.
pub record IsProxyUrl (url : Text) (p : HfProxyParts) : Type 0 where
  pub org_safe : IsSafe p.org
  pub repo_safe : IsSafe p.repo
  pub revision_safe : IsSafe p.revision
  pub file_safe : All IsSafe (split b'/' p.file)
  pub spelled :
      url
      ≡ codes "/v1/hf-proxy/"
        ++ (p.org
            ++ b'/' ∷ (p.repo ++ b'/' ∷ (codes "resolve" ++ b'/' ∷ (p.revision ++ b'/' ∷ p.file))))

guarded-IsSafe :
    (org repo revision file : Text) {p : HfProxyParts}
    → guarded org repo revision file ≡ some p
    → (p ≡ record { org = org; repo = repo; revision = revision; file = file })
      × IsSafe org
      × IsSafe repo
      × IsSafe revision
      × All IsSafe (split b'/' file)
unfolding is_safe_filename
guarded-IsSafe org repo revision file e = (
  ground arith,
  segment-IsSafe org (ground arith),
  segment-IsSafe repo (ground arith),
  segment-IsSafe revision (ground arith),
  segments-IsSafe (split b'/' file) (ground arith),
)

abbrev tail_text : HfProxyParts → Text
tail_text p =
    p.org ++ b'/' ∷ (p.repo ++ b'/' ∷ (codes "resolve" ++ b'/' ∷ (p.revision ++ b'/' ∷ p.file)))

abbrev SafeParts : HfProxyParts → Type 0
SafeParts p = IsSafe p.org × IsSafe p.repo × IsSafe p.revision × All IsSafe (split b'/' p.file)

guarded-ne_empty :
    (org repo revision : Text) (p : HfProxyParts) → guarded org repo revision [] ≢ some p
guarded-ne_empty org repo revision p e = ground arith

of_segments-safe :
    (l : List Text) (p : HfProxyParts)
    → of_segments l ≡ some p
    → SafeParts p × (join l ≡ tail_text p)
unfolding join
of_segments-safe (org ∷ repo ∷ resolve ∷ revision ∷ []) p e =
    absurd (guarded-ne_empty org repo revision p (ground arith))
of_segments-safe (org ∷ repo ∷ resolve ∷ revision ∷ s ∷ file) p e =
    let is_resolve : resolve ≡ codes "resolve" = ground arith in
    let (q, o, r, v, f) =
      guarded-IsSafe org repo revision (join (s ∷ file)) {p = p} (ground arith) in
    rw (q, is_resolve) ((o, r, v, f), refl)
of_segments-safe _ p e = cc

-- A URL that the HuggingFace route accepts is spelled
-- `/v1/hf-proxy/{org}/{repo}/resolve/{revision}/{file}` with the parts that come back, and each
-- part, for the file each of its components, is non-empty, is neither `.` nor `..`, and holds no
-- slash, backslash or NUL.
pub match_hf_proxy_url-IsProxyUrl :
    (url : Text) (p : HfProxyParts) → match_hf_proxy_url url ≡ some p → IsProxyUrl url p
unfolding match_hf_proxy_url
match_hf_proxy_url-IsProxyUrl url p e =
    let (rest, found, made) =
      >>=-eq-some (strip_prefix (codes "/v1/hf-proxy/") url) (λ r. of_segments (split b'/' r)) e in
    let ((o, r, v, f), spelled) = of_segments-safe (split b'/' rest) p made in
    record {
      org_safe = o;
      repo_safe = r;
      revision_safe = v;
      file_safe = f;
      spelled =
          strip_prefix-eq-some (codes "/v1/hf-proxy/") url rest found
          ∙ ap (λ t. codes "/v1/hf-proxy/" ++ t) (sym (join-split rest) ∙ spelled);
    }
