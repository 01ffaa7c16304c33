-- ===== src/Quarantine/Codec.antt =====
-- A concrete `Serde` for `QuarantineMeta`, which stands for serde_json in the tests.
use model_id.Base.{
  ℕ, zero, suc, ◌≡◌, ◌≢◌, refl, ap, sym, ◌∙◌, Option, some, none, List, [], ◌∷◌, length,
}
use model_id.Base.Text.{Text}
use model_id.Sys.{FilePath}
use model_id.Quarantine.{QuarantineMeta, Serde, RoundTrips}

module _ {A : Type 0} (enc : A → Text → Text) (dec : Text → A × Text) where
  enc_all : List A → Text → Text
  enc_all [] rest = rest
  enc_all (x ∷ xs) rest = enc x (enc_all xs rest)

  pub enc_list : List A → Text → Text
  unfolding enc_all
  enc_list xs rest = length xs ∷ enc_all xs rest

  dec_n : ℕ → Text → List A × Text
  dec_n zero s = ([], s)
  dec_n (suc n) s = let (x, s1) = dec s in let (xs, s2) = dec_n n s1 in (x ∷ xs, s2)

  pub dec_list : Text → List A × Text
  unfolding dec_n
  dec_list [] = ([], [])
  dec_list (n ∷ s) = dec_n n s

  dec_n-enc_all :
      ((x : A) (rest : Text) → dec (enc x rest) ≡ (x, rest))
      → (xs : List A) (rest : Text) → dec_n (length xs) (enc_all xs rest) ≡ (xs, rest)
  unfolding dec_n enc_all
  dec_n-enc_all h [] rest = refl
  dec_n-enc_all h (x ∷ xs) rest = rw (h x (enc_all xs rest), dec_n-enc_all h xs rest) refl

  pub dec_list-enc_list :
      ((x : A) (rest : Text) → dec (enc x rest) ≡ (x, rest))
      → (xs : List A) (rest : Text) → dec_list (enc_list xs rest) ≡ (xs, rest)
  unfolding dec_list enc_list
  dec_list-enc_list h xs rest = dec_n-enc_all h xs rest

enc_byte : ℕ → Text → Text
enc_byte c rest = c ∷ rest

dec_byte : Text → ℕ × Text
dec_byte [] = (0, [])
dec_byte (c ∷ s) = (c, s)

pub enc_text : Text → Text → Text
unfolding enc_list enc_byte
enc_text = enc_list enc_byte dec_byte

pub dec_text : Text → Text × Text
unfolding dec_list dec_byte
dec_text = dec_list enc_byte dec_byte

pub enc_path : FilePath → Text → Text
unfolding enc_text
enc_path = enc_list enc_text dec_text

pub dec_path : Text → FilePath × Text
unfolding dec_text
dec_path = dec_list enc_text dec_text

pub dec_text-enc_text : (t rest : Text) → dec_text (enc_text t rest) ≡ (t, rest)
unfolding dec_text enc_text enc_byte dec_byte
dec_text-enc_text t rest = dec_list-enc_list enc_byte dec_byte (λ x r. refl) t rest

pub dec_path-enc_path : (p : FilePath) (rest : Text) → dec_path (enc_path p rest) ≡ (p, rest)
unfolding dec_path enc_path
dec_path-enc_path p rest = dec_list-enc_list enc_text dec_text dec_text-enc_text p rest

pub enc_meta : QuarantineMeta → Text
unfolding enc_path
enc_meta m =
    m.quarantined_at
    ∷ m.size_bytes
    ∷ enc_text m.reason (
        enc_text m.blake3_hash
          (enc_path m.original_path (enc_list enc_path dec_path m.references [])))

dec_meta : Text → Option QuarantineMeta
unfolding dec_path
dec_meta (at ∷ size ∷ s) =
    let (reason, s1) = dec_text s in
    let (hash, s2) = dec_text s1 in
    let (path, s3) = dec_path s2 in
    let (refs, s4) = dec_list enc_path dec_path s3 in
    some (record {
      original_path = path;
      quarantined_at = at;
      reason = reason;
      blake3_hash = hash;
      size_bytes = size;
      references = refs;
    })
dec_meta _ = none

pub codec : Serde
unfolding enc_meta dec_meta
codec = record {
  to_string_lossy = λ p. p;
  to_string_pretty = λ m. some (enc_meta m);
  from_str = dec_meta;
}

dec_meta-enc_meta : (m : QuarantineMeta) → dec_meta (enc_meta m) ≡ some m
unfolding dec_meta enc_meta
dec_meta-enc_meta m =
    rw
      (
        dec_text-enc_text m.reason (
            enc_text m.blake3_hash
              (enc_path m.original_path (enc_list enc_path dec_path m.references []))),
        dec_text-enc_text m.blake3_hash
            (enc_path m.original_path (enc_list enc_path dec_path m.references [])),
        dec_path-enc_path m.original_path (enc_list enc_path dec_path m.references []),
        dec_list-enc_list enc_path dec_path dec_path-enc_path m.references [],
      )
      refl

pub codec-enc_meta : (m : QuarantineMeta) → codec.from_str (enc_meta m) ≡ some m
unfolding codec
codec-enc_meta m = dec_meta-enc_meta m

pub codec-writes : (m : QuarantineMeta) → codec.to_string_pretty m ≢ none
unfolding codec
codec-writes m e = cc

pub codec-RoundTrips : RoundTrips codec
unfolding codec
codec-RoundTrips = record {
  from-to = λ m t e. ap dec_meta (some-injective (sym e)) ∙ dec_meta-enc_meta m;
}
  where
    some-injective : {s t : Text} → some s ≡ some t → s ≡ t
    some-injective e = cc

pub codec-to_string_lossy : (p : FilePath) → codec.to_string_lossy p ≡ p
unfolding codec
codec-to_string_lossy p = refl
