-- ===== src/Tx/Codec.antt =====
-- A concrete `Serde` for path entries and rollback plans, which stands for serde_json in the tests.
use model_id.Base.{zero, suc, ◌≡◌, refl, ap, sym, ◌∙◌, Option, some, none, List, [], ◌∷◌}
use model_id.Base.Text.{Text}
use model_id.Sys.{FilePath}
use model_id.Hash.{Blake3Hash}
use model_id.Quarantine.Codec.{
  enc_list, dec_list, dec_list-enc_list, enc_text, dec_text, dec_text-enc_text, enc_path, dec_path,
  dec_path-enc_path,
}
use model_id.Tx.{PathEntry, Serde, RoundTrips}

module _ {A : Type 0} (enc : A → Text → Text) (dec : Text → A × Text) where
  enc_option : Option A → Text → Text
  enc_option none rest = 0 ∷ rest
  enc_option (some a) rest = 1 ∷ enc a rest

  dec_option : Text → Option A × Text
  dec_option (zero ∷ s) = (none, s)
  dec_option (suc n ∷ s) = let (a, s1) = dec s in (some a, s1)
  dec_option [] = (none, [])

  dec_option-enc_option :
      ((x : A) (rest : Text) → dec (enc x rest) ≡ (x, rest))
      → (o : Option A) (rest : Text) → dec_option (enc_option o rest) ≡ (o, rest)
  unfolding enc_option dec_option
  dec_option-enc_option h none rest = refl
  dec_option-enc_option h (some a) rest = rw (h a rest) refl

enc_hash : Blake3Hash → Text → Text
enc_hash h rest = enc_text h.hex rest

dec_hash : Text → Blake3Hash × Text
dec_hash s = let (hex, s1) = dec_text s in (record { hex = hex }, s1)

dec_hash-enc_hash : (h : Blake3Hash) (rest : Text) → dec_hash (enc_hash h rest) ≡ (h, rest)
unfolding dec_hash enc_hash
dec_hash-enc_hash h rest = rw (dec_text-enc_text h.hex rest) refl

enc_entry : PathEntry → Text → Text
unfolding enc_option enc_hash
enc_entry e rest = enc_path e.source (
    enc_option enc_path dec_path e.target (
      enc_option enc_hash dec_hash e.original_hash
        (enc_option enc_hash dec_hash e.new_hash (e.size ∷ rest))))

dec_entry : Text → PathEntry × Text
unfolding dec_option dec_hash
dec_entry s =
    let (source, s1) = dec_path s in
    let (target, s2) = dec_option enc_path dec_path s1 in
    let (original_hash, s3) = dec_option enc_hash dec_hash s2 in
    let (new_hash, s4) = dec_option enc_hash dec_hash s3 in
    with_size source target original_hash new_hash s4
  where
    with_size :
        FilePath → Option FilePath → Option Blake3Hash → Option Blake3Hash → Text → PathEntry × Text
    with_size p t o n [] =
        (record { source = p; target = t; original_hash = o; new_hash = n; size = 0 }, [])
    with_size p t o n (z ∷ s) =
        (record { source = p; target = t; original_hash = o; new_hash = n; size = z }, s)

dec_entry-enc_entry : (e : PathEntry) (rest : Text) → dec_entry (enc_entry e rest) ≡ (e, rest)
unfolding dec_entry enc_entry
dec_entry-enc_entry e rest =
    rw
      (
        dec_path-enc_path e.source _,
        dec_option-enc_option enc_path dec_path dec_path-enc_path e.target _,
        dec_option-enc_option enc_hash dec_hash dec_hash-enc_hash e.original_hash _,
        dec_option-enc_option enc_hash dec_hash dec_hash-enc_hash e.new_hash _,
      )
      refl

pub enc_entries : List PathEntry → Text
unfolding enc_entry dec_entry
enc_entries es = enc_list enc_entry dec_entry es []

dec_entries : Text → List PathEntry
unfolding enc_entry dec_entry
dec_entries s = (dec_list enc_entry dec_entry s).0

dec_entries-enc_entries : (es : List PathEntry) → dec_entries (enc_entries es) ≡ es
unfolding dec_entries enc_entries
dec_entries-enc_entries es =
    ap (λ (r : List PathEntry × Text). r.0)
      (dec_list-enc_list enc_entry dec_entry dec_entry-enc_entry es [])

pub codec : Serde
unfolding enc_entries dec_entries
codec = record {
  paths_to_string = λ es. some (enc_entries es);
  paths_from_str = λ s. some (dec_entries s);
  plan_to_string = λ p. some (enc_entries p.entries);
  plan_from_str = λ s. some (record { entries = dec_entries s });
}

pub codec-enc_entries :
    (es : List PathEntry) → codec.plan_from_str (enc_entries es) ≡ some (record { entries = es })
unfolding codec
codec-enc_entries es = ap (λ es. some (record { entries = es })) (dec_entries-enc_entries es)

pub codec-RoundTrips : RoundTrips codec
unfolding codec
codec-RoundTrips = record {
  paths_from-to = λ es t e.
      ap (λ s. some (dec_entries s)) (sym (same e)) ∙ ap some (dec_entries-enc_entries es);
  plan_from-to = λ p t e.
      ap (λ s. some (record { entries = dec_entries s })) (sym (same e))
      ∙ ap (λ es. some (record { entries = es })) (dec_entries-enc_entries p.entries);
}
  where
    same : {s t : Text} → some s ≡ some t → s ≡ t
    same e = cc
