-- ===== src/Contracts/Semantics.antt =====
-- What `_validate_semantics` of qingtian_core/contracts.py asks of a document, said by the schema's
-- $id.
use qingtian_ai.Contracts.Equality.{or_null}
use qingtian_ai.Contracts.Validate.{
  is_bound_id, is_hash_of, semantics_of, validate_semantics, without,
}
use qingtian_ai.Exec.{Result, err, ok}
use qingtian_ai.Json.{Codec, Entries, Value, content_hash, dict, str}
use qingtian_ai.Json.Dicts.{get, is_this_text}
use qingtian_ai.Prelude.{
  &&-left, Bool, Bool-cases, Option, String, ap, arith, eq_self, eq→≡, false, inl, inr, is_id,
  is_some, none, not-both, refl, some, subst, subst₂, sym, true, ◌&&◌, ◌↔◌, ◌∙◌, ◌≡◌,
}

-- the digest of a value, as a column has it
abbrev pub Hashed : Codec → Value → Option Value → Type 0
Hashed codec v cell_value =
    (h : String) × (content_hash codec v ≡ ok h) × (cell_value ≡ some (str h))

-- of a document that is a dict: of a checkpoint, the content hash is that of the snapshot; of a
-- receipt, that of the other items; of evidence, the identifier has the form of its subject's type
pub record SemanticsOf (codec : Codec) (id : Value) (es : Entries) : Type 0 where
  pub checkpoint :
      id ≡ str "urn:qingtian-ai:schema:checkpoint:v1"
      → (snapshot : Value) × (get "snapshot" es ≡ some snapshot)
        × Hashed codec snapshot (get "content_hash" es)
  pub receipt :
      id ≡ str "urn:qingtian-ai:schema:verification-receipt:v1"
      → Hashed codec (dict (without "receipt_hash" es)) (get "receipt_hash" es)
  pub evidence :
      id ≡ str "urn:qingtian-ai:schema:evidence:v1"
      → (kind subject : String) → get "subject_type" es ≡ some (str kind)
      → get "subject_id" es ≡ some (str subject)
      → is_id kind subject ≡ true

abbrev pub SemanticsMeet : Codec → Value → Entries → Type 0
SemanticsMeet codec (dict es) schema = SemanticsOf codec (or_null (get "$id" schema)) es
SemanticsMeet codec _ schema = Unit

this_text-str : (s : String) (v : Value) → is_this_text s v ≡ true → v ≡ str s
unfolding is_this_text
this_text-str s (str t) h = ap str (sym (eq→≡ s t h))
this_text-str s _ h = absurd (cc)

str-this_text : (s : String) → is_this_text s (str s) ≡ true
unfolding is_this_text
str-this_text s = eq_self s

hash_of_iff :
    (r : Result String) (o : Option Value)
    → (is_hash_of r o ≡ true) ↔ ((h : String) × (r ≡ ok h) × (o ≡ some (str h)))
unfolding is_hash_of
hash_of_iff (ok h) (some v) = (
  λ e. (h, refl, ap some (this_text-str h v e)),
  λ x.
      let same : h ≡ x.0 = cc (x.1) in
      let value : v ≡ str x.0 = cc (x.2) in
      subst₂ (λ a b. is_this_text a b ≡ true) (sym same) (sym value) (str-this_text x.0),
)
hash_of_iff (ok h) none = (λ e. absurd (cc), λ x. absurd (cc (x.2)))
hash_of_iff (err y) (some v) = (λ e. absurd (cc), λ x. absurd (cc (x.1)))
hash_of_iff (err y) none = (λ e. absurd (cc), λ x. absurd (cc (x.1)))

snapshot_iff :
    (codec : Codec) (o cell_value : Option Value)
    → ((is_hash_of (content_hash codec (or_null o)) cell_value && is_some o) ≡ true)
      ↔ ((snapshot : Value) × (o ≡ some snapshot) × Hashed codec snapshot cell_value)
unfolding is_some
snapshot_iff codec none cell_value = (λ e. absurd (not-both (and_off _) e), λ x. absurd (cc (x.1)))
  where
    and_off : (b : Bool) → (b && false) ≡ false
    and_off b = ground arith
snapshot_iff codec (some v) cell_value = (
  λ e.
      let (h, hashes, there) = (hash_of_iff (content_hash codec v) cell_value).0 (&&-left _ _ e) in
      (v, refl, (h, hashes, there)),
  λ x.
      let same : v ≡ x.0 = cc (x.1) in
      rw
        ((hash_of_iff (content_hash codec v) cell_value).1
          (x.2.0, ap (content_hash codec) same ∙ x.2.1, x.2.2))
        refl,
)

bound_iff :
    (o p : Option Value)
    → (is_bound_id o p ≡ true) ↔ (
        (kind subject : String)
        → o ≡ some (str kind)
        → p ≡ some (str subject)
        → is_id kind subject ≡ true)
unfolding is_bound_id
bound_iff (some (str a)) (some (str b)) = (
  λ h kind subject e f.
      let same_kind : a ≡ kind = cc e in
      let same_subject : b ≡ subject = cc f in
      subst₂ (λ x y. is_id x y ≡ true) same_kind same_subject h,
  λ g. g a b refl refl,
)
bound_iff none _ = (λ _ kind subject e f. absurd (cc e), λ _. refl)
bound_iff (some (str a)) none = (λ _ kind subject e f. absurd (cc f), λ _. refl)
bound_iff (some (str a)) (some _) = (λ _ kind subject e f. absurd (cc f), λ _. refl)
bound_iff (some _) _ = (λ _ kind subject e f. absurd (cc e), λ _. refl)

-- a value is one text only
other_text :
    (s t : String) (v : Value)
    → is_this_text s (str t) ≡ false
    → v ≡ str t
    → is_this_text s v ≡ false
other_text s t v h e = subst (λ x. is_this_text s x ≡ false) (sym e) h

this_text_so : (s : String) (v : Value) → v ≡ str s → is_this_text s v ≡ true
this_text_so s v e = subst (λ x. is_this_text s x ≡ true) (sym e) (str-this_text s)

semantics_to :
    (codec : Codec) (id : Value) (es : Entries)
    → semantics_of codec id es ≡ true
    → SemanticsOf codec id es
unfolding semantics_of is_this_text
semantics_to codec id es h = record {
  checkpoint = λ e.
      (snapshot_iff codec (get "snapshot" es) (get "content_hash" es)).0
        (rw (this_text_so "urn:qingtian-ai:schema:checkpoint:v1" id e) at h);
  receipt = λ e. (hash_of_iff _ (get "receipt_hash" es)).0 (
      rw
        (
          other_text "urn:qingtian-ai:schema:checkpoint:v1" _ id refl e,
          this_text_so "urn:qingtian-ai:schema:verification-receipt:v1" id e,
        )
        at h);
  evidence = λ e. (bound_iff (get "subject_type" es) (get "subject_id" es)).0 (
      rw
        (
          other_text "urn:qingtian-ai:schema:checkpoint:v1" _ id refl e,
          other_text "urn:qingtian-ai:schema:verification-receipt:v1" _ id refl e,
          this_text_so "urn:qingtian-ai:schema:evidence:v1" id e,
        )
        at h);
}

semantics_from :
    (codec : Codec) (id : Value) (es : Entries)
    → SemanticsOf codec id es
    → semantics_of codec id es ≡ true
unfolding semantics_of is_this_text
semantics_from codec id es m =
    elim (Bool-cases (is_this_text "urn:qingtian-ai:schema:checkpoint:v1" id)) [
      | inl a ↦ rw a (
          (snapshot_iff codec (get "snapshot" es) (get "content_hash" es)).1
            (m.checkpoint (this_text-str _ id a)))
      | inr a ↦
          rw a
            (elim (Bool-cases (is_this_text "urn:qingtian-ai:schema:verification-receipt:v1" id)) [
              | inl b ↦
                  rw b
                    ((hash_of_iff _ (get "receipt_hash" es)).1 (m.receipt (this_text-str _ id b)))
              | inr b ↦
                  rw b (elim (Bool-cases (is_this_text "urn:qingtian-ai:schema:evidence:v1" id)) [
                    | inl c ↦ rw c (
                        (bound_iff (get "subject_type" es) (get "subject_id" es)).1
                          (m.evidence (this_text-str _ id c)))
                    | inr c ↦ rw c refl
                  ])
            ])
    ]

pub SemanticsMeet-iff :
    (codec : Codec) (v : Value) (schema : Entries)
    → (validate_semantics codec v schema ≡ true) ↔ SemanticsMeet codec v schema
unfolding validate_semantics
SemanticsMeet-iff codec (dict es) schema = (semantics_to codec _ es, semantics_from codec _ es)
SemanticsMeet-iff codec _ schema = (λ _. tt, λ _. refl)
