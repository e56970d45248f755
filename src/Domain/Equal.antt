-- ===== src/Domain/Equal.antt =====
-- Equality of the envelopes of internal/domain/transition.go, as of the JSON that they encode to.
use riquet.Domain.Json.{
  Fields, Items, Json, a_field, an_item, array, big, bool, int, no_fields, no_items, null, object,
  other_number, text,
}
use riquet.Domain.Transition.{
  Envelope, RawMessage, TransitionKind, checksum, compatibility_deleted, compatibility_set, encoded,
  malformed, mode_deleted, mode_set, no_bytes, other_kind, schema_registered, subject_deleted,
  version_deleted,
}
use riquet.Domain.Types.{Result, Version}
use riquet.Map.{same_refl}
use riquet.Prelude.{
  Bool, List, [], ap, arith, eq_iff, false, if◌then◌else◌, nat_eq_iff, not, number_eq, refl,
  string_eq, true, ◌&&◌, ◌==◌, ◌∷◌, ◌≡◌,
}

abbrev mutual
  pub same_json : Json → Json → Bool
  same_json null null = true
  same_json (bool a) (bool b) = if a then b else not b
  same_json (int a) (int b) = a == b
  same_json (big a) (big b) = a == b
  same_json (other_number a) (other_number b) = a == b
  same_json (text a) (text b) = a == b
  same_json (array a) (array b) = same_items a b
  same_json (object a) (object b) = same_fields a b
  same_json _ _ = false

  pub same_items : Items → Items → Bool
  same_items no_items no_items = true
  same_items (an_item a xs) (an_item b ys) = same_json a b && same_items xs ys
  same_items _ _ = false

  pub same_fields : Fields → Fields → Bool
  same_fields no_fields no_fields = true
  same_fields (a_field j a xs) (a_field k b ys) = j == k && same_json a b && same_fields xs ys
  same_fields _ _ = false

both : (a b : Bool) → (a && b) ≡ true → (a ≡ true) × (b ≡ true)
both true b h = (refl, h)
both false b h = absurd (cc)

mutual
  same_json-eq : (a b : Json) → same_json a b ≡ true → a ≡ b
  same_json-eq null null h = refl
  same_json-eq (bool a) (bool b) h = ground arith
  same_json-eq (int a) (int b) h = ap int (ground (arith, nat_eq_iff a b))
  same_json-eq (big a) (big b) h = ap big (ground (arith, nat_eq_iff a b))
  same_json-eq (other_number a) (other_number b) h = ap other_number (ground (arith, eq_iff a b))
  same_json-eq (text a) (text b) h = ap text (ground (arith, eq_iff a b))
  same_json-eq (array a) (array b) h = ap array (same_items-eq a b h)
  same_json-eq (object a) (object b) h = ap object (same_fields-eq a b h)
  same_json-eq _ _ h = absurd (cc)

  same_items-eq : (a b : Items) → same_items a b ≡ true → a ≡ b
  same_items-eq no_items no_items h = refl
  same_items-eq (an_item a xs) (an_item b ys) h =
      let first = same_json-eq a b (ground arith) in
      let rest = same_items-eq xs ys (ground arith) in cc
  same_items-eq _ _ h = absurd (cc)

  same_fields-eq : (a b : Fields) → same_fields a b ≡ true → a ≡ b
  same_fields-eq no_fields no_fields h = refl
  same_fields-eq (a_field j a xs) (a_field k b ys) h =
      let (front, tail) = both (j == k && same_json a b) (same_fields xs ys) h in
      let (head, value) = both (j == k) (same_json a b) front in
      let key : j ≡ k = (eq_iff j k).0 head in
      let first = same_json-eq a b value in let rest = same_fields-eq xs ys tail in cc
  same_fields-eq _ _ h = absurd (cc)

mutual
  same_json_refl : (a : Json) → same_json a a ≡ true
  same_json_refl null = refl
  same_json_refl (bool true) = refl
  same_json_refl (bool false) = refl
  same_json_refl (int a) = same_refl a
  same_json_refl (big a) = same_refl a
  same_json_refl (other_number a) = same_refl a
  same_json_refl (text a) = same_refl a
  same_json_refl (array a) = same_items_refl a
  same_json_refl (object a) = same_fields_refl a

  same_items_refl : (a : Items) → same_items a a ≡ true
  same_items_refl no_items = refl
  same_items_refl (an_item a xs) = rw (same_json_refl a, same_items_refl xs) refl

  same_fields_refl : (a : Fields) → same_fields a a ≡ true
  same_fields_refl no_fields = refl
  same_fields_refl (a_field j a xs) = rw (same_refl j, same_json_refl a, same_fields_refl xs) refl

abbrev pub same_kind : TransitionKind → TransitionKind → Bool
same_kind schema_registered schema_registered = true
same_kind version_deleted version_deleted = true
same_kind subject_deleted subject_deleted = true
same_kind compatibility_set compatibility_set = true
same_kind compatibility_deleted compatibility_deleted = true
same_kind mode_set mode_set = true
same_kind mode_deleted mode_deleted = true
same_kind (other_kind a) (other_kind b) = a == b
same_kind _ _ = false

same_kind-eq : (a b : TransitionKind) → same_kind a b ≡ true → a ≡ b
same_kind-eq schema_registered schema_registered h = refl
same_kind-eq version_deleted version_deleted h = refl
same_kind-eq subject_deleted subject_deleted h = refl
same_kind-eq compatibility_set compatibility_set h = refl
same_kind-eq compatibility_deleted compatibility_deleted h = refl
same_kind-eq mode_set mode_set h = refl
same_kind-eq mode_deleted mode_deleted h = refl
same_kind-eq (other_kind a) (other_kind b) h = ap other_kind ((eq_iff a b).0 h)
same_kind-eq _ _ h = absurd (cc)

same_kind_refl : (a : TransitionKind) → same_kind a a ≡ true
same_kind_refl (other_kind a) = same_refl a
same_kind_refl schema_registered = refl
same_kind_refl version_deleted = refl
same_kind_refl subject_deleted = refl
same_kind_refl compatibility_set = refl
same_kind_refl compatibility_deleted = refl
same_kind_refl mode_set = refl
same_kind_refl mode_deleted = refl

abbrev pub same_payload : RawMessage → RawMessage → Bool
same_payload no_bytes no_bytes = true
same_payload malformed malformed = true
same_payload (encoded a) (encoded b) = same_json a b
same_payload _ _ = false

same_payload-eq : (a b : RawMessage) → same_payload a b ≡ true → a ≡ b
same_payload-eq no_bytes no_bytes h = refl
same_payload-eq malformed malformed h = refl
same_payload-eq (encoded a) (encoded b) h = ap encoded (same_json-eq a b h)
same_payload-eq _ _ h = absurd (cc)

same_payload_refl : (a : RawMessage) → same_payload a a ≡ true
same_payload_refl no_bytes = refl
same_payload_refl malformed = refl
same_payload_refl (encoded a) = same_json_refl a

abbrev pub same_versions : List Version → List Version → Bool
same_versions [] [] = true
same_versions (a ∷ xs) (b ∷ ys) = a == b && same_versions xs ys
same_versions _ _ = false

same_versions-eq : (a b : List Version) → same_versions a b ≡ true → a ≡ b
same_versions-eq [] [] h = refl
same_versions-eq (a ∷ xs) (b ∷ ys) h =
    let (head, tail) = both (a == b) (same_versions xs ys) h in
    let first = (nat_eq_iff a b).0 head in let rest = same_versions-eq xs ys tail in cc
same_versions-eq _ _ h = absurd (cc)

same_versions_refl : (a : List Version) → same_versions a a ≡ true
same_versions_refl [] = refl
same_versions_refl (a ∷ xs) = rw (same_refl a, same_versions_refl xs) refl

abbrev pub same_result : Result → Result → Bool
same_result a b =
    a.schema_id == b.schema_id
    && (a.guid == b.guid && (a.version == b.version && same_versions a.versions b.versions))

same_result-eq : (a b : Result) → same_result a b ≡ true → a ≡ b
same_result-eq a b h =
    let (id, h₁) = both (a.schema_id == b.schema_id) _ h in
    let (guid, h₂) = both (a.guid == b.guid) _ h₁ in
    let (version, versions) = both (a.version == b.version) _ h₂ in
    λ i. record {
      schema_id = (nat_eq_iff a.schema_id b.schema_id).0 id i;
      guid = (eq_iff a.guid b.guid).0 guid i;
      version = (nat_eq_iff a.version b.version).0 version i;
      versions = same_versions-eq a.versions b.versions versions i;
    }

-- bytes.Equal on two encoded envelopes.
unfoldable pub same_envelope : Envelope → Envelope → Bool
same_envelope a b =
    a.version == b.version
    && (a.sequence == b.sequence
        && (a.operation_id == b.operation_id
            && (same_kind a.kind b.kind
                && (same_payload a.payload b.payload
                    && (same_result a.result b.result && a.checksum == b.checksum)))))

pub same_envelope-eq : (a b : Envelope) → same_envelope a b ≡ true → a ≡ b
unfolding same_envelope
same_envelope-eq a b h =
    let (version, h₁) = both (a.version == b.version) _ h in
    let (sequence, h₂) = both (a.sequence == b.sequence) _ h₁ in
    let (operation_id, h₃) = both (a.operation_id == b.operation_id) _ h₂ in
    let (kind, h₄) = both (same_kind a.kind b.kind) _ h₃ in
    let (payload, h₅) = both (same_payload a.payload b.payload) _ h₄ in
    let (result, checksum) = both (same_result a.result b.result) _ h₅ in
    λ i. record {
      version = (nat_eq_iff a.version b.version).0 version i;
      sequence = (nat_eq_iff a.sequence b.sequence).0 sequence i;
      operation_id = (eq_iff a.operation_id b.operation_id).0 operation_id i;
      kind = same_kind-eq a.kind b.kind kind i;
      payload = same_payload-eq a.payload b.payload payload i;
      result = same_result-eq a.result b.result result i;
      checksum = (eq_iff a.checksum b.checksum).0 checksum i;
    }

pub same_envelope_refl : (a : Envelope) → same_envelope a a ≡ true
unfolding same_envelope
same_envelope_refl a =
    rw
      (
        same_refl a.version,
        same_refl a.sequence,
        same_refl a.operation_id,
        same_kind_refl a.kind,
        same_payload_refl a.payload,
        same_refl a.result.schema_id,
        same_refl a.result.guid,
        same_refl a.result.version,
        same_versions_refl a.result.versions,
        same_refl a.checksum,
      )
      refl
