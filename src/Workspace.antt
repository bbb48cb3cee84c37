-- ===== src/Workspace.antt =====
-- Typed objects over the revision files (server/fenixspoon/core/workspace.py). The bodies are
-- values of `B`; pydantic's schemas and the jsonpatch package are the fields of `Schemas`.
pub mod Patch
pub mod Resolve
use fenix_spoon.Prelude.{
  ◌≡◌, ℕ, ◌+◌, not, String, Bool, true, false, List, [], ◌∷◌, map, Option, none, some, Eq, ◌==◌,
  if◌then◌else◌, Result, ok, err, guard, ◌>>=◌, ◌>>◌,
}
use fenix_spoon.Dict.{Dict, lookup, keys}
use fenix_spoon.Objects.{
  ObjectType, geometry, material, boundary_condition, load_case, design, study, optimization, Base,
  base_eq, object_type_eq, Reference, reference, malformed, parts, ObjectRecord, FileError, pinned,
  Files, get, create, revise,
}
use fenix_spoon.Conditions.{Conditions, LoadCaseBody, ConditionError, merge_load_cases}

pub record DesignBody (P : Type 0) : Type 0 where
  pub solver : String
  pub geometry : Reference
  pub params : P
  pub materials : List Reference
  pub boundary_conditions : List Reference
  pub load_cases : List Reference

pub record ResolvedDesign (P V : Type 0) : Type 0 where
  pub solver : String
  pub params : P
  pub conditions : Conditions V
  pub design : Reference
  pub geometry : Reference
  pub materials : List Reference
  pub boundary_conditions : List Reference
  pub load_cases : List Reference

pub data WorkspaceError : Type 0 where
  malformed_reference : Reference → WorkspaceError
  object_not_found : Reference → WorkspaceError
  wrong_object_type : Base → ObjectType → ObjectType → WorkspaceError
  cannot_patch_revision : Reference → WorkspaceError
  invalid_patch : WorkspaceError
  patch_changed_nothing : Base → WorkspaceError
  invalid_object : ObjectType → WorkspaceError
  -- pydantic's `ValidationError` of the body of a type, as it stands
  validation_error : ObjectType → WorkspaceError
  condition_error : ConditionError → WorkspaceError
  file_error : FileError → WorkspaceError

-- geometries in `G`, solver parameters in `P`, scalars in `V`, patches in `J`
pub record Schemas (B G P V J : Type 0) : Type 0 where
  -- `jsonpatch.apply_patch`, `none` where it raises
  pub apply_patch : B → J → Option B
  -- the adapter of a validated type accepts the body
  pub accepts : ObjectType → B → Bool
  pub as_design : B → Option (DesignBody P)
  pub as_geometry : B → Option G
  pub as_load_case : B → Option (LoadCaseBody V)

-- the keys of `VALIDATED`
unfoldable pub is_validated : ObjectType → Bool
is_validated boundary_condition = false
is_validated geometry = true
is_validated material = true
is_validated load_case = true
is_validated design = true
is_validated study = true
is_validated optimization = true

abbrev pub or_raise {ℓ κ} : {E : Type ℓ} {A : Type κ} → Option A → E → Result E A
or_raise none e = err e
or_raise (some a) e = ok a

abbrev pub raise_as {ℓ κ μ} :
    {E : Type ℓ} {D : Type κ} {A : Type μ} → (E → D) → Result E A → Result D A
raise_as f (ok a) = ok a
raise_as f (err e) = err (f e)

abbrev pub is_expected : Option ObjectType → ObjectType → Bool
is_expected none t = true
is_expected (some expected) t = t == expected

abbrev pub expected_or : Option ObjectType → ObjectType → ObjectType
expected_or none t = t
expected_or (some expected) t = expected

abbrev pub or_label : Option String → Option String → Option String
or_label none old = old
or_label (some label) old = some label

-- a reference without a revision, its base
unfoldable pub unpinned : Reference → Result WorkspaceError Base
unpinned (malformed text) = err (malformed_reference (malformed text))
unpinned (reference b none) = ok b
unpinned (reference b (some n)) = err (cannot_patch_revision (reference b (some n)))

module _ {B : Type 0} where
  abbrev pub next_record : ObjectRecord B → String → B → Option String → ℕ → ObjectRecord B
  next_record current owner body label now = record {
    ref = current.ref;
    object_type = current.object_type;
    revision = current.revision + 1;
    owner = owner;
    body = body;
    label = or_label label current.label;
    created_at = now;
  }

  -- `_record`
  unfoldable pub record_of :
      Reference → String → Option ObjectType → Files B → Result WorkspaceError (ObjectRecord B)
  record_of ref owner expected files =
      or_raise (parts ref) (malformed_reference ref) >>= λ (b, revision).
      or_raise (get b revision (some owner) files) (object_not_found ref) >>= λ r.
      guard (is_expected expected r.object_type)
        (wrong_object_type r.ref (expected_or expected r.object_type) r.object_type)
      >> ok r

  unfoldable pub records_of :
      List Reference → String → ObjectType → Files B → Result WorkspaceError (List (ObjectRecord B))
  records_of [] owner expected files = ok []
  records_of (ref ∷ refs) owner expected files = record_of ref owner (some expected) files >>= λ r.
      records_of refs owner expected files >>= λ rs. ok (r ∷ rs)

module _ {B G P V J : Type 0} where
  -- `_validate`
  unfoldable pub validate : Schemas B G P V J → ObjectType → B → Result WorkspaceError (Unit {0})
  validate s t body = if is_validated t then guard (s.accepts t body) (invalid_object t) else ok tt

  -- `Workspace.create`; a type that is none of the seven is not a value of `ObjectType`
  unfoldable pub create_object :
      Schemas B G P V J
      → ObjectType
      → B
      → String
      → Option String
      → (now : ℕ) (scanned files : Files B) → Result WorkspaceError (Files B × ObjectRecord B)
  create_object s t body owner label now scanned files =
      validate s t body >> raise_as file_error (create t owner body label now scanned files)

  -- `read` is the store when `patch` reads the head, `files` when it writes the revision
  unfoldable pub patch :
      ⦃e : Eq B⦄
      → Schemas B G P V J
      → Reference
      → J
      → String
      → Option String
      → (now : ℕ) (read files : Files B) → Result WorkspaceError (Files B × ObjectRecord B)
  patch s ref changes owner label now read files = unpinned ref >>= λ b.
      record_of (reference b none) owner none read >>= λ current.
      or_raise (s.apply_patch current.body changes) invalid_patch >>= λ patched.
      guard (not (patched == current.body)) (patch_changed_nothing b)
      >> validate s current.object_type patched
      >> raise_as file_error (revise (next_record current owner patched label now) files)

  unfoldable pub load_cases_of :
      Schemas B G P V J
      → List (ObjectRecord B)
      → Result WorkspaceError (List (Reference × LoadCaseBody V))
  load_cases_of s [] = ok []
  load_cases_of s (r ∷ rs) =
      or_raise (s.as_load_case r.body) (validation_error load_case) >>= λ body.
      load_cases_of s rs >>= λ bodies. ok ((pinned r, body) ∷ bodies)

  -- the rest of `resolve_design`, with its design, its geometry and the geometry's shape
  unfoldable pub resolve_named :
      Schemas B G P V J
      → DesignBody P
      → ObjectRecord B
      → ObjectRecord B
      → G
      → String
      → Files B
      → Result WorkspaceError (G × ResolvedDesign P V)
  resolve_named s body d g shape owner files =
      records_of body.load_cases owner load_case files >>= λ cases.
      load_cases_of s cases >>= λ bodies.
      raise_as condition_error (merge_load_cases bodies) >>= λ conditions.
      records_of body.materials owner material files >>= λ materials.
      records_of body.boundary_conditions owner boundary_condition files >>= λ boundary_conditions.
      ok (
        shape,
        record {
          solver = body.solver;
          params = body.params;
          conditions = conditions;
          design = pinned d;
          geometry = pinned g;
          materials = map pinned materials;
          boundary_conditions = map pinned boundary_conditions;
          load_cases = map pinned cases;
        },
      )

  unfoldable pub resolve_design :
      Schemas B G P V J
      → Reference
      → String
      → Files B
      → Result WorkspaceError (G × ResolvedDesign P V)
  resolve_design s ref owner files = record_of ref owner (some design) files >>= λ d.
      or_raise (s.as_design d.body) (validation_error design) >>= λ body.
      record_of body.geometry owner (some geometry) files >>= λ g.
      or_raise (s.as_geometry g.body) (invalid_object geometry) >>= λ shape.
      resolve_named s body d g shape owner files
