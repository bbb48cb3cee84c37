-- ===== src/Workspace/Resolve.antt =====
-- What `resolve_design` of server/fenixspoon/core/workspace.py pins: the references it gives read
-- the same inputs in every later state of the store.
use fenix_spoon.Prelude.{
  ◌≡◌, refl, sym, ◌∙◌, ap, subst, inl, inr, ℕ, String, List, [], ◌∷◌, map, Option, some, ok, ◌>>=◌,
  arith, >>=-eq-ok, ok-injective,
}
use fenix_spoon.Objects.{
  ObjectType, design, geometry, load_case, material, boundary_condition, Base, Reference, reference,
  malformed, parts, ObjectRecord, pinned, Files, get, revision_at, wanted, owned,
}
use fenix_spoon.Objects.History.{Filed}
use fenix_spoon.Objects.Steps.{Steps, pinned_reads_the_same}
use fenix_spoon.Conditions.{merge_load_cases}
use fenix_spoon.Workspace.{
  Schemas, DesignBody, ResolvedDesign, or_raise, raise_as, record_of, records_of, load_cases_of,
  resolve_design, resolve_named, condition_error, invalid_object, validation_error,
}
use fenix_spoon.Workspace.Patch.{or_raise-ok, record_of-ok}

module _ {B : Type 0} where
  -- A record read through any reference is read through its pinned one.
  get-pinned :
      (b : Base) (n : Option ℕ) (owner : String) (files : Files B) (r : ObjectRecord B)
      → Filed files
      → get b n (some owner) files ≡ some r
      → get r.ref (some r.revision) (some owner) files ≡ some r
  unfolding get Filed
  get-pinned b n owner files r filed h = elim (filed b (wanted n b files)) [
    | inl missing ↦ ground (arith, missing, h)
    | inr (old, there, ref, revision) ↦
        let same : old ≡ r = ground (arith, there, h) in
        let same_ref : b ≡ r.ref = sym ref ∙ ap (λ x. x.ref) same in
        let same_revision : wanted n b files ≡ r.revision =
          sym revision ∙ ap (λ x. x.revision) same in
        subst (λ (c, m). owned (some owner) (revision_at c m files) ≡ some r)
          (ap (λ c. (c, wanted n b files)) same_ref ∙ ap (λ m. (r.ref, m)) same_revision) h
  ]

  record_of-pinned :
      (ref : Reference) (owner : String) (expected : Option ObjectType) (files later : Files B)
      (r : ObjectRecord B)
      → Filed files
      → record_of ref owner expected files ≡ ok r
      → Steps files later
      → record_of (pinned r) owner expected later ≡ ok r
  unfolding record_of pinned parts
  record_of-pinned (malformed text) owner expected files later r filed h steps = ground (arith, h)
  record_of-pinned (reference b n) owner expected files later r filed h steps =
      let (found, fits) = record_of-ok b n owner expected files r h in
      let now =
        pinned_reads_the_same files later r.ref r.revision (some owner) r steps
          (get-pinned b n owner files r filed found) in
      ground (arith, now, fits)

  records_of-pinned :
      (refs : List Reference) (owner : String) (expected : ObjectType) (files later : Files B)
      (rs : List (ObjectRecord B))
      → Filed files
      → records_of refs owner expected files ≡ ok rs
      → Steps files later
      → records_of (map pinned rs) owner expected later ≡ ok rs
  unfolding records_of
  records_of-pinned [] owner expected files later rs filed h steps =
      subst (λ xs. records_of (map pinned xs) owner expected later ≡ ok xs) (ok-injective h) refl
  records_of-pinned (ref ∷ refs) owner expected files later rs filed h steps =
      let (r, one, h1) = >>=-eq-ok (record_of ref owner (some expected) files) _ h in
      let (rest, more, h2) = >>=-eq-ok (records_of refs owner expected files) _ h1 in
      let first = record_of-pinned ref owner (some expected) files later r filed one steps in
      let others = records_of-pinned refs owner expected files later rest filed more steps in
      subst (λ xs. records_of (map pinned xs) owner expected later ≡ ok xs) (ok-injective h2)
        (ground (arith, first, others))

module _ {B G P V J : Type 0} (s : Schemas B G P V J) where
  -- What resolving `ref` in a state read, and that the references of the resolved design read the
  -- same records in a later state.
  pub record Reproducible (ref : Reference) (owner : String) (files later : Files B) (shape : G)
      (res : ResolvedDesign P V) : Type 0 where
    pub design_record : ObjectRecord B
    pub read_design : record_of ref owner (some design) files ≡ ok design_record
    pub reads_design : record_of res.design owner (some design) later ≡ ok design_record
    pub body : DesignBody P
    pub is_design : s.as_design design_record.body ≡ some body
    pub same_solver : res.solver ≡ body.solver
    pub same_params : res.params ≡ body.params
    pub geometry_record : ObjectRecord B
    pub read_geometry : record_of body.geometry owner (some geometry) files ≡ ok geometry_record
    pub reads_geometry : record_of res.geometry owner (some geometry) later ≡ ok geometry_record
    pub is_geometry : s.as_geometry geometry_record.body ≡ some shape
    pub load_cases : List (ObjectRecord B)
    pub read_load_cases : records_of body.load_cases owner load_case files ≡ ok load_cases
    pub reads_load_cases : records_of res.load_cases owner load_case later ≡ ok load_cases
    pub reads_conditions :
        (load_cases_of s load_cases >>= λ bodies.
        raise_as condition_error (merge_load_cases bodies))
        ≡ ok res.conditions
    pub materials : List (ObjectRecord B)
    pub read_materials : records_of body.materials owner material files ≡ ok materials
    pub reads_materials : records_of res.materials owner material later ≡ ok materials
    pub boundary_conditions : List (ObjectRecord B)
    pub read_boundary_conditions :
        records_of body.boundary_conditions owner boundary_condition files ≡ ok boundary_conditions
    pub reads_boundary_conditions :
        records_of res.boundary_conditions owner boundary_condition later ≡ ok boundary_conditions

  -- the same, from the design and the geometry that were read
  resolve_named-Reproducible :
      (ref : Reference) (body : DesignBody P) (d g : ObjectRecord B) (form : G) (owner : String)
      (files later : Files B) (shape : G) (res : ResolvedDesign P V)
      → Filed files
      → Steps files later
      → record_of ref owner (some design) files ≡ ok d
      → record_of (pinned d) owner (some design) later ≡ ok d
      → s.as_design d.body ≡ some body
      → record_of body.geometry owner (some geometry) files ≡ ok g
      → record_of (pinned g) owner (some geometry) later ≡ ok g
      → s.as_geometry g.body ≡ some form
      → resolve_named s body d g form owner files ≡ ok (shape, res)
      → Reproducible ref owner files later shape res
  unfolding resolve_named
  resolve_named-Reproducible ref body d g form owner files later shape res filed steps found_d
        there_d is_body found_g there_g is_form h =
      let (cases, found_c, h5) = >>=-eq-ok (records_of body.load_cases owner load_case files) _ h in
      let (bodies, is_bodies, h6) = >>=-eq-ok (load_cases_of s cases) _ h5 in
      let (conditions, merged, h7) =
        >>=-eq-ok (raise_as condition_error (merge_load_cases bodies)) _ h6 in
      let (ms, found_m, h8) = >>=-eq-ok (records_of body.materials owner material files) _ h7 in
      let (bcs, found_b, h9) =
        >>=-eq-ok (records_of body.boundary_conditions owner boundary_condition files) _ h8 in
      let there =
        records_of-pinned body.load_cases owner load_case files later cases filed found_c steps in
      subst (λ p. Reproducible ref owner files later p.0 p.1) (ok-injective h9)
        (record {
          design_record = d;
          read_design = found_d;
          reads_design = there_d;
          body = body;
          is_design = is_body;
          same_solver = refl;
          same_params = refl;
          geometry_record = g;
          read_geometry = found_g;
          reads_geometry = there_g;
          is_geometry = is_form;
          load_cases = cases;
          read_load_cases = found_c;
          reads_load_cases = there;
          reads_conditions = rw is_bodies merged;
          materials = ms;
          read_materials = found_m;
          reads_materials =
              records_of-pinned body.materials owner material files later ms filed found_m steps;
          boundary_conditions = bcs;
          read_boundary_conditions = found_b;
          reads_boundary_conditions =
              records_of-pinned body.boundary_conditions owner boundary_condition files later bcs
                filed found_b steps;
        })

  -- A design resolved in a state whose files hold what their paths say is reproducible for ever:
  -- after any creations and revisions, the references in the result read the very records of the
  -- design, and of the geometry, load cases, materials and boundary conditions that it names, which
  -- were read when it was resolved; solver and parameters are the design's, the shape is the
  -- geometry's, and the conditions are the merge of the load cases.
  pub resolve_design-Reproducible :
      (ref : Reference) (owner : String) (files later : Files B) (shape : G)
      (res : ResolvedDesign P V)
      → Filed files
      → resolve_design s ref owner files ≡ ok (shape, res)
      → Steps files later
      → Reproducible ref owner files later shape res
  unfolding resolve_design
  resolve_design-Reproducible ref owner files later shape res filed h steps =
      let (d, found_d, h1) = >>=-eq-ok (record_of ref owner (some design) files) _ h in
      let (body, is_body, h2) =
        >>=-eq-ok (or_raise (s.as_design d.body) (validation_error design)) _ h1 in
      let (g, found_g, h3) = >>=-eq-ok (record_of body.geometry owner (some geometry) files) _ h2 in
      let (form, is_form, h4) =
        >>=-eq-ok (or_raise (s.as_geometry g.body) (invalid_object geometry)) _ h3 in
      resolve_named-Reproducible ref body d g form owner files later shape res filed steps found_d
        (record_of-pinned ref owner (some design) files later d filed found_d steps)
        (or_raise-ok (s.as_design d.body) (validation_error design) is_body) found_g
        (record_of-pinned body.geometry owner (some geometry) files later g filed found_g steps)
        (or_raise-ok (s.as_geometry g.body) (invalid_object geometry) is_form) h4
