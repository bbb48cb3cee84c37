-- ===== src/Tests/Files.antt =====
-- A workspace with a geometry, a load case and a design; it is patched, and the design resolved.
use fenix_spoon.Prelude.{
  ◌≡◌, refl, ℕ, ◌+◌, true, false, [], ◌∷◌, none, some, ok, arith, ◌≢◌, ◌==◌, string_eq, nat_eq,
  nat_beq_iff,
}
use fenix_spoon.Dict.{insert, lookup}
use fenix_spoon.Objects.{
  geometry, design, Base, base_eq, base_beq_iff, reference, parts, ObjectRecord, pinned, Files,
  revision_at, get, create, revise, write, head_revision, highest, object_type_eq,
}
use fenix_spoon.Objects.History.{Filed, create_fresh}
use fenix_spoon.Objects.Steps.{Steps, idle, revised, Steps-Filed, pinned_reads_the_same}
use fenix_spoon.Conditions.{merge_load_cases, merge_cases}
use fenix_spoon.Workspace.{
  Schemas, ResolvedDesign, patch, unpinned, record_of, records_of, validate, is_validated,
  resolve_design, resolve_named, load_cases_of,
}
use fenix_spoon.Workspace.Patch.{patch_writes_next, patch_loses_the_race}
use fenix_spoon.Workspace.Resolve.{Reproducible, resolve_design-Reproducible}

abbrev g_1 : Base
g_1 = record { object_type = geometry; number = 1 }

abbrev d_1 : Base
d_1 = record { object_type = design; number = 1 }

-- Bodies are numbers, and a patch replaces the body.
abbrev schemas : Schemas ℕ ℕ ℕ ℕ ℕ
schemas = record {
  apply_patch = λ body changes. some changes;
  accepts = λ t body. true;
  as_design = λ body. some (record {
    solver = "mock.heat2d";
    geometry = reference g_1 none;
    params = body;
    materials = [];
    boundary_conditions = [];
    load_cases = [];
  });
  as_geometry = λ body. some body;
  as_load_case = λ body. none;
}

abbrev first_shape : ObjectRecord ℕ
first_shape = record {
  ref = g_1;
  object_type = geometry;
  revision = 1;
  owner = "ada";
  body = 40;
  label = none;
  created_at = 5;
}

abbrev second_shape : ObjectRecord ℕ
second_shape = record first_shape { revision = 2; body = 41; created_at = 6 }

abbrev first_design : ObjectRecord ℕ
first_design = record first_shape { ref = d_1; object_type = design; body = 7 }

abbrev files : Files ℕ
files = (g_1, (1, first_shape) ∷ []) ∷ (d_1, (1, first_design) ∷ []) ∷ []

abbrev files_patched : Files ℕ
files_patched =
    (g_1, (1, first_shape) ∷ (2, second_shape) ∷ []) ∷ (d_1, (1, first_design) ∷ []) ∷ []

files-Filed : Filed files
unfolding Filed revision_at lookup
files-Filed b n = ground (arith, base_beq_iff g_1 b, base_beq_iff d_1 b, nat_beq_iff 1 n)

patched :
    patch schemas (reference g_1 none) 41 "ada" none 6 files files
    ≡ ok (files_patched, second_shape)
unfolding patch unpinned record_of parts get head_revision highest revision_at lookup insert revise
    write validate is_validated
patched = refl

patch-Steps : Steps files files_patched
unfolding revise write lookup insert
patch-Steps =
    revised second_shape second_shape files files_patched files_patched refl (idle files_patched)

patch_writes_next_example :
    (b : Base) × (current : ObjectRecord ℕ) × (reference g_1 none ≡ reference b none)
    × (get b none (some "ada") files ≡ some current)
    × (some 41 ≡ some second_shape.body)
    × ((second_shape.body == current.body) ≡ false)
    × (validate schemas geometry 41 ≡ ok tt)
    × (2 ≡ current.revision + 1)
    × (g_1 ≡ current.ref)
    × (revision_at g_1 2 files ≡ none)
    × (revision_at g_1 2 files_patched ≡ some second_shape)
    × Steps files files_patched
patch_writes_next_example =
    patch_writes_next schemas (reference g_1 none) 41 "ada" none 6 files files files_patched
      second_shape patched

-- Another patch of the same head, read before the first was written.
patch_loses_the_race_example :
    patch schemas (reference g_1 none) 42 "ada" none 7 files files_patched
    ≢ ok (files_patched, second_shape)
patch_loses_the_race_example =
    patch_loses_the_race schemas (reference g_1 none) 41 42 "ada" none none 6 7 files files
      files_patched files_patched files_patched second_shape second_shape patched
      (idle files_patched)

pinned_reads_the_same_example : get g_1 (some 1) (some "ada") files_patched ≡ some first_shape
unfolding get revision_at lookup
pinned_reads_the_same_example =
    pinned_reads_the_same files files_patched g_1 1 (some "ada") first_shape patch-Steps refl

Steps-Filed_example : Filed files_patched
Steps-Filed_example = Steps-Filed files files_patched patch-Steps files-Filed

-- Another process took g-2 since the scan.
abbrev files_taken : Files ℕ
files_taken = (g_1, []) ∷ (record { object_type = geometry; number = 2 }, []) ∷ []

create_fresh_example :
    (files' : Files ℕ) × (r : ObjectRecord ℕ) × (create geometry "bob" 50 none 8 files files_taken
      ≡ ok (files', r))
    × (lookup r.ref files_taken ≡ none)
    × (r.revision ≡ 1)
    × (r.body ≡ 50)
    × (r.owner ≡ "bob")
    × (r.ref.object_type ≡ geometry)
    × (r.object_type ≡ geometry)
    × (write r.ref r (insert r.ref [] files_taken) ≡ ok (files', r))
create_fresh_example = create_fresh geometry "bob" 50 none 8 files files_taken

abbrev resolved : ResolvedDesign ℕ ℕ
resolved = record {
  solver = "mock.heat2d";
  params = 7;
  conditions = [];
  design = reference d_1 (some 1);
  geometry = reference g_1 (some 1);
  materials = [];
  boundary_conditions = [];
  load_cases = [];
}

resolve_design-Reproducible_example :
    Reproducible schemas (reference d_1 none) "ada" files files_patched 40 resolved
unfolding resolve_design resolve_named record_of records_of load_cases_of parts get head_revision
    highest revision_at lookup merge_load_cases merge_cases pinned
resolve_design-Reproducible_example =
    resolve_design-Reproducible schemas (reference d_1 none) "ada" files files_patched 40 resolved
      files-Filed refl patch-Steps
