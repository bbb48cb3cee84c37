-- ===== src/Objects.antt =====
-- Workspace objects as revision files (server/fenixspoon/objects.py). A directory of the store
-- is a key of the model's dictionary, a file `<revision>.json` in it a key of its entry. A
-- reference is what `parse_ref` makes of its text, or the text that it refuses: the grammar of
-- references is not modelled.
pub mod History
pub mod Steps
use fenix_spoon.Prelude.{
  ◌≡◌, refl, zero, ap, sym, ◌∙◌, ℕ, suc, ◌+◌, ◌-◌, max, String, Bool, true, false, List, [], ◌∷◌,
  Option, none, some, Eq, ◌==◌, nat_eq, string_eq, if◌then◌else◌, leb, ◌&&◌, Result, ok, err, arith,
  ◌↔◌, nat_beq_iff,
}
use fenix_spoon.Dict.{Dict, keys, lookup, insert}

pub data ObjectType : Type 0 where
  geometry : ObjectType
  material : ObjectType
  boundary_condition : ObjectType
  load_case : ObjectType
  design : ObjectType
  study : ObjectType
  optimization : ObjectType

abbrev pub rank : ObjectType → ℕ
rank geometry = 0
rank material = 1
rank boundary_condition = 2
rank load_case = 3
rank design = 4
rank study = 5
rank optimization = 6

abbrev of_rank : ℕ → ObjectType
of_rank zero = geometry
of_rank (suc zero) = material
of_rank (suc (suc zero)) = boundary_condition
of_rank (suc (suc (suc zero))) = load_case
of_rank (suc (suc (suc (suc zero)))) = design
of_rank (suc (suc (suc (suc (suc zero))))) = study
of_rank _ = optimization

of_rank-rank : (t : ObjectType) → of_rank (rank t) ≡ t
of_rank-rank geometry = refl
of_rank-rank material = refl
of_rank-rank boundary_condition = refl
of_rank-rank load_case = refl
of_rank-rank design = refl
of_rank-rank study = refl
of_rank-rank optimization = refl

pub object_type_beq_iff : (s t : ObjectType) → ((rank s == rank t) ≡ true) ↔ (s ≡ t)
object_type_beq_iff s t = (
  (λ same.
      sym (of_rank-rank s) ∙ ap of_rank ((nat_beq_iff (rank s) (rank t)).0 same) ∙ of_rank-rank t),
  (λ same. (nat_beq_iff (rank s) (rank t)).1 (ap rank same)),
)

-- what a reference without a revision names: `geometry:g-1`
pub record Base : Type 0 where
  pub object_type : ObjectType
  pub number : ℕ

abbrev pub base_beq : Base → Base → Bool
base_beq a b = (rank a.object_type == rank b.object_type) && (a.number == b.number)

pub base_beq_iff : (a b : Base) → (base_beq a b ≡ true) ↔ (a ≡ b)
base_beq_iff a b =
    ground (arith, object_type_beq_iff a.object_type b.object_type, nat_beq_iff a.number b.number)

instance abbrev pub base_eq : Eq Base
base_eq = record { beq = base_beq; beq_iff = base_beq_iff }

instance abbrev pub object_type_eq : Eq ObjectType
object_type_eq = record { beq = λ s t. rank s == rank t; beq_iff = object_type_beq_iff }

-- what `parse_ref` returns for a text, or the text that it raises for
pub data Reference : Type 0 where
  reference : Base → Option ℕ → Reference
  malformed : String → Reference

unfoldable pub parts : Reference → Option (Base × Option ℕ)
parts (reference b revision) = some (b, revision)
parts (malformed text) = none

-- one revision of an object with a body in `B`
pub record ObjectRecord (B : Type 0) : Type 0 where
  pub ref : Base
  pub object_type : ObjectType
  pub revision : ℕ
  pub owner : String
  pub body : B
  pub label : Option String
  pub created_at : ℕ

pub data FileError : Type 0 where
  file_exists : Base → ℕ → FileError
  no_directory : Base → FileError

abbrev pub Files : Type 0 → Type 0
Files B = Dict Base (Dict ℕ (ObjectRecord B))

-- `max` of a directory's revision numbers, and 0 where there is none
unfoldable pub highest : List ℕ → ℕ
highest [] = 0
highest (n ∷ ns) = max n (highest ns)

-- the highest number that a directory of this type has
unfoldable pub highest_number : ObjectType → List Base → ℕ
highest_number t [] = 0
highest_number t (b ∷ bs) =
    let rest = highest_number t bs in if t == b.object_type then max b.number rest else rest

abbrev pub or_zero : Option ℕ → ℕ
or_zero none = 0
or_zero (some n) = n

module _ {B : Type 0} where
  -- the reference to this exact revision
  unfoldable pub pinned : ObjectRecord B → Reference
  pinned r = reference r.ref (some r.revision)

  unfoldable pub revision_at : Base → ℕ → Files B → Option (ObjectRecord B)
  revision_at b n files = elim (lookup b files) [ none ↦ none | some dir ↦ lookup n dir ]

  unfoldable pub head_revision : Base → Files B → Option ℕ
  head_revision b files = elim (lookup b files) [
    | none ↦ none
    | some [] ↦ none
    | some (e ∷ dir) ↦ some (highest (keys (e ∷ dir)))
  ]

  unfoldable pub next_number : ObjectType → Files B → ℕ
  next_number t scanned = highest_number t (keys scanned) + 1

  -- the loop over `mkdir`: `fuel` numbers are tried, from `n`
  unfoldable pub allocate : ℕ → ObjectType → ℕ → Files B → ℕ
  allocate zero t n files = n
  allocate (suc fuel) t n files = elim (lookup (record { object_type = t; number = n }) files) [
    | none ↦ n
    | some dir ↦ allocate fuel t (suc n) files
  ]

  -- `_write`, into the directory that it is given
  unfoldable pub write :
      Base → ObjectRecord B → Files B → Result FileError (Files B × ObjectRecord B)
  write directory r files = elim (lookup directory files) [
    | none ↦ err (no_directory directory)
    | some dir ↦ elim (lookup r.revision dir) [
      | none ↦ ok (insert directory (insert r.revision r dir) files, r)
      | some old ↦ err (file_exists r.ref r.revision)
    ]
  ]

  unfoldable pub revise : ObjectRecord B → Files B → Result FileError (Files B × ObjectRecord B)
  revise r files = write r.ref r files

  -- `scanned` are the directories when `_next_number` reads them, `files` when `mkdir` runs:
  -- others may have created some in between.
  unfoldable pub create :
      ObjectType
      → String
      → B
      → Option String
      → (now : ℕ) (scanned files : Files B) → Result FileError (Files B × ObjectRecord B)
  create t owner body label now scanned files =
      let fuel = highest_number t (keys files) + 1 in
      let n = allocate fuel t (next_number t scanned) files in
      let b : Base = record { object_type = t; number = n } in
      write b
        (record {
          ref = b;
          object_type = t;
          revision = 1;
          owner = owner;
          body = body;
          label = label;
          created_at = now;
        })
        (insert b [] files)

  abbrev pub owned : Option String → Option (ObjectRecord B) → Option (ObjectRecord B)
  owned owner none = none
  owned none (some r) = some r
  owned (some who) (some r) = if r.owner == who then some r else none

  abbrev pub wanted : Option ℕ → Base → Files B → ℕ
  wanted (some n) b files = n
  wanted none b files = or_zero (head_revision b files)

  unfoldable pub get : Base → Option ℕ → Option String → Files B → Option (ObjectRecord B)
  get b revision owner files = owned owner (revision_at b (wanted revision b files) files)
