-- ===== src/Objects/History.antt =====
-- A revision, once written, reads the same for ever, and an object's revisions are 1 up to its
-- head (server/fenixspoon/objects.py).
use fenix_spoon.Prelude.{
  ◌≡◌, subst, ℕ, zero, suc, ◌+◌, ◌<◌, String, [], ◌∷◌, refl, ◌⊎◌, inl, inr, ◌&&◌, nat_eq, Option,
  none, some, ◌==◌, if◌then◌else◌, ok, arith, Bool-cases, Option-cases, nat_beq_iff,
}
use fenix_spoon.Dict.{Dict, keys, lookup, insert, lookup-insert}
use fenix_spoon.Objects.{
  ObjectType, object_type_beq_iff, Base, base_beq, base_beq_iff, base_eq, object_type_eq,
  ObjectRecord, Files, revision_at, highest_number, next_number, allocate, write, create,
}

-- A number past the highest is free.
lookup-highest_number :
    {B : Type 0} (t : ObjectType) (n : ℕ) (files : Files B)
    → highest_number t (keys files) < n
    → lookup (record { object_type = t; number = n }) files ≡ none
unfolding highest_number lookup
lookup-highest_number t n [] h = refl
lookup-highest_number t n ((b, dir) ∷ files) h = ground (
  arith,
  lookup-highest_number t n files,
  object_type_beq_iff t b.object_type,
  object_type_beq_iff b.object_type t,
  nat_beq_iff b.number n,
)

-- The loop of `create` ends at a free number.
lookup-allocate :
    {B : Type 0} (fuel : ℕ) (t : ObjectType) (n : ℕ) (files : Files B)
    → highest_number t (keys files) < n + fuel
    → lookup (record { object_type = t; number = allocate fuel t n files }) files ≡ none
unfolding allocate
lookup-allocate zero t n files h = lookup-highest_number t n files (omega (arith, h))
lookup-allocate (suc fuel) t n files h =
    elim (Option-cases (lookup (record { object_type = t; number = n }) files)) [
      | inl free ↦ rw (allocate, free) free
      | inr (dir, taken) ↦
          rw (allocate, taken) (lookup-allocate fuel t (suc n) files (omega (arith, h)))
    ]

-- All the files of one state stand in the other, with the same contents.
unfoldable pub Extends : {B : Type 0} → Files B → Files B → Type 0
Extends old new =
    (b : Base) (n : ℕ) → (revision_at b n old ≡ none) ⊎ (revision_at b n new ≡ revision_at b n old)

module _ {B : Type 0} where
  revision_at-insert :
      (b c : Base) (n : ℕ) (dir : Dict ℕ (ObjectRecord B)) (files : Files B)
      → revision_at c n (insert b dir files)
        ≡ (if base_beq b c then lookup n dir else revision_at c n files)
  unfolding revision_at
  revision_at-insert b c n dir files = ground (arith, lookup-insert b c dir files)

  -- A write that succeeds finds the directory and no such file in it.
  pub write_ok :
      (r : ObjectRecord B) (files : Files B) {files' : Files B} {r' : ObjectRecord B}
      → write r.ref r files ≡ ok (files', r')
      → (dir : Dict ℕ (ObjectRecord B)) × (lookup r.ref files ≡ some dir)
        × (lookup r.revision dir ≡ none)
        × (insert r.ref (insert r.revision r dir) files ≡ files')
        × (r ≡ r')
  unfolding write
  write_ok r files h = elim (Option-cases (lookup r.ref files)) [
    | inl missing ↦ ground arith
    | inr (dir, there) ↦ elim (Option-cases (lookup r.revision dir)) [
      | inl free ↦ (dir, there, free, ground arith, ground arith)
      | inr (old, taken) ↦ ground arith
    ]
  ]

  -- A write adds one file and changes no other.
  pub revision_at-write :
      (r : ObjectRecord B) (files : Files B) {files' : Files B} {r' : ObjectRecord B}
      → write r.ref r files ≡ ok (files', r')
      → (b : Base) (n : ℕ)
      → revision_at b n files'
        ≡ (if base_beq r.ref b && r.revision == n then some r else revision_at b n files)
  unfolding revision_at
  revision_at-write r files h b n =
      let (dir, there, free, same, _) = write_ok r files h in
      subst
        (λ fs.
          revision_at b n fs
          ≡ (if base_beq r.ref b && r.revision == n then some r else revision_at b n files))
        same
        (ground (
          arith,
          there,
          revision_at-insert r.ref b n (insert r.revision r dir) files,
          lookup-insert r.revision n r dir,
          base_beq_iff r.ref b,
        ))

  -- The file that a write makes was not there.
  pub write_fresh :
      (r : ObjectRecord B) (files : Files B) {files' : Files B} {r' : ObjectRecord B}
      → write r.ref r files ≡ ok (files', r')
      → revision_at r.ref r.revision files ≡ none
  unfolding revision_at
  write_fresh r files h =
      let (dir, there, free, _, _) = write_ok r files h in ground (arith, there, free)

  pub write-Extends :
      (r : ObjectRecord B) (files : Files B) {files' : Files B} {r' : ObjectRecord B}
      → write r.ref r files ≡ ok (files', r')
      → Extends files files'
  unfolding Extends
  write-Extends r files h b n = ground (
    arith,
    revision_at-write r files h b n,
    write_fresh r files h,
    base_beq_iff r.ref b,
    nat_beq_iff r.revision n,
    Option-cases (revision_at b n files),
  )

  -- Every file holds the record that its path says.
  unfoldable pub Filed : Files B → Type 0
  Filed files =
      (b : Base) (n : ℕ)
      → (revision_at b n files ≡ none)
        ⊎ ((r : ObjectRecord B) × (revision_at b n files ≡ some r) × (r.ref ≡ b) × (r.revision ≡ n))

  pub write-Filed :
      (r : ObjectRecord B) (files : Files B) {files' : Files B} {r' : ObjectRecord B}
      → write r.ref r files ≡ ok (files', r')
      → Filed files
      → Filed files'
  unfolding Filed
  write-Filed r files h filed b n =
      let now = revision_at-write r files h b n in
      elim (Bool-cases (base_beq r.ref b && r.revision == n)) [
        | inl this ↦ inr (
          r,
          ground (arith, now, this),
          ground (arith, this, base_beq_iff r.ref b),
          ground (arith, this, nat_beq_iff r.revision n),
        )
        | inr other ↦ elim (filed b n) [
          | inl missing ↦ inl (ground (arith, now, other, missing))
          | inr (old, there, ref, revision) ↦
              inr (old, ground (arith, now, other, there), ref, revision)
        ]
      ]

  -- the empty directory that `mkdir` makes holds no file
  pub mkdir-Extends :
      (b : Base) (files : Files B)
      → lookup b files ≡ none
      → (c : Base) (n : ℕ) → revision_at c n (insert b [] files) ≡ revision_at c n files
  unfolding revision_at lookup
  mkdir-Extends b files free c n =
      ground (arith, revision_at-insert b c n [] files, base_beq_iff b c, free)

  -- the object that `create` allocates
  pub allocated : ObjectType → Files B → Files B → Base
  allocated t scanned files = record {
    object_type = t;
    number = allocate (highest_number t (keys files) + 1) t (next_number t scanned) files;
  }

  pub allocated_free :
      (t : ObjectType) (scanned files : Files B) → lookup (allocated t scanned files) files ≡ none
  unfolding allocated
  allocated_free t scanned files =
      lookup-allocate (highest_number t (keys files) + 1) t (next_number t scanned) files
        (ground arith)

  -- `create` succeeds whatever others created since the scan, under a free id, at revision 1.
  pub create_fresh :
      (t : ObjectType) (owner : String) (body : B) (label : Option String) (now : ℕ)
      (scanned files : Files B)
      → (files' : Files B) × (r : ObjectRecord B) × (create t owner body label now scanned files
          ≡ ok (files', r))
        × (lookup r.ref files ≡ none)
        × (r.revision ≡ 1)
        × (r.body ≡ body)
        × (r.owner ≡ owner)
        × (r.ref.object_type ≡ t)
        × (r.object_type ≡ t)
        × (write r.ref r (insert r.ref [] files) ≡ ok (files', r))
  unfolding create write allocated lookup
  create_fresh t owner body label now scanned files =
      let free = allocated_free t scanned files in
      let b = allocated t scanned files in
      let made = lookup-insert b b [] files in
      let r : ObjectRecord B = record {
        ref = b;
        object_type = t;
        revision = 1;
        owner = owner;
        body = body;
        label = label;
        created_at = now;
      } in
      let done : write r.ref r (insert b [] files)
          ≡ ok (insert b (insert 1 r []) (insert b [] files), r) =
        ground (arith, made, base_beq_iff b b) in
      (
        insert b (insert 1 r []) (insert b [] files),
        r,
        done,
        free,
        refl,
        refl,
        refl,
        refl,
        refl,
        done,
      )
