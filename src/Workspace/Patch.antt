-- ===== src/Workspace/Patch.antt =====
-- What `Workspace.patch` of server/fenixspoon/core/workspace.py writes.
use fenix_spoon.Prelude.{
  ◌≡◌, refl, sym, ◌∙◌, ap, subst, inl, inr, ℕ, ◌+◌, String, Bool, true, false, Option, none, some,
  Eq, ◌==◌, Result, ok, err, ◌>>◌, guard, arith, >>=-eq-ok, not, Option-cases, ◌≢◌,
}
use fenix_spoon.Objects.{
  ObjectType, Base, base_beq_iff, Reference, reference, malformed, parts, ObjectRecord, Files, get,
  revise, write, revision_at,
}
use fenix_spoon.Objects.History.{Extends, write_ok, write_fresh, revision_at-write}
use fenix_spoon.Objects.Steps.{Steps, idle, revised, Steps-Extends}
use fenix_spoon.Workspace.{
  Schemas, is_expected, invalid_patch, patch_changed_nothing, or_raise, raise_as, record_of,
  validate, patch, next_record, unpinned, file_error,
}

-- A value given by `or_raise` was there.
pub or_raise-ok : {E A : Type 0} (o : Option A) (e : E) {a : A} → or_raise o e ≡ ok a → o ≡ some a
or_raise-ok none e h = ground (arith, h)
or_raise-ok (some b) e h = ground (arith, h)

pub raise_as-ok :
    {E D A : Type 0} (f : E → D) (r : Result E A) {a : A} → raise_as f r ≡ ok a → r ≡ ok a
raise_as-ok f (ok b) h = ground (arith, h)
raise_as-ok f (err e) h = ground (arith, h)

guard-ok : {E : Type 0} (b : Bool) (e : E) → guard b e ≡ ok tt → b ≡ true
guard-ok true e h = refl
guard-ok false e h = ground (arith, h)

pub record_of-ok :
    {B : Type 0} (b : Base) (n : Option ℕ) (owner : String) (expected : Option ObjectType)
    (files : Files B) (r : ObjectRecord B)
    → record_of (reference b n) owner expected files ≡ ok r
    → (get b n (some owner) files ≡ some r) × (is_expected expected r.object_type ≡ true)
unfolding record_of parts
record_of-ok b n owner expected files r h = elim (Option-cases (get b n (some owner) files)) [
  | inl missing ↦ ground (arith, missing, h)
  | inr (there, found) ↦ ground (arith, found, h)
]

module _ {B G P V J : Type 0} ⦃e : Eq B⦄ (s : Schemas B G P V J) where
  -- What a patch that is written was computed from, and that it was written.
  pub record Patched (b : Base) (changes : J) (owner : String) (label : Option String) (now : ℕ)
      (read files files' : Files B) (r : ObjectRecord B) : Type 0 where
    pub current : ObjectRecord B
    pub head : get b none (some owner) read ≡ some current
    pub applied : s.apply_patch current.body changes ≡ some r.body
    pub changed : (r.body == current.body) ≡ false
    pub valid : validate s current.object_type r.body ≡ ok tt
    pub next : r ≡ next_record current owner r.body label now
    pub written : revise r files ≡ ok (files', r)

  pub patch-Patched :
      (ref : Reference) (changes : J) (owner : String) (label : Option String) (now : ℕ)
      (read files files' : Files B) (r : ObjectRecord B)
      → patch s ref changes owner label now read files ≡ ok (files', r)
      → (b : Base) × (ref ≡ reference b none)
        × Patched b changes owner label now read files files' r
  unfolding patch unpinned revise
  patch-Patched (malformed text) changes owner label now read files files' r h = ground (arith, h)
  patch-Patched (reference b (some n)) changes owner label now read files files' r h =
      ground (arith, h)
  patch-Patched (reference b none) changes owner label now read files files' r h =
      let (current, found, h1) = >>=-eq-ok (record_of (reference b none) owner none read) _ h in
      let (body, applied, h2) =
        >>=-eq-ok (or_raise (s.apply_patch current.body changes) invalid_patch) _ h1 in
      let distinct = guard (not (body == current.body)) (patch_changed_nothing b) in
      let fits = validate s current.object_type body in
      let (_, checked, h3) = >>=-eq-ok (distinct >> fits) _ h2 in
      let (_, differs, valid) = >>=-eq-ok distinct _ checked in
      let new = next_record current owner body label now in
      let written = raise_as-ok file_error _ h3 in
      let (_, _, _, _, same) = write_ok new files written in
      let passed = or_raise-ok (s.apply_patch current.body changes) invalid_patch applied in
      let other = guard-ok (not (body == current.body)) (patch_changed_nothing b) differs in
      (
        b,
        refl,
        subst (Patched b changes owner label now read files files') same (record {
          current = current;
          head = (record_of-ok b none owner none read current found).0;
          applied = passed;
          changed = ground (arith, other);
          valid = valid;
          next = refl;
          written = subst (λ x. write new.ref new files ≡ ok (files', x)) (sym same) written;
        }),
      )

  -- A patch that is written comes from the head its owner reads: the patched body differs from the
  -- head's and fits its type, and stands in a new file, the head's next revision; every file that
  -- was there stands as it did.
  pub patch_writes_next :
      (ref : Reference) (changes : J) (owner : String) (label : Option String) (now : ℕ)
      (read files files' : Files B) (r : ObjectRecord B)
      → patch s ref changes owner label now read files ≡ ok (files', r)
      → (b : Base) × (current : ObjectRecord B) × (ref ≡ reference b none)
        × (get b none (some owner) read ≡ some current)
        × (s.apply_patch current.body changes ≡ some r.body)
        × ((r.body == current.body) ≡ false)
        × (validate s r.object_type r.body ≡ ok tt)
        × (r.revision ≡ current.revision + 1)
        × (r.ref ≡ current.ref)
        × (revision_at r.ref r.revision files ≡ none)
        × (revision_at r.ref r.revision files' ≡ some r)
        × Steps files files'
  unfolding revise
  patch_writes_next ref changes owner label now read files files' r h =
      let (b, unpinned, p) = patch-Patched ref changes owner label now read files files' r h in
      (
        b,
        p.current,
        unpinned,
        p.head,
        p.applied,
        p.changed,
        subst (λ t. validate s t r.body ≡ ok tt) (sym (ap (λ x. x.object_type) p.next)) p.valid,
        ap (λ x. x.revision) p.next,
        ap (λ x. x.ref) p.next,
        write_fresh r files p.written,
        ground
            (arith, revision_at-write r files p.written r.ref r.revision, base_beq_iff r.ref r.ref),
        revised r r files files' files' p.written (idle files'),
      )

  -- Once a patch of a head is written, no other patch that read the same head is, whatever else
  -- is written in between: it does not overwrite the revision.
  pub patch_loses_the_race :
      (ref : Reference) (first second : J) (owner : String) (label label' : Option String)
      (now now' : ℕ) (read files files' later files'' : Files B) (r r' : ObjectRecord B)
      → patch s ref first owner label now read files ≡ ok (files', r)
      → Steps files' later
      → patch s ref second owner label' now' read later ≢ ok (files'', r')
  unfolding revise Extends
  patch_loses_the_race ref first second owner label label' now now' read files files' later files''
        r r' h between h' =
      let (b, one, p) = patch-Patched ref first owner label now read files files' r h in
      let (c, two, q) = patch-Patched ref second owner label' now' read later files'' r' h' in
      let same_base : b ≡ c = ground (arith, one, two) in
      let same_head : p.current ≡ q.current = ground (arith, same_base, p.head, q.head) in
      let there : revision_at r.ref r.revision files' ≡ some r =
        ground
          (arith, revision_at-write r files p.written r.ref r.revision, base_beq_iff r.ref r.ref) in
      let kept = Steps-Extends files' later between r.ref r.revision in
      let same_ref : r.ref ≡ r'.ref =
        ap (λ x. x.ref) p.next ∙ ap (λ x. x.ref) same_head ∙ sym (ap (λ x. x.ref) q.next) in
      let same_revision : r.revision ≡ r'.revision =
        ap (λ x. x.revision) p.next
        ∙ ap (λ x. x.revision + 1) same_head
        ∙ sym (ap (λ x. x.revision) q.next) in
      ground (arith, there, kept, write_fresh r' later q.written, same_ref, same_revision)
