-- ===== src/Objects/Steps.antt =====
-- The sequences of creations and revisions that a workspace goes through, by any callers
-- (server/fenixspoon/objects.py).
use fenix_spoon.Prelude.{
  ◌≡◌, subst, sym, ◌∙◌, ℕ, String, [], refl, ◌⊎◌, inr, nat_eq, Option, none, some, ok, arith,
  ok-injective,
}
use fenix_spoon.Dict.{lookup, insert}
use fenix_spoon.Objects.{
  ObjectType, Base, base_eq, object_type_eq, ObjectRecord, Files, write, revise, create, get,
}
use fenix_spoon.Objects.History.{
  Extends, Filed, write-Extends, write-Filed, mkdir-Extends, create_fresh,
}

module _ {B : Type 0} where
  Extends-trans : (a b c : Files B) → Extends a b → Extends b c → Extends a c
  unfolding Extends
  Extends-trans a b c ab bc d n = ground (arith, ab d n, bc d n)

  -- What the workspace goes through: objects created and revisions written, by any callers.
  pub data Steps : Files B → Files B → Type 0 where
    idle : (files : Files B) → Steps files files
    created :
        (t : ObjectType) (owner : String) (body : B) (label : Option String) (now : ℕ)
        (scanned files files' later : Files B) (r : ObjectRecord B)
        → create t owner body label now scanned files ≡ ok (files', r)
        → Steps files' later
        → Steps files later
    revised :
        (r r' : ObjectRecord B) (files files' later : Files B)
        → revise r files ≡ ok (files', r')
        → Steps files' later
        → Steps files later

  -- `create` writes in the directory it makes.
  create_written :
      (t : ObjectType) (owner : String) (body : B) (label : Option String) (now : ℕ)
      (scanned files files' : Files B) (r : ObjectRecord B)
      → create t owner body label now scanned files ≡ ok (files', r)
      → (lookup r.ref files ≡ none) × (write r.ref r (insert r.ref [] files) ≡ ok (files', r))
  create_written t owner body label now scanned files files' r h =
      let (fs, s, made, free, _, _, _, _, _, done) =
        create_fresh t owner body label now scanned files in
      subst
        (λ p. (lookup p.1.ref files ≡ none) × (write p.1.ref p.1 (insert p.1.ref [] files) ≡ ok p))
        (ok-injective (sym made ∙ h)) (free, done)

  create-Extends :
      (t : ObjectType) (owner : String) (body : B) (label : Option String) (now : ℕ)
      (scanned files files' : Files B) (r : ObjectRecord B)
      → create t owner body label now scanned files ≡ ok (files', r)
      → Extends files files'
  unfolding Extends
  create-Extends t owner body label now scanned files files' r h b n =
      let (free, done) = create_written t owner body label now scanned files files' r h in
      ground (
        arith,
        write-Extends r (insert r.ref [] files) done b n,
        mkdir-Extends r.ref files free b n,
      )

  create-Filed :
      (t : ObjectType) (owner : String) (body : B) (label : Option String) (now : ℕ)
      (scanned files files' : Files B) (r : ObjectRecord B)
      → create t owner body label now scanned files ≡ ok (files', r)
      → Filed files
      → Filed files'
  unfolding Filed
  create-Filed t owner body label now scanned files files' r h filed =
      let (free, done) = create_written t owner body label now scanned files files' r h in
      write-Filed r (insert r.ref [] files) done (λ b n.
        subst
          (λ x. (x ≡ none) ⊎ ((s : ObjectRecord B) × (x ≡ some s) × (s.ref ≡ b) × (s.revision ≡ n)))
          (sym (mkdir-Extends r.ref files free b n)) (filed b n))

  pub Steps-Extends : (old new : Files B) → Steps old new → Extends old new
  unfolding revise Extends
  Steps-Extends old new (idle files) = λ b n. inr refl
  Steps-Extends old new (created t owner body label now scanned files files' later r h rest) =
      Extends-trans files files' later
        (create-Extends t owner body label now scanned files files' r h)
        (Steps-Extends files' later rest)
  Steps-Extends old new (revised r r' files files' later h rest) =
      Extends-trans files files' later (write-Extends r files h) (Steps-Extends files' later rest)

  -- Every state that creations and revisions lead to, from one where every file holds the record
  -- that its directory and its number say, is one.
  pub Steps-Filed : (old new : Files B) → Steps old new → Filed old → Filed new
  unfolding revise
  Steps-Filed old new (idle files) filed = filed
  Steps-Filed old new (created t owner body label now scanned files files' later r h rest) filed =
      Steps-Filed files' later rest
        (create-Filed t owner body label now scanned files files' r h filed)
  Steps-Filed old new (revised r r' files files' later h rest) filed =
      Steps-Filed files' later rest (write-Filed r files h filed)

  -- A reference pinned to a revision, once it reads a record, reads that same record for the
  -- same owner after any sequence of creations and revisions.
  pub pinned_reads_the_same :
      (old new : Files B) (b : Base) (n : ℕ) (owner : Option String) (r : ObjectRecord B)
      → Steps old new
      → get b (some n) owner old ≡ some r
      → get b (some n) owner new ≡ some r
  unfolding get Extends
  pinned_reads_the_same old new b n owner r steps h =
      ground (arith, Steps-Extends old new steps b n, h)
