-- ===== src/Batch/BatchManager/Creation.antt =====
-- Which batches are created.
use routerbot.Base.{
  ℕ, ◌≤◌, ◌<◌, ◌≡◌, ◌↔◌, ◌⊎◌, refl, String, arith, Option, true, false, List, [], ◌∷◌, map, ltb,
  ltb→lt, ltb→le, eqb, length, contains, contains-In, In, string_eq, Bool-cases, inl, inr, Dict,
  insert,
}
use routerbot.Batch.JobQueue.{id_eq, eqb_iff}
use routerbot.Batch.BatchManager.{
  BatchRequest, BatchManager, BatchValidationError, no_request, too_large, duplicate_custom_id,
  created, refused, set_of, is_empty, new_batch, create_batch,
}

-- No text stands twice.
abbrev pub Nodup : List String → Type 0
Nodup [] = Unit
Nodup (x ∷ xs) = (¬ In x xs) × Nodup xs

length-set_of-le : (xs : List String) → length (set_of xs) ≤ length xs
unfolding set_of
length-set_of-le [] = omega arith
length-set_of-le (x ∷ xs) = ground (arith, length-set_of-le xs)

-- A list is as long as its set exactly when no text stands twice in it.
length-set_of : (xs : List String) → (length xs ≡ length (set_of xs)) ↔ Nodup xs
unfolding set_of
length-set_of [] = ((λ e. tt), λ h. refl)
length-set_of (x ∷ xs) =
    let ih = length-set_of xs in
    elim (Bool-cases (contains x xs)) [
      | inl t ↦ rw t (
        (λ e. absurd (omega (arith, length-set_of-le xs))),
        λ h. absurd (h.0 ((contains-In x xs).0 t)),
      )
      | inr f ↦ rw f (
        (λ e. (
          (λ m. let t : contains x xs ≡ true = (contains-In x xs).1 m in cc),
          ih.0 (omega arith),
        )),
        λ h. omega (arith, ih.1 h.1),
      )
    ]

is_empty-length : {A : Type 0} (xs : List A) → is_empty xs ≡ false → 0 < length xs
is_empty-length [] f = cc
is_empty-length (x ∷ xs) f = omega arith

length-is_empty : {A : Type 0} (xs : List A) → is_empty xs ≡ true → length xs ≡ 0
length-is_empty [] t = refl
length-is_empty (x ∷ xs) t = cc

module _ {B : Type 0} (now batch_id : ℕ) (requests : List (BatchRequest B))
    (metadata : Option (Dict String String)) (m : BatchManager B) where
  -- A batch is created exactly when it has a request, is within the size allowed, and names no
  -- request twice. Then it is found under its identifier, in progress, with nothing counted; else
  -- the manager stays as it was.
  pub create_batch_lem :
      ((create_batch now batch_id requests metadata m ≡ (
        created (new_batch now batch_id requests metadata),
        record m { batches = insert batch_id (new_batch now batch_id requests metadata) m.batches },
      ))
        × (0 < length requests)
        × (length requests ≤ m.max_batch_size)
        × Nodup (map (λ r. r.custom_id) requests))
      ⊎ ((error : BatchValidationError) × (create_batch now batch_id requests metadata m
            ≡ (refused error, m))
          × ¬ (
              (0 < length requests)
              × (length requests ≤ m.max_batch_size)
              × Nodup (map (λ r. r.custom_id) requests)))
  unfolding create_batch
  create_batch_lem =
      let ids = map (λ (r : BatchRequest B). r.custom_id) requests in
      elim (Bool-cases (is_empty requests)) [
        | inl t ↦ rw t (inr (no_request, refl, λ h. omega (arith, length-is_empty requests t, h.0)))
        | inr f ↦ elim (Bool-cases (ltb m.max_batch_size (length requests))) [
          | inl t ↦
              rw (f, t)
                (inr (
                  too_large,
                  refl,
                  λ h. omega (arith, ltb→lt m.max_batch_size (length requests) t, h.1),
                ))
          | inr g ↦ elim (Bool-cases (eqb (length ids) (length (set_of ids)))) [
            | inl t ↦
                rw (f, g, t)
                  (inl (
                    refl,
                    is_empty-length requests f,
                    ltb→le m.max_batch_size (length requests) g,
                    (length-set_of ids).0 ((eqb_iff (length ids) (length (set_of ids))).0 t),
                  ))
            | inr k ↦
                rw (f, g, k)
                  (inr (
                    duplicate_custom_id,
                    refl,
                    λ h.
                        let t =
                          (eqb_iff (length ids) (length (set_of ids))).1
                            ((length-set_of ids).1 h.2) in
                        cc,
                  ))
          ]
        ]
      ]
