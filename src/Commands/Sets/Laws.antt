-- ===== src/Commands/Sets/Laws.antt =====
-- The set operations of src/commands/set.rs: what the set that they return forgets of a reply.
use glide_rust.Base.{
  Bytes, bytes_eq, bytes_eq_sound, bytes_eq_refl, true, List, [], ◌∷◌, ok, ◌≡◌, ◌↔◌, ◌⊎◌, inl, inr,
  refl, sym, subst, ap, ◌∙◌, Bool-cases, arith,
}
use glide_rust.Base.Fallible.{map_ok, collect}
use glide_rust.Redis.{Value, array, set, bulk_string, elems, vec, elems-vec, Redis, Args}
use glide_rust.Values.{to_bytes}
use glide_rust.Values.Laws.{to_bytes-bulk_string}
use glide_rust.Executor.{CommandExecutor}
use glide_rust.Commands.Sets.{hash_set, collect_bytes, set_op}

abbrev pub Member : Bytes → List Bytes → Type 0
Member b [] = ⊥
Member b (x ∷ xs) = (x ≡ b) ⊎ Member b xs

-- Two lists with the same members, whatever their order and their repetitions.
abbrev pub SameMembers : List Bytes → List Bytes → Type 0
SameMembers xs ys = (b : Bytes) → Member b xs ↔ Member b ys

hash_set_sound : (xs : List Bytes) (b : Bytes) → hash_set xs b ≡ true → Member b xs
hash_set_sound (x ∷ xs) b h = elim (Bool-cases (bytes_eq x b)) [
  | inl e ↦ inl (bytes_eq_sound x b e)
  | inr e ↦ inr (hash_set_sound xs b (ground (arith, h, e)))
]
hash_set_sound [] b h = cc

hash_set_complete : (xs : List Bytes) (b : Bytes) → Member b xs → hash_set xs b ≡ true
hash_set_complete [] b h = absurd h
hash_set_complete (x ∷ xs) b (inl e) = rw (e, bytes_eq_refl b) refl
hash_set_complete (x ∷ xs) b (inr h) = ground (arith, hash_set_complete xs b h)

same_at :
    (xs ys : List Bytes) (b : Bytes) → Member b xs ↔ Member b ys → hash_set xs b ≡ hash_set ys b
same_at xs ys b (there, back) = elim (Bool-cases (hash_set xs b)) [
  | inl h ↦ h ∙ sym (hash_set_complete ys b (there (hash_set_sound xs b h)))
  | inr h ↦ elim (Bool-cases (hash_set ys b)) [
    | inl g ↦ absurd (cc (h, hash_set_complete xs b (back (hash_set_sound ys b g))))
    | inr g ↦ h ∙ sym g
  ]
]

same_sets : (xs ys : List Bytes) → SameMembers xs ys → hash_set xs ≡ hash_set ys
same_sets xs ys same = λ i b. same_at xs ys b (same b) i

module _ {F O : Type 0} (redis : Redis F O) where
  -- The members as a server sends them, and a server that replies so to every command.
  abbrev pub bulk_strings : List Bytes → List (Value F O)
  bulk_strings [] = []
  bulk_strings (x ∷ xs) = bulk_string x ∷ bulk_strings xs

  abbrev pub replying : {P W : Type 0} → Value F O → CommandExecutor F O P W
  replying v = record { execute_command = λ cmd routing w. (ok v, w) }

  bulk_strings_lem : (xs : List Bytes) → collect (to_bytes redis) (bulk_strings xs) ≡ ok xs
  unfolding collect
  bulk_strings_lem [] = refl
  bulk_strings_lem (x ∷ xs) = rw (to_bytes-bulk_string redis x, bulk_strings_lem xs) refl

  received : (xs : List Bytes) → collect (to_bytes redis) (elems (vec (bulk_strings xs))) ≡ ok xs
  received xs =
      subst (λ l. collect (to_bytes redis) l ≡ ok xs) (sym (elems-vec (bulk_strings xs)))
        (bulk_strings_lem xs)

  -- A set operation returns the set of the members that the server sends, in an array or in a set:
  -- it contains exactly these, and replies with the same members, in any order, with repetitions or
  -- without, give equal sets.
  pub set_op_lem :
      (P : Type 0) {W : Type 0} (op : Bytes) (keys : List Args) (xs ys : List Bytes) (b : Bytes)
      (w : W)
      → SameMembers xs ys
      → (set_op redis (replying {P = P} (array (vec (bulk_strings xs)))) op keys w
          ≡ (ok (hash_set xs), w))
        × (set_op redis (replying {P = P} (set (vec (bulk_strings ys)))) op keys w
            ≡ (ok (hash_set xs), w))
        × ((hash_set xs b ≡ true) ↔ Member b xs)
  unfolding set_op collect_bytes
  set_op_lem P op keys xs ys b w same = (
    ap (λ r. (map_ok hash_set r, w)) (received xs),
    ap (λ r. (map_ok hash_set r, w)) (received ys)
        ∙ ap (λ s. (ok s, w)) (sym (same_sets xs ys same)),
    (hash_set_sound xs b, hash_set_complete xs b),
  )
