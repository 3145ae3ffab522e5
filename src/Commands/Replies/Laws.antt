-- ===== src/Commands/Replies/Laws.antt =====
-- What the shared readings give back from the three forms in which servers send pairs.
use glide_rust.Base.{
  Bytes, ap, length, arith, pos, sym, subst, List, [], ◌∷◌, ◌≡◌, refl, ok, false, true, all,
}
use glide_rust.Base.Fallible.{collect}
use glide_rust.Redis.{
  Value, array, end, more, elems, vec, elems-vec, pairs, entries, entries-pairs, Redis, Args, raw,
  each,
}
use glide_rust.Error.{GlideResult}
use glide_rust.Streams.{two_element_items, two_by_two, is_two}
use glide_rust.Commands.Replies.{Pair, pairs_of_items, counted}

-- The pairs for some items, by the two values that an item is sent as: a flat array, an array of
-- pairs, and a map.
module _ {F O A : Type 0} (first second : A → Value F O) where
  abbrev pub flat : List A → List (Value F O)
  flat [] = []
  flat (a ∷ xs) = first a ∷ second a ∷ flat xs

  abbrev pub nested : List A → List (Value F O)
  nested [] = []
  nested (a ∷ xs) = array (more (first a) (more (second a) end)) ∷ nested xs

  abbrev pub mapped : List A → List (Pair F O)
  mapped [] = []
  mapped (a ∷ xs) = (first a, second a) ∷ mapped xs

  module _ (redis : Redis F O) (read : Pair F O → GlideResult A)
      (reads : (a : A) → read (first a, second a) ≡ ok a) where
    pub two_by_two-flat : (xs : List A) → collect read (two_by_two redis (flat xs)) ≡ ok xs
    unfolding collect two_by_two
    two_by_two-flat [] = refl
    two_by_two-flat (a ∷ xs) = rw (reads a, two_by_two-flat xs) refl

    pub two_element_items-nested :
        (xs : List A) → collect read (two_element_items redis (nested xs)) ≡ ok xs
    unfolding collect two_element_items
    two_element_items-nested [] = refl
    two_element_items-nested (a ∷ xs) = rw (reads a, two_element_items-nested xs) refl

    collect-mapped : (xs : List A) → collect read (mapped xs) ≡ ok xs
    unfolding collect
    collect-mapped [] = refl
    collect-mapped (a ∷ xs) = rw (reads a, collect-mapped xs) refl

    pub collect-entries : (xs : List A) → collect read (entries (pairs (mapped xs))) ≡ ok xs
    collect-entries xs =
        subst (λ l. collect read l ≡ ok xs) (sym (entries-pairs (mapped xs))) (collect-mapped xs)

  module _ (redis : Redis F O) (read_nested read_flat : Pair F O → GlideResult A)
      (nested_reads : (a : A) → read_nested (first a, second a) ≡ ok a)
      (flat_reads : (a : A) → read_flat (first a, second a) ≡ ok a)
      (first_item : (a : A) → is_two redis (first a) ≡ false) where
    all_two-nested : (xs : List A) → all (is_two redis) (nested xs) ≡ true
    all_two-nested [] = refl
    all_two-nested (a ∷ xs) = all_two-nested xs

    pub pairs_of_items-nested :
        (xs : List A) → pairs_of_items redis read_nested read_flat (elems (vec (nested xs))) ≡ ok xs
    unfolding pairs_of_items
    pairs_of_items-nested xs =
        subst (λ l. pairs_of_items redis read_nested read_flat l ≡ ok xs)
          (sym (elems-vec (nested xs)))
          (rw (all_two-nested xs) (two_element_items-nested redis read_nested nested_reads xs))

    flat_items : (xs : List A) → pairs_of_items redis read_nested read_flat (flat xs) ≡ ok xs
    unfolding pairs_of_items collect two_element_items
    flat_items [] = refl
    flat_items (a ∷ xs) = rw (first_item a) (two_by_two-flat redis read_flat flat_reads (a ∷ xs))

    pub pairs_of_items-flat :
        (xs : List A) → pairs_of_items redis read_nested read_flat (elems (vec (flat xs))) ≡ ok xs
    pairs_of_items-flat xs =
        subst (λ l. pairs_of_items redis read_nested read_flat l ≡ ok xs)
          (sym (elems-vec (flat xs))) (flat_items xs)

-- Keys that write one argument each.
abbrev pub singles : List Bytes → List Args
singles [] = []
singles (x ∷ xs) = raw x ∷ singles xs

pub each-singles : (xs : List Bytes) → each (singles xs) ≡ xs
each-singles [] = refl
each-singles (x ∷ xs) = ap (λ l. x ∷ l) (each-singles xs)

pub length-singles : (xs : List Bytes) → length (singles xs) ≡ length xs
length-singles [] = refl
length-singles (x ∷ xs) = omega (arith, length-singles xs)

pub counted-singles :
    {F O : Type 0} (redis : Redis F O) (xs : List Bytes)
    → counted redis (singles xs) ≡ redis.int_arg (pos (length xs)) ∷ xs
counted-singles redis xs = rw (each-singles xs, length-singles xs) refl
