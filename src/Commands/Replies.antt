-- ===== src/Commands/Replies.antt =====
-- The ways of reading a reply that the parsers of several files of src/commands share, by the
-- conversion of an item; and the counted list of keys.
pub mod Laws
use glide_rust.Base.{
  List, [], ◌∷◌, ◌++◌, Result, ok, all, length, pos, String, ascii, err, if◌then◌else◌,
}
use glide_rust.Base.Fallible.{collect, map_ok}
use glide_rust.Redis.{Value, nil, array, set, elems, Redis, Args, raw, each}
use glide_rust.Error.{GlideResult, request}
use glide_rust.Streams.{two_element_items, two_by_two, is_two}

-- A pair of a reply: of a map, of an array of pairs, or of a flat array.
abbrev pub Pair : Type 0 → Type 0 → Type 0
Pair F O = Value F O × Value F O

module _ {F O A : Type 0} where
  -- `Array(items) => items.into_iter().map(f).collect(), other => Ok(vec![f(other)?])`
  abbrev pub items_or_self : (Value F O → GlideResult A) → Value F O → GlideResult (List A)
  items_or_self f (array vs) = collect f (elems vs)
  items_or_self f v = map_ok (λ a. a ∷ []) (f v)

  -- The same with `Nil => Ok(Vec::new())` first.
  abbrev pub items_or_one : (Value F O → GlideResult A) → Value F O → GlideResult (List A)
  items_or_one f nil = ok []
  items_or_one f v = items_or_self f v

  -- The same with `Set(items)` read as `Array(items)`.
  abbrev pub members_or_one : (Value F O → GlideResult A) → Value F O → GlideResult (List A)
  members_or_one f (set vs) = collect f (elems vs)
  members_or_one f v = items_or_one f v

module _ {F O : Type 0} (redis : Redis F O) where
  abbrev pub refuse : {A : Type 0} → String → Value F O → GlideResult A
  refuse what v = err (request (ascii what ++ redis.debug v))

  -- An array of items: if each is an array of two, each is a pair; else the items are paired in turn.
  unfoldable pub pairs_of_items :
      {A : Type 0}
      → (Pair F O → GlideResult A)
      → (Pair F O → GlideResult A)
      → List (Value F O)
      → GlideResult (List A)
  unfolding two_element_items two_by_two
  pairs_of_items nested flat items =
      if all (is_two redis) items
      then collect nested (two_element_items redis items)
      else collect flat (two_by_two redis items)

  -- `cmd.arg(keys.len())` and the loop over the keys
  abbrev pub counted : List Args → Args
  counted keys = raw (redis.int_arg (pos (length keys))) ++ each keys
