-- ===== src/Bstrings/Tokens.antt =====
-- `bstrtok_delimters` of src/bstrlib_helper.c: the words of a text and the delimiters between them.
pub mod Pieces
pub mod Adds
use likwid_bench.Base.{
  ℕ, zero, suc, ◌-◌, Bool, true, false, ◌||◌, List, [], ◌∷◌, length, take, drop, ltb, ◌==◌,
  if◌then◌else◌,
}
use likwid_bench.Base.Strings.{Str, str}
use likwid_bench.Bstrings.Entries.{BstrList, add_unchecked}

-- `DELIMITERS`
abbrev pub delimiters : Str
delimiters = str ",*+[] "

-- `strchr(cs, c) != NULL`, for a byte that is not the terminator.
unfoldable pub strchr : Str → ℕ → Bool
strchr [] c = false
strchr (d ∷ cs) c = d == c || strchr cs c

module _ (alloc : ℕ → Bool) where
  -- The block `str + start` of `len` bytes, added as an entry.
  unfoldable pub add_block : Str → (start len : ℕ) → BstrList → BstrList
  add_block s start len blist = add_unchecked alloc blist (take len (drop start s))

  -- The word before the byte at `i`, if there is one.
  unfoldable pub add_word : Str → (start i : ℕ) → BstrList → BstrList
  unfolding add_block
  add_word s start i blist = if ltb start i then add_block s start (i - start) blist else blist

  -- The `for`; the list is what is left of the text from index `i`, and its end the terminator.
  unfoldable pub tok_loop : Str → (rest : Str) (start i : ℕ) → BstrList → BstrList
  unfolding add_word strchr
  tok_loop s [] start i blist = add_word s start i blist
  tok_loop s (c ∷ rest) start i blist = elim (strchr delimiters c) [
    | true ↦ tok_loop s rest (suc i) (suc i) (add_block s i 1 (add_word s start i blist))
    | false ↦ tok_loop s rest start (suc i) blist
  ]

  -- `bstr2cstr` gives the text of the string, with the given byte for each of its terminators.
  unfoldable pub bstrtok_delimters : (bstr2cstr : Str → ℕ → Str) → Str → BstrList → BstrList
  bstrtok_delimters bstr2cstr input blist = let s = bstr2cstr input b' ' in tok_loop s s 0 0 blist
