-- ===== src/Bitmap/Tests.antt =====
-- Runs of the model of src/bitmap.c, and the theorems at concrete maps.
use likwid_bench.Base.{
  ℕ, ◌-◌, ◌^◌, ◌≡◌, refl, Bool, true, false, not, ◌&&◌, ◌||◌, none, some, List, [], ◌∷◌, arith, ok,
  err, efault, ◌==◌, replicate,
}
use likwid_bench.Bitmap.{Bitmap, create, set_bit, clear_bit, is_bit_set}
use likwid_bench.Bitmap.Bits.{IsValid, Updated, set_bit_lem, clear_bit_lem}
use likwid_bench.Bitmap.Create.{fresh, create_lem, create_wraps}

abbrev always : ℕ → ℕ → Bool
always alignment bytes = true

abbrev empty : Bitmap
empty = record { words = none; size = 0; alignment = 0 }

abbrev two_words : Bitmap
two_words = record { words = some (5 ∷ 1 ∷ []); size = 70; alignment = 64 }

two_words-IsValid : IsValid two_words (5 ∷ 1 ∷ [])
two_words-IsValid = record { allocated = refl; covers = omega arith }

set_69 :
    set_bit (some two_words) 69 ≡ (ok tt, some (record two_words { words = some (5 ∷ 33 ∷ []) }))
unfolding set_bit
set_69 = refl

reads_two : (is_bit_set (some two_words) 2 ≡ true) × (is_bit_set (some two_words) 1 ≡ false)
unfolding is_bit_set
reads_two = (refl, refl)

set_bit_lem_example :
    Updated 70 (λ j. is_bit_set (some two_words) j || 69 == j) (set_bit (some two_words) 69)
set_bit_lem_example = set_bit_lem two_words (5 ∷ 1 ∷ []) 69 two_words-IsValid (omega arith)

clear_bit_lem_example :
    Updated 70 (λ j. is_bit_set (some two_words) j && not (2 == j)) (clear_bit (some two_words) 2)
clear_bit_lem_example = clear_bit_lem two_words (5 ∷ 1 ∷ []) 2 two_words-IsValid (omega arith)

create_lem_example :
    (create always 70 64 (some empty) ≡ (ok tt, some (fresh 70 64)))
    × IsValid (fresh 70 64) (replicate 2 0)
    × ((j : ℕ) → is_bit_set (some (fresh 70 64)) j ≡ false)
create_lem_example = create_lem always 70 64 empty (omega arith) (omega arith) refl refl refl

create_wraps_example :
    (create always (2 ^ 64 - 1) 64 (some empty) ≡ (ok tt, some (fresh (2 ^ 64 - 1) 64)))
    × ((fresh (2 ^ 64 - 1) 64).words ≡ some [])
    × ((words : List ℕ) → ¬ IsValid (fresh (2 ^ 64 - 1) 64) words)
    × ((set_bit (some (fresh (2 ^ 64 - 1) 64)) 4096).0 ≡ ok tt)
create_wraps_example =
    create_wraps always (2 ^ 64 - 1) 64 empty 4096 (omega arith) (omega arith) refl refl refl
      (omega arith)

create_twice : create always 70 64 (some two_words) ≡ (err efault, some two_words)
unfolding create
create_twice = refl
