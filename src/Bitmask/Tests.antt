-- ===== src/Bitmask/Tests.antt =====
-- The roundings of include/bitmask.h at concrete numbers.
use likwid_bench.Base.{
  ◌-◌, ◌/◌, ◌≤◌, ◌<◌, ◌≡◌, ◌⊎◌, refl, true, false, arith, ok, err, einval, eoverflow,
}
use likwid_bench.Bitmask.{
  size_max, roundup_nbits, roundnearest_nbits, roundup_nbits_pow2, rounddown_nbits_pow2,
  roundnearest_nbits_pow2, is_multipleof_pow2, is_multipleof_nbits,
}
use likwid_bench.Bitmask.Rounding.{Rounded, roundup_nbits-Rounded, roundnearest_nbits-Rounded}
use likwid_bench.Bitmask.Pow2.{roundup_nbits_pow2-roundup_nbits}

roundup_nbits-Rounded_example : Rounded 12 100 111 (size_max - 11 < 100) (roundup_nbits true 100 12)
roundup_nbits-Rounded_example = roundup_nbits-Rounded 100 12 (omega arith) (omega arith)

roundnearest_nbits-Rounded_example :
    Rounded 12 97 109 ((size_max / 2 < 12) ⊎ (size_max - 6 ≤ 103)) (roundnearest_nbits true 103 12)
roundnearest_nbits-Rounded_example = roundnearest_nbits-Rounded 103 12 (omega arith) (omega arith)

roundup_nbits_pow2-roundup_nbits_example :
    roundup_nbits_pow2 true 100 16 ≡ roundup_nbits true 100 16
roundup_nbits_pow2-roundup_nbits_example =
    roundup_nbits_pow2-roundup_nbits true 4 100 (omega arith) (omega arith)

to_112 : roundup_nbits_pow2 true 100 16 ≡ ok 112
unfolding roundup_nbits_pow2
to_112 = refl

nearest_up : roundnearest_nbits true 103 12 ≡ ok 108
unfolding roundnearest_nbits
nearest_up = refl

not_pow2 : rounddown_nbits_pow2 true 100 12 ≡ err einval
unfolding rounddown_nbits_pow2
not_pow2 = refl

-- The two nearest roundings differ at the upper end.
nearest_end :
    (roundnearest_nbits_pow2 true 18446744073709551607 16 ≡ ok 18446744073709551600)
    × (roundnearest_nbits true 18446744073709551607 16 ≡ err eoverflow)
unfolding roundnearest_nbits roundnearest_nbits_pow2
nearest_end = (refl, refl)

multiples : (is_multipleof_pow2 96 32 ≡ ok true) × (is_multipleof_nbits 96 36 ≡ ok false)
unfolding is_multipleof_pow2 is_multipleof_nbits
multiples = (refl, refl)

-- SIZE_MAX - 63 is a multiple of 64, and stays as it is.
end_stays : roundup_nbits true (size_max - 63) 64 ≡ ok (size_max - 63)
unfolding roundup_nbits
end_stays = refl
