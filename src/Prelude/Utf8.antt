-- ===== src/Prelude/Utf8.antt =====
-- `std::str::from_utf8` and the slices of bytes that the program tests.
use Prim.Native.Nat.{ℕ, ◌+◌, ◌-◌, ◌*◌, Ordering, compare}
use Prim.Native.Char.{Char, char, IsScalar, IsLt}
use Prim.Native.String.{String, [], ◌∷◌}
use mathlib.Core.Bool.{Bool, true, false, ◌&&◌}
use mathlib.Core.Option.{Option, none, some}
use mathlib.Core.List.{List, [], ◌∷◌}
use onair.Prelude.Tests.{leb, ltb, eqb, if◌then◌else◌, and_then, map_option}

-- `&[u8]` and `Vec<u8>`: the values of the bytes.
abbrev pub Bytes : Type 0
Bytes = List ℕ

-- `strip_prefix` of a slice
unfoldable pub strip_prefix_bytes : Bytes → Bytes → Option Bytes
strip_prefix_bytes [] bs = some bs
strip_prefix_bytes (p ∷ ps) [] = none
strip_prefix_bytes (p ∷ ps) (b ∷ bs) = if eqb p b then strip_prefix_bytes ps bs else none

-- Whether two slices are equal.
unfoldable pub same_bytes : Bytes → Bytes → Bool
same_bytes [] [] = true
same_bytes [] (c ∷ cs) = false
same_bytes (b ∷ bs) [] = false
same_bytes (b ∷ bs) (c ∷ cs) = eqb b c && same_bytes bs cs

-- The slice without its last byte and that byte, if there is one.
unfoldable pub split_last : Bytes → Option (Bytes × ℕ)
split_last [] = none
split_last (b ∷ []) = some ([], b)
split_last (b ∷ c ∷ cs) = map_option (λ (p : Bytes × ℕ). (b ∷ p.0, p.1)) (split_last (c ∷ cs))

-- `ends_with` and `strip_suffix(..).unwrap_or(..)` for one byte
unfoldable pub ends_with : Bytes → ℕ → Bool
unfolding split_last
ends_with bs k = elim (split_last bs) [ none ↦ false | some p ↦ eqb p.1 k ]

unfoldable pub strip_last : Bytes → ℕ → Bytes
unfolding split_last
strip_last bs k = elim (split_last bs) [ none ↦ bs | some p ↦ if eqb p.1 k then p.0 else bs ]

-- The tests of `IsScalar`, as types of the three comparisons that it makes.
abbrev BothLess : Ordering → Ordering → Type 0
BothLess Ordering.lt o = IsLt o
BothLess Ordering.eq _ = ⊥
BothLess Ordering.gt _ = ⊥

abbrev LessOrBoth : Ordering → Ordering → Ordering → Type 0
LessOrBoth Ordering.lt _ _ = Unit
LessOrBoth Ordering.eq o p = BothLess o p
LessOrBoth Ordering.gt o p = BothLess o p

scalar_proof : (o p q : Ordering) → Option (LessOrBoth o p q)
scalar_proof Ordering.lt p q = some tt
scalar_proof Ordering.eq Ordering.lt Ordering.lt = some tt
scalar_proof Ordering.gt Ordering.lt Ordering.lt = some tt
scalar_proof _ _ _ = none

-- `char::from_u32`
unfoldable pub from_u32 : ℕ → Option Char
unfolding scalar_proof
from_u32 n =
    map_option (λ (p : IsScalar n). char n p)
      (scalar_proof (compare n 55296) (compare 57343 n) (compare n 1114112))

-- What the decoder awaits: how many more bytes, the bounds of the next one, the value so far.
pub record Awaited : Type 0 where
  pub needed : ℕ
  pub low : ℕ
  pub high : ℕ
  pub value : ℕ

abbrev at_start : Awaited
at_start = record { needed = 0; low = 128; high = 191; value = 0 }

awaiting : ℕ → ℕ → ℕ → ℕ → Option (Option Char × Awaited)
awaiting n low high value =
    some (none, record { needed = n; low = low; high = high; value = value })

lead_byte : ℕ → Option (Option Char × Awaited)
unfolding awaiting from_u32
lead_byte b =
    if ltb b 128
    then map_option (λ (c : Char). (some c, at_start)) (from_u32 b)
    else if ltb b 194
    then none
    else if ltb b 224
    then awaiting 1 128 191 (b - 192)
    else if eqb b 224
    then awaiting 2 160 191 0
    else if eqb b 237
    then awaiting 2 128 159 13
    else if ltb b 240
    then awaiting 2 128 191 (b - 224)
    else if eqb b 240
    then awaiting 3 144 191 0
    else if ltb b 244
    then awaiting 3 128 191 (b - 240)
    else if eqb b 244
    then awaiting 3 128 143 4
    else none

next_byte : Awaited → ℕ → Option (Option Char × Awaited)
unfolding lead_byte awaiting from_u32
next_byte a b =
    if eqb a.needed 0
    then lead_byte b
    else if leb a.low b && leb b a.high
    then (let value = a.value * 64 + (b - 128) in
        if eqb a.needed 1
        then map_option (λ (c : Char). (some c, at_start)) (from_u32 value)
        else awaiting (a.needed - 1) 128 191 value)
    else none

with_char : Option Char → String → String
with_char none s = s
with_char (some c) s = c ∷ s

utf8_from : Awaited → Bytes → Option String
unfolding next_byte with_char
utf8_from a [] = if eqb a.needed 0 then some [] else none
utf8_from a (b ∷ bs) =
    and_then (next_byte a b)
      (λ (p : Option Char × Awaited). map_option (with_char p.0) (utf8_from p.1 bs))

-- `std::str::from_utf8(bytes).ok()`
unfoldable pub from_utf8 : Bytes → Option String
unfolding utf8_from
from_utf8 bs = utf8_from at_start bs
