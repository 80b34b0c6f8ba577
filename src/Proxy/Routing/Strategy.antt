-- ===== src/Proxy/Routing/Strategy.antt =====
-- The routing strategies of routing.rs: which candidate goes first. `usize` has 64 bits.
pub mod Weighted
pub mod Rotation
pub mod RoundRobin
use Prim.Native.Nat.{bit_xor}
use Prim.Native.String.{[], ◌∷◌}
use onair.Prelude.{
  ℕ, zero, suc, ◌+◌, ◌-◌, ◌*◌, ◌/◌, ◌%◌, ◌^◌, String, code, Bool, List, [], ◌∷◌, ◌++◌, Option, none,
  some, eqb, ltb, leb, length, take, drop, unwrap_or, StringMap, get, put, if◌then◌else◌, ◌+ˢ◌,
}

-- `slice::rotate_left`
abbrev pub rotate_left {ℓ} : {A : Type ℓ} → ℕ → List A → List A
rotate_left i xs = drop i xs ++ take i xs

-- `RoundRobinCounters`: the map behind the lock.
abbrev pub RoundRobinCounters : Type 0
RoundRobinCounters = StringMap ℕ

unfoldable pub next_index : RoundRobinCounters → String → ℕ → ℕ × RoundRobinCounters
next_index counters key count =
    if eqb count 0
    then (0, counters)
    else let counter = unwrap_or (get counters key) 0 in
      (counter % count, put key ((counter + 1) % 2 ^ 64) counters)

abbrev fnv_offset_basis : ℕ
fnv_offset_basis = 0xcbf29ce484222325

abbrev fnv_prime : ℕ
fnv_prime = 0x00000100000001b3

pub record FnvHasher : Type 0 where
  pub state : ℕ
  pub started : Bool

abbrev pub new_hasher : FnvHasher
new_hasher = record { state = fnv_offset_basis; started = Bool.false }

write : FnvHasher → List ℕ → FnvHasher
write hasher [] = hasher
write hasher (byte ∷ bytes) =
    write (record { state = bit_xor hasher.state byte * fnv_prime % 2 ^ 64; started = Bool.true })
      bytes

finish : FnvHasher → ℕ
finish hasher = if hasher.started then hasher.state else fnv_offset_basis

-- The UTF-8 bytes of a character and of a text.
utf8_char : ℕ → List ℕ
utf8_char k =
    if ltb k 0x80
    then k ∷ []
    else if ltb k 0x800
    then (0xc0 + k / 64) ∷ (0x80 + k % 64) ∷ []
    else if ltb k 0x10000
    then (0xe0 + k / 4096) ∷ (0x80 + k / 64 % 64) ∷ (0x80 + k % 64) ∷ []
    else (0xf0 + k / 262144) ∷ (0x80 + k / 4096 % 64) ∷ (0x80 + k / 64 % 64) ∷ (0x80 + k % 64) ∷ []

utf8 : String → List ℕ
utf8 [] = []
utf8 (c ∷ s) = utf8_char (code c) ++ utf8 s

-- A text is hashed as its bytes and a byte 0xff.
unfoldable pub hash_key : String → ℕ
unfolding write finish utf8 utf8_char
hash_key key = finish (write (write new_hasher (utf8 key)) (0xff ∷ []))

unfoldable pub sticky_index : String → ℕ → ℕ
unfolding hash_key
sticky_index key count = if leb count 1 then 0 else hash_key key % count

-- The index where the running sum of the weights passes `pick`.
unfoldable pub weighted_index : ℕ → ℕ → List ℕ → Option ℕ
weighted_index pick cumulative [] = none
weighted_index pick cumulative (weight ∷ weights) =
    let rest = weighted_index pick (cumulative + weight) weights in
    if ltb pick (cumulative + weight)
    then some 0
    else elim rest [ none ↦ none | some i ↦ some (suc i) ]

unfoldable pub sum : List ℕ → ℕ
sum [] = 0
sum (w ∷ ws) = w + sum ws

-- `draw total` is the number that `gen_range(0..total)` draws.
unfoldable pub weighted_rotation : (ℕ → ℕ) → List ℕ → ℕ
unfolding weighted_index sum
weighted_rotation draw weights =
    if leb (length weights) 1
    then 0
    else unwrap_or (weighted_index (draw (sum weights)) 0 weights) 0

unfoldable pub sticky_routing_key : String → String → Option String → Option String → String
sticky_routing_key identity path model prompt_cache_key =
    identity +ˢ "\0" +ˢ path +ˢ "\0" +ˢ unwrap_or model "" +ˢ "\0" +ˢ unwrap_or prompt_cache_key ""
