-- ===== src/Proxy/Routing/Paths/Names.antt =====
-- What the normalization of a segment makes of its characters.
use Prim.Native.Char.{code}
use Prim.Native.String.{[], ◌∷◌}
use text.Mathlib.TextLemmas.{nil-append, cons-append}
use onair.Prelude.{
  ℕ, ◌+◌, ◌≤◌, ◌≡◌, ◌≢◌, ◌⊎◌, inl, inr, refl, ap, String, Char, false, ◌&&◌, Bool-cases, eqb, leb,
  if◌then◌else◌, arith, List, [], ◌∷◌, All, map,
}
use onair.Proxy.Routing.Paths.{lowercase_of, lowercase_in, normalize_char, normalize_segment}

-- A hyphen becomes an underscore, a capital letter a small one, and all else stays.
abbrev pub normal_code : ℕ → ℕ
normal_code k = if eqb k b'-' then b'_' else if leb b'A' k && leb k b'Z' then k + 32 else k

abbrev pub IsNormal : String → String → Type 0
IsNormal [] [] = Unit
IsNormal [] (d ∷ t) = ⊥
IsNormal (c ∷ s) [] = ⊥
IsNormal (c ∷ s) (d ∷ t) = (code d ≡ normal_code (code c)) × IsNormal s t

abbrev pub AllNormal : List String → List String → Type 0
AllNormal [] [] = Unit
AllNormal [] (t ∷ ts) = ⊥
AllNormal (s ∷ ss) [] = ⊥
AllNormal (s ∷ ss) (t ∷ ts) = IsNormal s t × AllNormal ss ts

IsLower : ℕ × String → Type 0
IsLower p = (d : Char) × (p.1 ≡ d ∷ []) × (code d ≡ p.0 + 32) × (b'A' ≤ p.0) × (p.0 ≤ b'Z')

table-IsLower : All IsLower lowercase_of
unfolding IsLower
table-IsLower = (
  ("a", refl, refl, omega arith, omega arith),
  (
    ("b", refl, refl, omega arith, omega arith),
    (
      ("c", refl, refl, omega arith, omega arith),
      (
        ("d", refl, refl, omega arith, omega arith),
        (
          ("e", refl, refl, omega arith, omega arith),
          (
            ("f", refl, refl, omega arith, omega arith),
            (
              ("g", refl, refl, omega arith, omega arith),
              (
                ("h", refl, refl, omega arith, omega arith),
                (
                  ("i", refl, refl, omega arith, omega arith),
                  (
                    ("j", refl, refl, omega arith, omega arith),
                    (
                      ("k", refl, refl, omega arith, omega arith),
                      (
                        ("l", refl, refl, omega arith, omega arith),
                        (
                          ("m", refl, refl, omega arith, omega arith),
                          (
                            ("n", refl, refl, omega arith, omega arith),
                            (
                              ("o", refl, refl, omega arith, omega arith),
                              (
                                ("p", refl, refl, omega arith, omega arith),
                                (
                                  ("q", refl, refl, omega arith, omega arith),
                                  (
                                    ("r", refl, refl, omega arith, omega arith),
                                    (
                                      ("s", refl, refl, omega arith, omega arith),
                                      (
                                        ("t", refl, refl, omega arith, omega arith),
                                        (
                                          ("u", refl, refl, omega arith, omega arith),
                                          (
                                            ("v", refl, refl, omega arith, omega arith),
                                            (
                                              ("w", refl, refl, omega arith, omega arith),
                                              (
                                                ("x", refl, refl, omega arith, omega arith),
                                                (
                                                  ("y", refl, refl, omega arith, omega arith),
                                                  (("z", refl, refl, omega arith, omega arith), tt),
                                                ),
                                              ),
                                            ),
                                          ),
                                        ),
                                      ),
                                    ),
                                  ),
                                ),
                              ),
                            ),
                          ),
                        ),
                      ),
                    ),
                  ),
                ),
              ),
            ),
          ),
        ),
      ),
    ),
  ),
)

Lowered : List (ℕ × String) → Char → Type 0
Lowered table c =
    (d : Char) × (lowercase_in table c ≡ d ∷ [])
    × (((b'A' ≤ code c) × (code c ≤ b'Z') × (code d ≡ code c + 32))
        ⊎ ((d ≡ c) × All (λ (p : ℕ × String). code c ≢ p.0) table))

lowercase_in-Lowered : (table : List (ℕ × String)) (c : Char) → All IsLower table → Lowered table c
unfolding IsLower Lowered lowercase_in
lowercase_in-Lowered [] c h = (c, refl, inr (refl, tt))
lowercase_in-Lowered ((k, s) ∷ table) c ((d, e, lower, low, high), h) =
    elim (Bool-cases (eqb (code c) k)) [
      | inl t ↦ (d, rw t e, inl (ground arith, ground arith, ground arith))
      | inr f ↦
          let (d, e, cases) = lowercase_in-Lowered table c h in
          (
            d,
            rw f e,
            elim cases [
              | inl lowered ↦ inl lowered
              | inr (same, others) ↦ inr (same, (λ e. ground arith, others))
            ],
          )
    ]

-- A code that is none of the table's is no capital letter.
outside :
    (k : ℕ) → All (λ (p : ℕ × String). k ≢ p.0) lowercase_of → (leb b'A' k && leb k b'Z') ≡ false
outside k h = ground (
  arith, h.0, h.1.0, h.1.1.0, h.1.1.1.0, h.1.1.1.1.0, h.1.1.1.1.1.0, h.1.1.1.1.1.1.0,
  h.1.1.1.1.1.1.1.0, h.1.1.1.1.1.1.1.1.0, h.1.1.1.1.1.1.1.1.1.0, h.1.1.1.1.1.1.1.1.1.1.0,
  h.1.1.1.1.1.1.1.1.1.1.1.0, h.1.1.1.1.1.1.1.1.1.1.1.1.0, h.1.1.1.1.1.1.1.1.1.1.1.1.1.0,
  h.1.1.1.1.1.1.1.1.1.1.1.1.1.1.0, h.1.1.1.1.1.1.1.1.1.1.1.1.1.1.1.0,
  h.1.1.1.1.1.1.1.1.1.1.1.1.1.1.1.1.0, h.1.1.1.1.1.1.1.1.1.1.1.1.1.1.1.1.1.0,
  h.1.1.1.1.1.1.1.1.1.1.1.1.1.1.1.1.1.1.0, h.1.1.1.1.1.1.1.1.1.1.1.1.1.1.1.1.1.1.1.0,
  h.1.1.1.1.1.1.1.1.1.1.1.1.1.1.1.1.1.1.1.1.0, h.1.1.1.1.1.1.1.1.1.1.1.1.1.1.1.1.1.1.1.1.1.0,
  h.1.1.1.1.1.1.1.1.1.1.1.1.1.1.1.1.1.1.1.1.1.1.0,
  h.1.1.1.1.1.1.1.1.1.1.1.1.1.1.1.1.1.1.1.1.1.1.1.0,
  h.1.1.1.1.1.1.1.1.1.1.1.1.1.1.1.1.1.1.1.1.1.1.1.1.0,
  h.1.1.1.1.1.1.1.1.1.1.1.1.1.1.1.1.1.1.1.1.1.1.1.1.1.0,
)

normalize_char-normal :
    (c : Char) → (d : Char) × (normalize_char c ≡ d ∷ []) × (code d ≡ normal_code (code c))
unfolding normalize_char Lowered
normalize_char-normal c = elim (Bool-cases (eqb (code c) b'-')) [
  | inl t ↦ ("_", rw t refl, rw t refl)
  | inr f ↦
      let (d, e, cases) = lowercase_in-Lowered lowercase_of c table-IsLower in
      (
        d,
        rw f e,
        elim cases [
          | inl (low, high, lowered) ↦ ground arith
          | inr (same, others) ↦ ground (arith, ap code same, outside (code c) others)
        ],
      )
]

pub normalize_segment-IsNormal : (s : String) → IsNormal s (normalize_segment s)
unfolding normalize_segment
normalize_segment-IsNormal [] = tt
normalize_segment-IsNormal (c ∷ s) =
    let (d, e, same) = normalize_char-normal c in
    rw e (rw cons-append (rw nil-append (same, normalize_segment-IsNormal s)))

pub map_normalize-AllNormal : (ss : List String) → AllNormal ss (map normalize_segment ss)
map_normalize-AllNormal [] = tt
map_normalize-AllNormal (s ∷ ss) = (normalize_segment-IsNormal s, map_normalize-AllNormal ss)
