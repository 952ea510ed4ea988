-- ===== src/Strings/Find.antt =====
-- The search finds the first occurrence.
use wrenegade.Base.{
  ℕ, zero, suc, ◌+◌, ◌-◌, ◌%◌, ◌^◌, ◌≤◌, ◌<◌, ◌≡◌, refl, sym, ap, ◌∙◌, inl, inr, Bool, true, false,
  ◌&&◌, Bool-cases, some, List, [], ◌∷◌, length, get_or, get_elem?, All, arith, ◌==◌, ltb, leb,
}
use mathlib.Core.Option
use native.Mathlib.Nat.{mod-eq_of_lt}
use wrenegade.Strings.{same_bytes, slide, string_find, uint32_max}
use wrenegade.Strings.Shift.{Shifts, shift_table-Shifts}

-- The needle stands in the haystack at an index.
abbrev pub Matches : List ℕ → List ℕ → ℕ → Type 0
Matches haystack needle i =
    (i + length needle ≤ length haystack)
    × ((j : ℕ) → j < length needle → get_or haystack (i + j) 0 ≡ get_or needle j 0)

-- The first match from a start on, or UINT32_MAX if there is none.
pub data Finds (haystack needle : List ℕ) (start : ℕ) : ℕ → Type 0 where
  first_match :
      (i : ℕ)
      → start ≤ i
      → Matches haystack needle i
      → ((k : ℕ) → start ≤ k → k < i → Matches haystack needle k → ⊥)
      → Finds haystack needle start i
  no_match :
      ((k : ℕ) → start ≤ k → Matches haystack needle k → ⊥) → Finds haystack needle start uint32_max

All-get_or : (P : ℕ → Type 0) (xs : List ℕ) (i : ℕ) → P 0 → All P xs → P (get_or xs i 0)
All-get_or P [] i z h = z
All-get_or P (x ∷ xs) zero z h = h.0
All-get_or P (x ∷ xs) (suc i) z h = All-get_or P xs i z h.1

module _ (haystack needle : List ℕ) where
  pub same_bytes-all :
      (i n : ℕ)
      → same_bytes haystack needle i n ≡ true
      → (j : ℕ) → j < n
      → get_or haystack (i + j) 0 ≡ get_or needle j 0
  unfolding same_bytes
  same_bytes-all i zero e j h = absurd (omega arith)
  same_bytes-all i (suc n) e j h = elim (Bool-cases (j == n)) [
    | inl t ↦ let same : j ≡ n = ground arith in rw same (ground (arith, e))
    | inr t ↦ same_bytes-all i n (ground (arith, e)) j (ground arith)
  ]

  pub all-same_bytes :
      (i n : ℕ)
      → ((j : ℕ) → j < n → get_or haystack (i + j) 0 ≡ get_or needle j 0)
      → same_bytes haystack needle i n ≡ true
  unfolding same_bytes
  all-same_bytes i zero h = refl
  all-same_bytes i (suc n) h =
      ground (arith, h n (omega arith), all-same_bytes i n (λ j p. h j (omega arith)))

  -- The test of a round, at an index from which the needle fits.
  abbrev hit : ℕ → Bool
  hit i =
      get_or needle (length needle - 1) 0 == get_or haystack (i + (length needle - 1)) 0
      && same_bytes haystack needle i (length needle - 1)

  hit-Matches :
      (i : ℕ)
      → 0 < length needle
      → i + length needle ≤ length haystack
      → hit i ≡ true
      → Matches haystack needle i
  hit-Matches i p q e = (
    q,
    λ j h. elim (Bool-cases (j == length needle - 1)) [
      | inl t ↦ let same : j ≡ length needle - 1 = ground arith in rw same (ground (arith, e))
      | inr t ↦ same_bytes-all i (length needle - 1) (ground (arith, e)) j (ground arith)
    ],
  )

  Matches-hit : (i : ℕ) → 0 < length needle → Matches haystack needle i → hit i ≡ true
  Matches-hit i p (q, h) = ground (
    arith,
    h (length needle - 1) (omega arith),
    all-same_bytes i (length needle - 1) (λ j r. h j (omega arith)),
  )

  -- A shift passes no match.
  skips :
      (table : List ℕ)
      → Shifts needle table
      → (i distance : ℕ) → 0 < length needle
      → get_or haystack (i + (length needle - 1)) 0 < 255
      → get_elem? table (get_or haystack (i + (length needle - 1)) 0) ≡ some distance
      → (k : ℕ) → i < k
      → k < i + distance
      → Matches haystack needle k
      → ⊥
  skips table s i distance p small e k l h (q, m) =
      let j = i + (length needle - 1) - k in
      let (d, g, _, r, f) = s.entry (get_or haystack (i + (length needle - 1)) 0) small in
      let same : d ≡ distance = cc (sym g ∙ e) in
      let there : k + j ≡ i + (length needle - 1) = omega (arith, same, r) in
      let c : get_or needle j 0 ≡ get_or haystack (i + (length needle - 1)) 0 =
        sym (m j (omega (arith, same, r))) ∙ ap (λ t. get_or haystack t 0) there in
      let far = f j (omega (arith, same, r)) c in omega (arith, far, same, r)

  slide-further :
      (table : List ℕ) (fuel index distance : ℕ)
      → leb index (length haystack - length needle) ≡ true
      → hit index ≡ false
      → get_elem? table (get_or haystack (index + (length needle - 1)) 0) ≡ some distance
      → index + distance < 2 ^ 32
      → slide haystack needle table (suc fuel) index
        ≡ slide haystack needle table fuel (index + distance)
  unfolding slide Option.bind
  slide-further table fuel index distance fits e g h =
      rw (slide, fits, e, g) (ap (slide haystack needle table fuel) (mod-eq_of_lt h))

  module _ (some_needle : 0 < length needle) (small : All (λ c. c < 255) haystack)
      (short : length haystack < 2 ^ 31) where
    slide-Finds :
        (table : List ℕ)
        → Shifts needle table
        → (start fuel index : ℕ) → length haystack < index + fuel
        → index ≤ length haystack
        → length needle ≤ length haystack
        → start ≤ index
        → ((k : ℕ) → start ≤ k → k < index → Matches haystack needle k → ⊥)
        → (r : ℕ) × (slide haystack needle table fuel index ≡ some r)
          × Finds haystack needle start r
    unfolding slide Option.bind
    slide-Finds table s start zero index f b l q before = absurd (omega arith)
    slide-Finds table s start (suc fuel) index f b l q before =
        elim (Bool-cases (leb index (length haystack - length needle))) [
          | inr past ↦ (
            uint32_max,
            rw (slide, past) refl,
            no_match (λ k p m. elim (Bool-cases (ltb k index)) [
              | inl t ↦ before k p (ground arith) m
              | inr t ↦ ground (arith, past, t, m.0)
            ]),
          )
          | inl fits ↦ elim (Bool-cases (hit index)) [
            | inl e ↦ (
              index,
              rw (slide, fits, e) refl,
              first_match index q (hit-Matches index some_needle (ground (arith, fits)) e) before,
            )
            | inr e ↦
                let c = get_or haystack (index + (length needle - 1)) 0 in
                let c_small =
                  All-get_or (λ d. d < 255) haystack (index + (length needle - 1)) (omega arith)
                    small in
                let (distance, g, positive, bound, _) = s.entry c c_small in
                let fit : index + length needle ≤ length haystack = ground (arith, fits) in
                let (r, run, finds) =
                  slide-Finds table s start fuel (index + distance) (omega arith) (omega arith) l
                    (omega arith)
                    (λ k p t m. elim (Bool-cases (ltb k index)) [
                      | inl u ↦ before k p (ground arith) m
                      | inr u ↦ elim (Bool-cases (k == index)) [
                        | inl v ↦
                            let same : k ≡ index = ground arith in
                            cc (sym e ∙ Matches-hit index some_needle (rw same at m))
                        | inr v ↦
                            skips table s index distance some_needle c_small g k (ground arith) t m
                      ]
                    ]) in
                (r, slide-further table fuel index distance fits e g (omega arith) ∙ run, finds)
          ]
        ]

    -- For a needle that is not empty and a haystack, both shorter than 2 ^ 31 and without the
    -- byte 0xff, the search from any start ends within its fuel and gives the first place from
    -- the start on at which the needle stands, or UINT32_MAX if there is none, and never leaves
    -- the table of shifts.
    pub string_find-Finds :
        (start : ℕ)
        → length needle < 2 ^ 31
        → All (λ c. c < 255) needle
        → (r : ℕ) × (string_find haystack needle start ≡ some r) × Finds haystack needle start r
    unfolding string_find Option.bind
    string_find-Finds start b n =
        let nonempty : (length needle == 0) ≡ false = ground arith in
        elim (Bool-cases (ltb (length haystack) ((start + length needle) % 2 ^ 32))) [
          | inl past ↦
              (uint32_max, rw (nonempty, past) refl, no_match (λ k p m. ground (arith, past, m.0)))
          | inr room ↦ elim (Bool-cases (leb (length haystack) start)) [
            | inl past ↦ (
              uint32_max,
              rw (nonempty, room, past) refl,
              no_match (λ k p m. ground (arith, past, m.0)),
            )
            | inr inside ↦
                let (table, made, s) = shift_table-Shifts needle some_needle n in
                let (r, run, finds) =
                  slide-Finds table s start (length haystack + 1) start (omega arith) (ground arith)
                    (ground (arith, room, inside)) (omega arith)
                    (λ k p t m. absurd (omega arith)) in
                (r, rw (nonempty, room, inside, made) run, finds)
          ]
        ]
