-- ===== src/Buffers/Shift.antt =====
-- Where the loops of `wrenListInsert` and `wrenListRemoveAt` move each element.
use wrenegade.Base.{
  ℕ, zero, suc, ◌+◌, ◌-◌, ◌<◌, ◌≡◌, refl, ◌∙◌, arith, true, some, [], ◌∷◌, get_elem?, List, length,
  get_or, set, length-set, get_or-set, ltb, leb, ◌&&◌, if◌then◌else◌,
}
use mathlib.Core.Option
use wrenegade.Buffers.{shift_down, shift_up}

-- The elements after the loop of `wrenListInsert`.
unfoldable pub moved_down : {A : Type 0} → A → List A → ℕ → ℕ → List A
moved_down null elements index zero = elements
moved_down null elements index (suc n) =
    moved_down null (set elements (index + suc n) (get_or elements (index + n) null)) index n

get_or-elem :
    {A : Type 0} (xs : List A) (null : A) (i : ℕ)
    → i < length xs
    → get_elem? xs i ≡ some (get_or xs i null)
get_or-elem [] null i h = absurd (omega arith)
get_or-elem (x ∷ xs) null zero h = refl
get_or-elem (x ∷ xs) null (suc i) h = get_or-elem xs null i (omega arith)

shift_down-round :
    {A : Type 0} (null : A) (xs : List A) (index n : ℕ)
    → index + suc n < length xs
    → shift_down xs index (suc n)
      ≡ shift_down (set xs (index + suc n) (get_or xs (index + n) null)) index n
unfolding shift_down Option.bind
shift_down-round null xs index n h =
    let inside : ltb (index + suc n) (length xs) ≡ true = ground (arith, h) in
    rw (shift_down, get_or-elem xs null (index + n) (omega (arith, h)), inside) refl

-- No access of the loop is out of bounds.
pub shift_down-moved_down :
    {A : Type 0} (null : A) (xs : List A) (index n : ℕ)
    → index + n < length xs
    → shift_down xs index n ≡ some (moved_down null xs index n)
unfolding shift_down moved_down
shift_down-moved_down null xs index zero h = refl
shift_down-moved_down null xs index (suc n) h =
    let next = set xs (index + suc n) (get_or xs (index + n) null) in
    shift_down-round null xs index n h
    ∙ shift_down-moved_down null next index n
        (omega (arith, h, length-set xs (index + suc n) (get_or xs (index + n) null)))

pub length-moved_down :
    {A : Type 0} (null : A) (xs : List A) (index n : ℕ)
    → length (moved_down null xs index n) ≡ length xs
unfolding moved_down
length-moved_down null xs index zero = refl
length-moved_down null xs index (suc n) =
    length-moved_down null (set xs (index + suc n) (get_or xs (index + n) null)) index n
    ∙ length-set xs _ _

pub length-shift_up :
    {A : Type 0} (null : A) (xs : List A) (i n : ℕ) → length (shift_up null xs i n) ≡ length xs
unfolding shift_up
length-shift_up null xs i zero = refl
length-shift_up null xs i (suc n) =
    length-shift_up null (set xs i (get_or xs (i + 1) null)) (i + 1) n ∙ length-set xs _ _

pub get_or-moved_down :
    {A : Type 0} (null : A) (xs : List A) (index n j : ℕ)
    → index + n < length xs
    → get_or (moved_down null xs index n) j null
      ≡ (if ltb index j && leb j (index + n) then get_or xs (j - 1) null else get_or xs j null)
unfolding moved_down
get_or-moved_down null xs index zero j h = ground arith
get_or-moved_down null xs index (suc n) j h =
    let v = get_or xs (index + n) null in
    let i = index + suc n in
    let rest =
      get_or-moved_down null (set xs i v) index n j (omega (arith, h, length-set xs i v)) in
    let here = get_or-set xs i j v null h in
    let below = get_or-set xs i (j - 1) v null h in ground (arith, rest, here, below)

pub get_or-shift_up :
    {A : Type 0} (null : A) (xs : List A) (i n j : ℕ)
    → i + n < length xs
    → get_or (shift_up null xs i n) j null
      ≡ (if leb i j && ltb j (i + n) then get_or xs (j + 1) null else get_or xs j null)
unfolding shift_up
get_or-shift_up null xs i zero j h = ground arith
get_or-shift_up null xs i (suc n) j h =
    let v = get_or xs (i + 1) null in
    let rest =
      get_or-shift_up null (set xs i v) (i + 1) n j (omega (arith, h, length-set xs i v)) in
    let here = get_or-set xs i j v null (omega arith) in
    let above = get_or-set xs i (j + 1) v null (omega arith) in ground (arith, rest, here, above)
