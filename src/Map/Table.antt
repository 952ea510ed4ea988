-- ===== src/Map/Table.antt =====
-- The well-formed tables, what they hold, and a write to one slot.
use wrenegade.Base.{
  ℕ, zero, suc, ◌+◌, ◌<◌, ◌≤◌, ◌≡◌, refl, sym, ap, ◌∙◌, ◌⊎◌, inl, inr, Bool, true, false, Option,
  none, some, List, [], ◌∷◌, length, set, arith,
}
use wrenegade.Map.{Entry, empty, tombstone, entry, Search, found, absent, find_entry, map_get}
use wrenegade.Map.Keys.{Key, equal_symm}
use wrenegade.Map.Outcome.{at, IsEntry, Reaches, Misses, Outcome, is_found, is_slot, is_full}
use wrenegade.Map.Find.{find_entry-Outcome}

module _ {ℓ} {K V : Type ℓ} where
  abbrev pub weight : Entry K V → ℕ
  weight empty = 0
  weight tombstone = 0
  weight (entry k v) = 1

  -- The number of entries.
  abbrev pub size : List (Entry K V) → ℕ
  size [] = 0
  size (e ∷ es) = weight e + size es

  pub size-le : (es : List (Entry K V)) → size es ≤ length es
  size-le [] = omega arith
  size-le (empty ∷ es) = omega (arith, size-le es)
  size-le (tombstone ∷ es) = omega (arith, size-le es)
  size-le (entry k v ∷ es) = omega (arith, size-le es)

  pub size-set :
      (es : List (Entry K V)) (i : ℕ) (x : Entry K V)
      → i < length es
      → size (set es i x) + weight (at es i) ≡ size es + weight x
  size-set [] i x h = absurd (omega arith)
  size-set (e ∷ es) zero x h = omega arith
  size-set (e ∷ es) (suc i) x h = omega (arith, size-set es i x (omega arith))

  -- If every slot holds an entry, there are as many entries as slots.
  pub size-full :
      (es : List (Entry K V)) → ((i : ℕ) → i < length es → IsEntry (at es i)) → size es ≡ length es
  size-full [] h = refl
  size-full (empty ∷ es) h = absurd (h 0 (omega arith))
  size-full (tombstone ∷ es) h = absurd (h 0 (omega arith))
  size-full (entry k v ∷ es) h = omega (arith, size-full es (λ i p. h (suc i) (omega arith)))

module _ {ℓ} {K V : Type ℓ} ⦃key : Key K⦄ where
  abbrev pub same_key : Entry K V → Entry K V → Bool
  same_key empty y = false
  same_key tombstone y = false
  same_key (entry a v) empty = false
  same_key (entry a v) tombstone = false
  same_key (entry a v) (entry b w) = key.equal a b

  pub same_key_symm : (x y : Entry K V) → same_key x y ≡ same_key y x
  same_key_symm empty empty = refl
  same_key_symm empty tombstone = refl
  same_key_symm empty (entry b w) = refl
  same_key_symm tombstone empty = refl
  same_key_symm tombstone tombstone = refl
  same_key_symm tombstone (entry b w) = refl
  same_key_symm (entry a v) empty = refl
  same_key_symm (entry a v) tombstone = refl
  same_key_symm (entry a v) (entry b w) = equal_symm a b

  -- A search for its key reaches every entry, and no two slots hold equal keys.
  pub record IsTable (es : List (Entry K V)) : Type 0 where
    pub reaches : Reaches es
    pub unique :
        (i j : ℕ) → i < length es → j < length es → same_key (at es i) (at es j) ≡ true → i ≡ j

  -- The abstract map: what `wrenMapGet` reads from the entries.
  abbrev pub view : List (Entry K V) → K → Option V
  view es q = map_get (record { entries = es; count = 0 }) q

  abbrev pub Holds : List (Entry K V) → K → V → Type ℓ
  Holds es q v =
      (i : ℕ) × (i < length es) × (k : K) × (at es i ≡ entry k v) × (key.equal k q ≡ true)

  abbrev pub Lacks : List (Entry K V) → K → Type 0
  Lacks es q = (i : ℕ) → i < length es → Misses q (at es i)

  entry-value : (k b : K) (v w : V) → entry k v ≡ entry b w → v ≡ w
  entry-value k b v w e = cc e

  view-found :
      (es : List (Entry K V)) (q : K) (i : ℕ) (k : K) (v : V)
      → find_entry es q ≡ found i
      → at es i ≡ entry k v
      → view es q ≡ some v
  unfolding map_get
  view-found es q i k v e a = rw (e, map_get) (rw a)

  view-absent :
      (es : List (Entry K V)) (q : K) (s : Option ℕ) → find_entry es q ≡ absent s → view es q ≡ none
  unfolding map_get
  view-absent es q s e = rw (e, map_get)

  view-of_Outcome :
      (es : List (Entry K V)) (q : K) (s : Search)
      → Outcome es q s
      → find_entry es q ≡ s
      → ((v : V) × Holds es q v × (view es q ≡ some v)) ⊎ (Lacks es q × (view es q ≡ none))
  view-of_Outcome es q s (is_found i (p, k, v, a, hit)) e =
      inl (v, (i, p, k, a, hit), view-found es q i k v e a)
  view-of_Outcome es q s (is_slot i slot lacks) e = inr (lacks, view-absent es q (some i) e)
  view-of_Outcome es q s (is_full full lacks) e = inr (lacks, view-absent es q none e)

  pub view-cases :
      (es : List (Entry K V)) (q : K)
      → IsTable es
      → ((v : V) × Holds es q v × (view es q ≡ some v)) ⊎ (Lacks es q × (view es q ≡ none))
  view-cases es q t =
      view-of_Outcome es q (find_entry es q) (find_entry-Outcome es q t.reaches) refl

  not-Holds : (es : List (Entry K V)) (q : K) (v : V) → Lacks es q → ¬ (Holds es q v)
  not-Holds es q v lacks (i, p, k, a, hit) =
      let miss : key.equal k q ≡ false = rw a at (lacks i p) in cc (sym hit ∙ miss)

  -- One slot at most holds a key that is equal to `q`.
  pub Holds-unique :
      (es : List (Entry K V)) (q : K) (v w : V) → IsTable es → Holds es q v → Holds es q w → v ≡ w
  Holds-unique es q v w t (i, p, a, ea, ha) (j, r, b, eb, hb) =
      let ab : key.equal a b ≡ true = key.equal_congr a q b ha ∙ equal_symm q b ∙ hb in
      let ij = t.unique i j p r (rw (ea, eb) ab) in
      entry-value a b v w (sym ea ∙ ap (at es) ij ∙ eb)

  pub view-Holds :
      (es : List (Entry K V)) (q : K) (v : V) → IsTable es → Holds es q v → view es q ≡ some v
  view-Holds es q v t h = elim (view-cases es q t) [
    | inl (w, h', e) ↦ e ∙ ap some (Holds-unique es q w v t h' h)
    | inr (lacks, e) ↦ absurd (not-Holds es q v lacks h)
  ]

  pub view-Lacks : (es : List (Entry K V)) (q : K) → IsTable es → Lacks es q → view es q ≡ none
  view-Lacks es q t lacks = elim (view-cases es q t) [
    | inl (w, h, e) ↦ absurd (not-Holds es q w lacks h)
    | inr (_, e) ↦ e
  ]
