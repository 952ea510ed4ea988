-- ===== src/Map/Keys.antt =====
-- The Values that a map takes for keys, seen through wrenValuesEqual and hashValue: a key is in the
-- map when it equals one that is there, whichever of the two is stored.
use wrenegade.Base.{ℕ, Bool, true, ◌≡◌, arith}

-- An equal key can stand for another on the left, and it leads to the same probe sequence.
pub record Key {ℓ} (K : Type ℓ) : Type ℓ where
  pub hash : K → ℕ
  pub equal : K → K → Bool
  pub hash_congr : (a b : K) → equal a b ≡ true → hash a ≡ hash b
  pub equal_congr : (a b c : K) → equal a b ≡ true → equal a c ≡ equal b c
  pub equal_self : (a : K) → equal a a ≡ true

module _ {ℓ} {K : Type ℓ} ⦃key : Key K⦄ where
  pub equal_symm : (a b : K) → key.equal a b ≡ key.equal b a
  equal_symm a b =
      ground
        (arith, key.equal_self a, key.equal_self b, key.equal_congr a b a, key.equal_congr b a b)

  pub equal_chain : (a b c : K) → key.equal a b ≡ true → key.equal b c ≡ true → key.equal a c ≡ true
  equal_chain a b c e f = rw (key.equal_congr a b c e) f
