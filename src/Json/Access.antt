-- ===== src/Json/Access.antt =====
-- Reading and assigning the fields of a frame_v2::Json
-- (Plugins/FrameSolver/Standalone/v2/MiniJson.h).
use architect_simulator.Base.{
  ◌≡◌, refl, ap, ◌∙◌, ℕ, Bool, true, false, ◌&&◌, List, [], ◌∷◌, some, if◌then◌else◌, arith, ◌==◌,
  ==_refl,
}
use architect_simulator.Json.Proper.{same_bytes_sym}
use architect_simulator.Json.Value.{
  Json, null, bool, number, string, array, object, Fields, end, field, same_bytes, find_key, assign,
  get, set,
}

same_bytes_refl : (k : List ℕ) → same_bytes k k ≡ true
unfolding same_bytes
same_bytes_refl [] = refl
same_bytes_refl (c ∷ cs) = rw (==_refl c, same_bytes_refl cs) refl

same_bytes_eq : (a b : List ℕ) → same_bytes a b ≡ true → a ≡ b
unfolding same_bytes
same_bytes_eq [] [] e = refl
same_bytes_eq [] (y ∷ ys) e = ground (arith, e)
same_bytes_eq (x ∷ xs) [] e = ground (arith, e)
same_bytes_eq (x ∷ xs) (y ∷ ys) e = go (x == y) refl e (same_bytes_eq xs ys)
  where
    go :
        (b : Bool)
        → (x == y) ≡ b
        → b && same_bytes xs ys ≡ true
        → (same_bytes xs ys ≡ true → xs ≡ ys)
        → x ∷ xs ≡ y ∷ ys
    go true p q f =
        let same : x ≡ y = ground (arith, p) in ap (λ z. z ∷ xs) same ∙ ap (λ zs. y ∷ zs) (f q)
    go false p q f = ground (arith, q)

module _ {D : Type 0} where
  find_key-assign :
      (k k' : List ℕ) (v : Json D) (fs : Fields D)
      → find_key k' (assign k v fs) ≡ (if same_bytes k' k then some v else find_key k' fs)
  unfolding find_key assign
  find_key-assign k k' v end = refl
  find_key-assign k k' v (field k0 w fs) = go (same_bytes k k0) refl (find_key-assign k k' v fs)
    where
      other :
          (a b : Bool)
          → (a ≡ true → b ≡ false)
          → find_key k' (assign k v fs) ≡ (if b then some v else find_key k' fs)
          → (if a then some w else find_key k' (assign k v fs))
            ≡ (if b then some v else if a then some w else find_key k' fs)
      other true b n ih = rw (n refl) refl
      other false b n ih = ih

      go :
          (b : Bool)
          → same_bytes k k0 ≡ b
          → find_key k' (assign k v fs) ≡ (if same_bytes k' k then some v else find_key k' fs)
          → find_key k' (if b then field k0 v fs else field k0 w (assign k v fs)) ≡ (
              if same_bytes k' k
              then some v
              else if same_bytes k' k0
              then some w
              else find_key k' fs)
      go true e ih = rw (same_bytes_eq k k0 e) (same (same_bytes k' k0))
        where
          same :
              (b : Bool)
              → (if b then some v else find_key k' fs)
                ≡ (if b then some v else if b then some w else find_key k' fs)
          same true = refl
          same false = refl
      go false e ih =
          other (same_bytes k' k0) (same_bytes k' k)
            (λ t. ap (λ z. same_bytes z k) (same_bytes_eq k' k0 t) ∙ same_bytes_sym k0 k ∙ e) ih

  -- After a value is assigned to a key, that key has the value and every other key what it had, where
  -- what is no object counts as an object without fields.
  pub get-set :
      (k k' : List ℕ) (v j : Json D)
      → get k' (set k v j) ≡ (if same_bytes k' k then some v else get k' j)
  unfolding get set find_key assign
  get-set k k' v (object fs) = find_key-assign k k' v fs
  get-set k k' v null = find_key-assign k k' v end
  get-set k k' v (bool b) = find_key-assign k k' v end
  get-set k k' v (number n) = find_key-assign k k' v end
  get-set k k' v (string s) = find_key-assign k k' v end
  get-set k k' v (array xs) = find_key-assign k k' v end
