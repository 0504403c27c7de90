-- ===== src/Json/Proper.antt =====
-- Which values of frame_v2::Json (Plugins/FrameSolver/Standalone/v2/MiniJson.h) its parser gives.
use architect_simulator.Base.{
  ◌≡◌, refl, ap, sym, ◌∙◌, ℕ, suc, ◌<◌, Bool, true, false, ◌||◌, List, [], ◌∷◌, if◌then◌else◌,
  arith, ◌==◌,
}
use architect_simulator.Json.Lengths.{IsRange}
use architect_simulator.Json.Value.{
  Json, null, bool, number, string, array, object, Items, nil, cons, Fields, end, field, has_key,
  append, emplace, same_bytes,
}
use architect_simulator.Json.Parse.{max_json_depth}

pub same_bytes_sym : (a b : List ℕ) → same_bytes a b ≡ same_bytes b a
unfolding same_bytes
same_bytes_sym [] [] = refl
same_bytes_sym [] (y ∷ ys) = refl
same_bytes_sym (x ∷ xs) [] = refl
same_bytes_sym (x ∷ xs) (y ∷ ys) =
    let e : (x == y) ≡ (y == x) = ground arith in rw (e, same_bytes_sym xs ys) refl

or_false : (a b : Bool) → a || b ≡ false → (a ≡ false) × (b ≡ false)
or_false true b e = ground (arith, e)
or_false false b e = (refl, e)

module _ {D : Type 0} where
  abbrev pub Distinct : Fields D → Type 0
  Distinct end = Unit
  Distinct (field k v fs) = (has_key k fs ≡ false) × Distinct fs

  -- A key of a list with one field more at its end.
  pub has_key-append :
      (k k' : List ℕ) (v : Json D) (fs gs : Fields D)
      → has_key k (append fs (field k' v gs)) ≡ has_key k fs || (same_bytes k k' || has_key k gs)
  unfolding has_key append
  has_key-append k k' v end gs = refl
  has_key-append k k' v (field k'' w fs) gs =
      ap (λ b. same_bytes k k'' || b) (has_key-append k k' v fs gs)
      ∙ or_assoc (same_bytes k k'') (has_key k fs) (same_bytes k k' || has_key k gs)
    where
      or_assoc : (a b c : Bool) → a || (b || c) ≡ a || b || c
      or_assoc true b c = refl
      or_assoc false b c = refl

  append-Distinct :
      (k : List ℕ) (v : Json D) (fs : Fields D)
      → has_key k fs ≡ false
      → Distinct fs
      → Distinct (append fs (field k v end))
  unfolding has_key append
  append-Distinct k v end n d = (refl, tt)
  append-Distinct k v (field k' w fs) n d =
      let both = or_false (same_bytes k k') (has_key k fs) n in
      (
        has_key-append k' k v fs end ∙ rw (d.0, same_bytes_sym k' k, both.0) refl,
        append-Distinct k v fs both.1 d.1,
      )

  pub emplace-Distinct :
      (k : List ℕ) (v : Json D) (fs : Fields D) → Distinct fs → Distinct (emplace k v fs)
  unfolding emplace
  emplace-Distinct k v fs d = go (has_key k fs) refl
    where
      go : (b : Bool) → has_key k fs ≡ b → Distinct (if b then fs else append fs (field k v end))
      go true e = d
      go false e = append-Distinct k v fs e d

  -- A key of the second part of distinct fields is not one of the first.
  pub Distinct-append :
      (fs : Fields D) (k : List ℕ) (v : Json D) (gs : Fields D)
      → Distinct (append fs (field k v gs))
      → has_key k fs ≡ false
  unfolding has_key append
  Distinct-append end k v gs d = refl
  Distinct-append (field k' w fs) k v gs d =
      let both =
        or_false (has_key k' fs) (same_bytes k' k || has_key k' gs)
          (sym (has_key-append k' k v fs gs) ∙ d.0) in
      let one = or_false (same_bytes k' k) (has_key k' gs) both.1 in
      rw (same_bytes_sym k k', one.0, Distinct-append fs k v gs d.1) refl

  pub append_assoc :
      (fs : Fields D) (k : List ℕ) (v : Json D) (gs : Fields D)
      → append (append fs (field k v end)) gs ≡ append fs (field k v gs)
  unfolding append
  append_assoc end k v gs = refl
  append_assoc (field k' w fs) k v gs = ap (field k' w) (append_assoc fs k v gs)

  pub append-end : (fs : Fields D) → append fs end ≡ fs
  unfolding append
  append-end end = refl
  append-end (field k v fs) = ap (field k v) (append-end fs)

module _ {D : Type 0} (is_finite : D → Bool) where
  -- Numbers are in range, the keys of an object are distinct, and what stands inside so many arrays and
  -- objects goes no deeper than the parser's bound.
  unfoldable mutual
    pub IsProper : ℕ → Json D → Type 0
    IsProper depth null = Unit
    IsProper depth (bool b) = Unit
    IsProper depth (number n) = IsRange is_finite n
    IsProper depth (string s) = Unit
    IsProper depth (array xs) = (depth < max_json_depth) × AreProper (suc depth) xs
    IsProper depth (object fs) =
        (depth < max_json_depth) × FieldsProper (suc depth) fs × Distinct fs

    pub AreProper : ℕ → Items D → Type 0
    AreProper depth nil = Unit
    AreProper depth (cons x xs) = IsProper depth x × AreProper depth xs

    pub FieldsProper : ℕ → Fields D → Type 0
    FieldsProper depth end = Unit
    FieldsProper depth (field k v fs) = IsProper depth v × FieldsProper depth fs

  append-FieldsProper :
      (depth : ℕ) (k : List ℕ) (v : Json D) (fs : Fields D)
      → FieldsProper depth fs
      → IsProper depth v
      → FieldsProper depth (append fs (field k v end))
  unfolding IsProper append
  append-FieldsProper depth k v end h p = (p, tt)
  append-FieldsProper depth k v (field k' w fs) h p = (h.0, append-FieldsProper depth k v fs h.1 p)

  pub emplace-FieldsProper :
      (depth : ℕ) (k : List ℕ) (v : Json D) (fs : Fields D)
      → FieldsProper depth fs
      → IsProper depth v
      → FieldsProper depth (emplace k v fs)
  unfolding emplace
  emplace-FieldsProper depth k v fs h p = go (has_key k fs)
    where
      go : (b : Bool) → FieldsProper depth (if b then fs else append fs (field k v end))
      go true = h
      go false = append-FieldsProper depth k v fs h p
