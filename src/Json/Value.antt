-- ===== src/Json/Value.antt =====
-- The values of frame_v2::Json (Plugins/FrameSolver/Standalone/v2/MiniJson.h), their accessors, and
-- what dumpInto writes. An object is its fields in the order in which its map is iterated; `double` is
-- a parameter, and so are the conversions between it and int64_t and its "%.17g".
use architect_simulator.Base.{
  ℕ, Bool, true, false, ◌&&◌, ◌||◌, List, [], ◌∷◌, ◌++◌, Option, none, some, if◌then◌else◌, ◌==◌,
}
use architect_simulator.Base.Int.{ℤ}
use architect_simulator.Json.{dump_string}
use architect_simulator.Json.Number.{Number, int, double, dump_int}

mutual
  pub data Json (D : Type 0) : Type 0 where
    null : Json D
    bool : Bool → Json D
    number : Number D → Json D
    string : List ℕ → Json D
    array : Items D → Json D
    object : Fields D → Json D

  pub data Items (D : Type 0) : Type 0 where
    nil : Items D
    cons : Json D → Items D → Items D

  pub data Fields (D : Type 0) : Type 0 where
    end : Fields D
    field : List ℕ → Json D → Fields D → Fields D

-- Equality of two keys.
unfoldable pub same_bytes : List ℕ → List ℕ → Bool
same_bytes [] [] = true
same_bytes [] (c ∷ cs) = false
same_bytes (b ∷ bs) [] = false
same_bytes (b ∷ bs) (c ∷ cs) = (b == c) && same_bytes bs cs

module _ {D : Type 0} where
  unfoldable pub has_key : List ℕ → Fields D → Bool
  unfolding same_bytes
  has_key k end = false
  has_key k (field k' v fs) = same_bytes k k' || has_key k fs

  unfoldable pub find_key : List ℕ → Fields D → Option (Json D)
  unfolding same_bytes
  find_key k end = none
  find_key k (field k' v fs) =
      let later = find_key k fs in if same_bytes k k' then some v else later

  unfoldable pub append : Fields D → Fields D → Fields D
  append end gs = gs
  append (field k v fs) gs = field k v (append fs gs)

  -- emplace leaves a key alone that is there.
  unfoldable pub emplace : List ℕ → Json D → Fields D → Fields D
  unfolding has_key append
  emplace k v fs = if has_key k fs then fs else append fs (field k v end)

  -- The assignment of a value to (*this)[k], in place where the key is there.
  unfoldable pub assign : List ℕ → Json D → Fields D → Fields D
  unfolding same_bytes
  assign k v end = field k v end
  assign k v (field k' w fs) =
      let later = assign k v fs in if same_bytes k k' then field k' v fs else field k' w later

  unfoldable pub has : List ℕ → Json D → Bool
  unfolding has_key
  has k (object fs) = has_key k fs
  has k null = false
  has k (bool b) = false
  has k (number n) = false
  has k (string s) = false
  has k (array xs) = false

  unfoldable pub get : List ℕ → Json D → Option (Json D)
  unfolding find_key
  get k (object fs) = find_key k fs
  get k null = none
  get k (bool b) = none
  get k (number n) = none
  get k (string s) = none
  get k (array xs) = none

  -- (*this)[k] = v makes an object of anything else first.
  unfoldable pub set : List ℕ → Json D → Json D → Json D
  unfolding assign
  set k v (object fs) = object (assign k v fs)
  set k v null = object (field k v end)
  set k v (bool b) = object (field k v end)
  set k v (number n) = object (field k v end)
  set k v (string s) = object (field k v end)
  set k v (array xs) = object (field k v end)

  abbrev bool_or : Bool → Option (Json D) → Bool
  bool_or d (some (bool b)) = b
  bool_or d p = d

  abbrev string_or : List ℕ → Option (Json D) → List ℕ
  string_or d (some (string s)) = s
  string_or d p = d

  unfoldable pub get_bool : List ℕ → Bool → Json D → Bool
  unfolding get
  get_bool k d j = bool_or d (get k j)

  unfoldable pub get_string : List ℕ → List ℕ → Json D → List ℕ
  unfolding get
  get_string k d j = string_or d (get k j)

  abbrev int_or : (D → ℤ) → ℤ → Option (Json D) → ℤ
  int_or truncate d (some (number (int z))) = z
  int_or truncate d (some (number (double x))) = truncate x
  int_or truncate d p = d

  abbrev double_or : (ℤ → D) → D → Option (Json D) → D
  double_or widen d (some (number (int z))) = widen z
  double_or widen d (some (number (double x))) = x
  double_or widen d p = d

  unfoldable pub get_int : (D → ℤ) → List ℕ → ℤ → Json D → ℤ
  unfolding get
  get_int truncate k d j = int_or truncate d (get k j)

  unfoldable pub get_double : (ℤ → D) → List ℕ → D → Json D → D
  unfolding get
  get_double widen k d j = double_or widen d (get k j)

module _ {D : Type 0} (format : D → List ℕ) where
  unfoldable pub dump_number : Number D → List ℕ
  unfolding dump_int
  dump_number (int z) = dump_int z
  dump_number (double d) = format d

  unfoldable mutual
    unfolding dump_string dump_number

    pub dump : Json D → List ℕ
    dump null = 110 ∷ 117 ∷ 108 ∷ 108 ∷ []
    dump (bool true) = 116 ∷ 114 ∷ 117 ∷ 101 ∷ []
    dump (bool false) = 102 ∷ 97 ∷ 108 ∷ 115 ∷ 101 ∷ []
    dump (number n) = dump_number n
    dump (string s) = dump_string s
    dump (array nil) = 91 ∷ 93 ∷ []
    dump (array (cons x xs)) = 91 ∷ dump x ++ (dump_items xs ++ 93 ∷ [])
    dump (object end) = 123 ∷ 125 ∷ []
    dump (object (field k v fs)) =
        123 ∷ dump_string k ++ (58 ∷ dump v ++ (dump_fields fs ++ 125 ∷ []))

    -- The items after the first, a comma before each.
    pub dump_items : Items D → List ℕ
    dump_items nil = []
    dump_items (cons x xs) = 44 ∷ dump x ++ dump_items xs

    pub dump_fields : Fields D → List ℕ
    dump_fields end = []
    dump_fields (field k v fs) = 44 ∷ dump_string k ++ (58 ∷ dump v ++ dump_fields fs)
