-- ===== src/Frame/Model/Verdict.antt =====
-- The shape of FrameModel::validate: a sequence of guards, each of which returns false with a message.
use Prim.Native.String.{String}
use architect_simulator.Base.{
  Bool, true, false, List, [], ◌∷◌, Option, none, some, any, ◌≡◌, refl, ◌≢◌, not, All,
}
use architect_simulator.Base.Int.{ℤ, eqb_ℤ, eqb_ℤ_iff}

-- `bad why` is the return of false.
pub data Verdict : Type 0 where
  ok : Verdict
  bad : String → Verdict

infixl 5 ◌>>◌
abbrev pub ◌>>◌ : Verdict → Verdict → Verdict
ok >> v = v
bad why >> v = bad why

-- if (test) { why = message; return false; }
abbrev pub reject : Bool → String → Verdict
reject true why = bad why
reject false why = ok

-- The same for a test that the lookup of a value fails; the value serves what follows.
abbrev pub need : {A : Type 0} → Option A → String → (A → Verdict) → Verdict
need none why k = bad why
need (some a) why k = k a

unfoldable pub each : {A : Type 0} → (A → Verdict) → List A → Verdict
each check [] = ok
each check (x ∷ xs) = check x >> each check xs

-- for (x : xs) if (!seen.insert(key(x)).second) { why = message; return false; }
unfoldable pub distinct : {A : Type 0} → (A → ℤ) → List A → List ℤ → String → Verdict
distinct key [] seen why = ok
distinct key (x ∷ xs) seen why =
    reject (any (eqb_ℤ (key x)) seen) why >> distinct key xs (key x ∷ seen) why

-- A sequence of guards passes when each passes.
pub >>-ok : (v w : Verdict) → (v >> w) ≡ ok → (v ≡ ok) × (w ≡ ok)
>>-ok ok w h = (refl, h)
>>-ok (bad why) w h = cc

pub reject-ok : (b : Bool) (why : String) → reject b why ≡ ok → b ≡ false
reject-ok true why h = cc
reject-ok false why h = refl

pub need-ok :
    {A : Type 0} (o : Option A) (why : String) (k : A → Verdict)
    → need o why k ≡ ok
    → (a : A) × (o ≡ some a) × (k a ≡ ok)
need-ok none why k h = cc
need-ok (some a) why k h = (a, refl, h)

pub each-ok :
    {A : Type 0} (check : A → Verdict) (xs : List A)
    → each check xs ≡ ok
    → All (λ x. check x ≡ ok) xs
unfolding each
each-ok check [] h = tt
each-ok check (x ∷ xs) h = let (a, b) = >>-ok (check x) (each check xs) h in (a, each-ok check xs b)

pub reject-eqb_ℤ : (a b : ℤ) (why : String) → reject (eqb_ℤ a b) why ≡ ok → a ≢ b
reject-eqb_ℤ a b why h e = cc (reject-ok (eqb_ℤ a b) why h, (eqb_ℤ_iff a b).1 e)

pub reject-not : (b : Bool) (why : String) → reject (not b) why ≡ ok → b ≡ true
reject-not true why h = refl
reject-not false why h = cc
