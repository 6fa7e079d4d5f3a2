-- ===== src/Py/Result.antt =====
-- Python exceptions as values. `invalid` is the exception of the program's own: the fixed text of its
-- message, and the objects that the message prints. In local_agent.py it is an
-- `ImportVerificationError`; the other modules name theirs.
use permeant_os.Prelude.{◌≡◌, refl, ◌⊎◌, inl, inr, String, List, Bool, true, false}
use permeant_os.Py.Value.{Value}

pub data Exc : Type 0 where
  invalid : String → List Value → Exc
  key_error : String → Exc
  type_error attribute_error index_error value_error overflow_error zero_division : Exc
  unicode_encode_error : Exc
  file_not_found : String → Exc

pub data Result {ℓ} (A : Type ℓ) : Type ℓ where
  ok : A → Result A
  raise : Exc → Result A

infixl 5 ◌>>=◌ ◌>>◌
abbrev pub ◌>>=◌ {ℓ κ} : {A : Type ℓ} {B : Type κ} → Result A → (A → Result B) → Result B
raise e >>= rest = raise e
ok x >>= rest = rest x

abbrev pub ◌>>◌ {ℓ} : {B : Type ℓ} → Result (Unit {0}) → Result B → Result B
m >> k = m >>= λ _. k

-- `if test: raise e`
abbrev pub reject_if : Bool → Exc → Result (Unit {0})
reject_if true e = raise e
reject_if false e = ok tt

-- Inversion of a block that returned.
pub >>=-eq-ok {ℓ κ} :
    {A : Type ℓ} {B : Type κ} {y : B} (r : Result A) (rest : A → Result B)
    → (r >>= rest) ≡ ok y
    → (x : A) × (r ≡ ok x) × (rest x ≡ ok y)
>>=-eq-ok (raise e) rest h = cc
>>=-eq-ok (ok x) rest h = (x, refl, h)

pub reject_if-eq-ok : (b : Bool) (e : Exc) {u : Unit {0}} → reject_if b e ≡ ok u → b ≡ false
reject_if-eq-ok true e h = cc
reject_if-eq-ok false e h = refl

-- A loop whose body may raise.
abbrev pub for_each {ℓ} : {A : Type ℓ} → List A → (A → Result (Unit {0})) → Result (Unit {0})
for_each List.[] body = ok tt
for_each (List.◌∷◌ x xs) body = body x >> for_each xs body

pub Result-cases {ℓ} :
    {A : Type ℓ} (r : Result A) → ((a : A) × (r ≡ ok a)) ⊎ ((e : Exc) × (r ≡ raise e))
Result-cases (ok a) = inl (a, refl)
Result-cases (raise e) = inr (e, refl)

pub ok-injective {ℓ} : {A : Type ℓ} (a b : A) → ok a ≡ ok b → a ≡ b
ok-injective a b h = cc

pub >>=-assoc {ℓ κ ρ} :
    {A : Type ℓ} {B : Type κ} {C : Type ρ} (m : Result A) (f : A → Result B) (g : B → Result C)
    → ((m >>= f) >>= g) ≡ (m >>= λ x. f x >>= g)
>>=-assoc (raise e) f g = refl
>>=-assoc (ok x) f g = refl
