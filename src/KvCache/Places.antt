-- ===== src/KvCache/Places.antt =====
-- Where `_combined_target_indices` puts the points of a source: two points never meet.
use permeant_os.Prelude.{
  ℕ, ◌+◌, ◌*◌, ◌/◌, ◌%◌, ◌<◌, ◌≡◌, ◌≢◌, ◌↔◌, refl, true, List, [], ◌∷◌, Option, none, some, arith,
  ap, sym, ◌∙◌, get_elem?,
}
use permeant_os.Py.Result.{Result, ok, raise, index_error, ◌>>=◌, >>=-eq-ok, ok-injective}
use permeant_os.KvCache.{
  Index, Layout, token_head_dim, head_token_dim, split_token_head_dim, split_head_token_dim,
  unsupported, target_block_id, or_one, combined_target_indices, or_raise,
}
use permeant_os.KvCache.Write.{same_index}
use permeant_os.KvCache.Radix.{or_one-pos, split-injective, factor_pos}

pub record Point : Type 0 where
  pub block : ℕ
  pub token : ℕ
  pub head : ℕ
  pub dim : ℕ

pub same_index_iff : (i j : Index) → (same_index i j ≡ true) ↔ (i ≡ j)
unfolding same_index
same_index_iff [] [] = (λ h. refl, λ e. refl)
same_index_iff [] (j ∷ js) = (λ h. cc, λ e. cc)
same_index_iff (i ∷ is) [] = (λ h. cc, λ e. cc)
same_index_iff (i ∷ is) (j ∷ js) =
    (λ h. ground (arith, same_index_iff is js), λ e. ground (arith, same_index_iff is js))

-- No block id is given twice.
abbrev pub Distinct : Option (List ℕ) → Type 0
Distinct none = Unit {0}
Distinct (some ids) = (i j b : ℕ) → get_elem? ids i ≡ some b → get_elem? ids j ≡ some b → i ≡ j

-- A split layout divides the tokens of a source block evenly.
abbrev pub Fits : Layout → ℕ → Type 0
Fits (split_token_head_dim tokens blocks) block_size = (0 < tokens) × (blocks * tokens ≡ block_size)
Fits (split_head_token_dim tokens blocks) block_size = (0 < tokens) × (blocks * tokens ≡ block_size)
Fits _ block_size = Unit {0}

or_raise-eq-ok {ℓ} : {A : Type ℓ} (o : Option A) (x : A) → or_raise o ≡ ok x → o ≡ some x
or_raise-eq-ok none x h = cc h
or_raise-eq-ok (some y) x h = ap some (ok-injective y x h)

target_block_id-injective :
    (ids : Option (List ℕ)) (i j b c : ℕ)
    → Distinct ids
    → target_block_id i ids ≡ ok b
    → target_block_id j ids ≡ ok c
    → b ≡ c
    → i ≡ j
unfolding target_block_id
target_block_id-injective none i j b c d h k e = ok-injective i b h ∙ e ∙ sym (ok-injective j c k)
target_block_id-injective (some ids) i j b c d h k e =
    d i j b (or_raise-eq-ok _ b h) (or_raise-eq-ok _ c k ∙ ap some (sym e))

-- The target block of a point, and its indices behind the plane of keys or values.
address : Layout → Point → Option (List ℕ) → Result (ℕ × List ℕ)
address (token_head_dim tokens) p ids = do
  b ← target_block_id p.block ids
  ok (b, p.token ∷ p.head ∷ p.dim ∷ [])
address (head_token_dim tokens) p ids = do
  b ← target_block_id p.block ids
  ok (b, p.head ∷ p.token ∷ p.dim ∷ [])
address (split_token_head_dim tokens blocks) p ids = do
  b ← target_block_id (p.block * or_one blocks + p.token / or_one tokens) ids
  ok (b, p.token % or_one tokens ∷ p.head ∷ p.dim ∷ [])
address (split_head_token_dim tokens blocks) p ids = do
  b ← target_block_id (p.block * or_one blocks + p.token / or_one tokens) ids
  ok (b, p.head ∷ p.token % or_one tokens ∷ p.dim ∷ [])
address (unsupported shape) p ids = raise index_error

abbrev pub indices : Layout → Point → Option (List ℕ) → Result (Index × Index)
indices layout p ids = combined_target_indices layout p.block p.token p.head p.dim ids

indices-address :
    (layout : Layout) (p : Point) (ids : Option (List ℕ)) (x : Index × Index)
    → indices layout p ids ≡ ok x
    → (b : ℕ) × (r : List ℕ) × (address layout p ids ≡ ok (b, r)) × (x ≡ (b ∷ 0 ∷ r, b ∷ 1 ∷ r))
unfolding combined_target_indices address
indices-address (token_head_dim tokens) p ids x h =
    let (b, e, k) = >>=-eq-ok (target_block_id p.block ids) _ h in
    (b, p.token ∷ p.head ∷ p.dim ∷ [], rw e, sym (ok-injective _ x k))
indices-address (head_token_dim tokens) p ids x h =
    let (b, e, k) = >>=-eq-ok (target_block_id p.block ids) _ h in
    (b, p.head ∷ p.token ∷ p.dim ∷ [], rw e, sym (ok-injective _ x k))
indices-address (split_token_head_dim tokens blocks) p ids x h =
    let (b, e, k) =
      >>=-eq-ok (target_block_id (p.block * or_one blocks + p.token / or_one tokens) ids) _ h in
    (b, p.token % or_one tokens ∷ p.head ∷ p.dim ∷ [], rw e, sym (ok-injective _ x k))
indices-address (split_head_token_dim tokens blocks) p ids x h =
    let (b, e, k) =
      >>=-eq-ok (target_block_id (p.block * or_one blocks + p.token / or_one tokens) ids) _ h in
    (b, p.head ∷ p.token % or_one tokens ∷ p.dim ∷ [], rw e, sym (ok-injective _ x k))
indices-address (unsupported shape) p ids x h =
    let (b, e, k) = >>=-eq-ok (target_block_id p.block ids) _ h in cc k

three : (a b c a' b' c' : ℕ) → a ∷ b ∷ c ∷ [] ≡ a' ∷ b' ∷ c' ∷ [] → (a ≡ a') × (b ≡ b') × (c ≡ c')
three a b c a' b' c' e = (cc e, cc e, cc e)

point-eq :
    (p q : Point) → p.block ≡ q.block → p.token ≡ q.token → p.head ≡ q.head → p.dim ≡ q.dim → p ≡ q
point-eq p q b t h d = λ i. record { block = b i; token = t i; head = h i; dim = d i }

-- The split layouts, at the digits of their points.
split-point :
    (tokens blocks block_size : ℕ) (ids : Option (List ℕ)) (p q : Point) (b c : ℕ)
    → (0 < tokens) × (blocks * tokens ≡ block_size)
    → Distinct ids
    → p.token < block_size
    → q.token < block_size
    → target_block_id (p.block * or_one blocks + p.token / or_one tokens) ids ≡ ok b
    → target_block_id (q.block * or_one blocks + q.token / or_one tokens) ids ≡ ok c
    → b ≡ c
    → p.token % or_one tokens ≡ q.token % or_one tokens
    → p.head ≡ q.head
    → p.dim ≡ q.dim
    → p ≡ q
split-point tokens blocks block_size ids p q b c (pos, whole) d lp lq h k e m eh ed =
    let t : or_one tokens ≡ tokens = or_one-pos tokens pos in
    let positive : 0 < blocks = factor_pos blocks tokens p.token (omega arith) in
    let n : or_one blocks ≡ blocks = or_one-pos blocks positive in
    let same = target_block_id-injective ids _ _ b c d h k e in
    let (eb, et) =
      split-injective blocks tokens p.block q.block p.token q.token pos (omega arith) (omega arith)
        (rw (n, t) at same) (rw t at m) in
    point-eq p q eb et eh ed

address-injective :
    (layout : Layout) (block_size : ℕ) (ids : Option (List ℕ)) (p q : Point) (b c : ℕ)
    (r s : List ℕ)
    → Fits layout block_size
    → Distinct ids
    → p.token < block_size
    → q.token < block_size
    → address layout p ids ≡ ok (b, r)
    → address layout q ids ≡ ok (c, s)
    → b ≡ c
    → r ≡ s
    → p ≡ q
unfolding address
address-injective (token_head_dim tokens) block_size ids p q b c r s f d lp lq h k e er =
    let (x, hx, hr) = >>=-eq-ok (target_block_id p.block ids) _ h in
    let (y, ky, kr) = >>=-eq-ok (target_block_id q.block ids) _ k in
    let same = target_block_id-injective ids p.block q.block x y d hx ky (cc (hr, kr, e)) in
    let (et, eh, ed) = three p.token p.head p.dim q.token q.head q.dim (cc (hr, kr, er)) in
    point-eq p q same et eh ed
address-injective (head_token_dim tokens) block_size ids p q b c r s f d lp lq h k e er =
    let (x, hx, hr) = >>=-eq-ok (target_block_id p.block ids) _ h in
    let (y, ky, kr) = >>=-eq-ok (target_block_id q.block ids) _ k in
    let same = target_block_id-injective ids p.block q.block x y d hx ky (cc (hr, kr, e)) in
    let (eh, et, ed) = three p.head p.token p.dim q.head q.token q.dim (cc (hr, kr, er)) in
    point-eq p q same et eh ed
address-injective (split_token_head_dim tokens blocks) block_size ids p q b c r s f d lp lq h k e
      er =
    let (x, hx, hr) =
      >>=-eq-ok (target_block_id (p.block * or_one blocks + p.token / or_one tokens) ids) _ h in
    let (y, ky, kr) =
      >>=-eq-ok (target_block_id (q.block * or_one blocks + q.token / or_one tokens) ids) _ k in
    let (et, eh, ed) =
      three (p.token % or_one tokens) p.head p.dim (q.token % or_one tokens) q.head q.dim
        (cc (hr, kr, er)) in
    split-point tokens blocks block_size ids p q x y f d lp lq hx ky (cc (hr, kr, e)) et eh ed
address-injective (split_head_token_dim tokens blocks) block_size ids p q b c r s f d lp lq h k e
      er =
    let (x, hx, hr) =
      >>=-eq-ok (target_block_id (p.block * or_one blocks + p.token / or_one tokens) ids) _ h in
    let (y, ky, kr) =
      >>=-eq-ok (target_block_id (q.block * or_one blocks + q.token / or_one tokens) ids) _ k in
    let (eh, et, ed) =
      three p.head (p.token % or_one tokens) p.dim q.head (q.token % or_one tokens) q.dim
        (cc (hr, kr, er)) in
    split-point tokens blocks block_size ids p q x y f d lp lq hx ky (cc (hr, kr, e)) et eh ed
address-injective (unsupported shape) block_size ids p q b c r s f d lp lq h k e er = cc h

plane : (b c m n : ℕ) (r s : List ℕ) → b ∷ m ∷ r ≡ c ∷ n ∷ s → (b ≡ c) × (m ≡ n) × (r ≡ s)
plane b c m n r s e = (cc e, cc e, cc e)

-- The indices of different points are different, and so are those of keys and of values.
pub record Apart (x y : Index × Index) : Type 0 where
  pub keys : x.0 ≢ y.0
  pub values : x.1 ≢ y.1
  pub key_value : x.0 ≢ y.1
  pub value_key : x.1 ≢ y.0

pub indices-own :
    (layout : Layout) (ids : Option (List ℕ)) (p : Point) (x : Index × Index)
    → indices layout p ids ≡ ok x
    → x.0 ≢ x.1
indices-own layout ids p x h e =
    let (b, r, _, same) = indices-address layout p ids x h in
    absurd (omega (arith, (plane b b 0 1 r r (cc (same, e))).1))

pub indices-Apart :
    (layout : Layout) (block_size : ℕ) (ids : Option (List ℕ)) (p q : Point) (x y : Index × Index)
    → Fits layout block_size
    → Distinct ids
    → p.token < block_size
    → q.token < block_size
    → indices layout p ids ≡ ok x
    → indices layout q ids ≡ ok y
    → p ≢ q
    → Apart x y
indices-Apart layout block_size ids p q x y f d lp lq h k n =
    let (b, r, hp, ex) = indices-address layout p ids x h in
    let (c, s, hq, ey) = indices-address layout q ids y k in
    let meet = address-injective layout block_size ids p q b c r s f d lp lq hp hq in
    record {
      keys = λ e. let (u, _, v) = plane b c 0 0 r s (cc (ex, ey, e)) in n (meet u v);
      values = λ e. let (u, _, v) = plane b c 1 1 r s (cc (ex, ey, e)) in n (meet u v);
      key_value = λ e. let (_, u, _) = plane b c 0 1 r s (cc (ex, ey, e)) in absurd (omega arith);
      value_key = λ e. let (_, u, _) = plane b c 1 0 r s (cc (ex, ey, e)) in absurd (omega arith);
    }
