-- ===== src/Machine/Keyed.antt =====
-- `std::map` from a BlockKey or an INodeKey: a device and a number on it.
use hitsz_ext.Base.{
  ℕ, ◌≡◌, ◌≢◌, Bool, true, false, ◌&&◌, Option, fun_ext, arith, ◌==◌, if◌then◌else◌,
}

pub record Key : Type 0 where
  pub dev : ℕ
  pub num : ℕ

abbrev pub key : ℕ → ℕ → Key
key d n = record { dev = d; num = n }

-- Equality of keys, as `operator<` of both structures induces it.
unfoldable pub same_key : Key → Key → Bool
same_key a b = a.dev == b.dev && a.num == b.num

abbrev pub Map : Type 0 → Type 0
Map V = Key → Option V

-- Insertion, or erasure at `none`.
unfoldable pub put : {V : Type 0} → Map V → Key → Option V → Map V
put m k v j = if same_key j k then v else m j

pub same_key_refl : (k : Key) → same_key k k ≡ true
unfolding same_key
same_key_refl k = ground arith

pub same_key_ne : (d a b : ℕ) → a ≢ b → same_key (key d a) (key d b) ≡ false
unfolding same_key
same_key_ne d a b h = ground arith

pub same_key→eq : (j k : Key) → same_key j k ≡ true → j ≡ k
unfolding same_key
same_key→eq j k h = ground arith

module _ {V : Type 0} where
  pub put_self : (m : Map V) (k : Key) (v : Option V) → put m k v k ≡ v
  unfolding put
  put_self m k v = ground (arith, same_key_refl k)

  pub put_ne : (m : Map V) (j k : Key) (v : Option V) → same_key j k ≡ false → put m k v j ≡ m j
  unfolding put
  put_ne m j k v h = ground arith

  pub put-put : (m : Map V) (k : Key) (v w : Option V) → put (put m k v) k w ≡ put m k w
  unfolding put
  put-put m k v w = fun_ext λ j. ground arith

  -- Storing what is there changes nothing.
  pub put_same : (m : Map V) (k : Key) (v : Option V) → m k ≡ v → put m k v ≡ m
  unfolding put
  put_same m k v h = fun_ext λ j. ground (arith, same_key→eq j k)

  pub put_comm :
      (m : Map V) (j k : Key) (v w : Option V)
      → same_key j k ≡ false
      → put (put m j v) k w ≡ put (put m k w) j v
  unfolding put
  put_comm m j k v w h = fun_ext λ i. ground (arith, same_key→eq i j, same_key→eq i k)
