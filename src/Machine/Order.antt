-- ===== src/Machine/Order.antt =====
-- The order of the keys of both caches, as std::map uses it: INodeKey of inc/INode.h and BlockKey of
-- inc/Block.h.
use hitsz_ext.Base.{◌≡◌, Bool, true, false, not, ◌&&◌, ◌==◌, ltb, if◌then◌else◌, arith}
use hitsz_ext.Machine.Keyed.{Key, same_key}

unfoldable pub key_less : Key → Key → Bool
key_less a b = if not (a.dev == b.dev) then ltb a.dev b.dev else ltb a.num b.num

-- operator< of two keys is a strict order, and two keys of which neither is less than the other are one
-- key.
pub key_less-same_key :
    (a b c : Key)
    → (key_less a a ≡ false)
      × (key_less a b ≡ true → key_less b c ≡ true → key_less a c ≡ true)
      × ((not (key_less a b) && not (key_less b a)) ≡ same_key a b)
unfolding key_less same_key
key_less-same_key a b c = (ground arith, (λ p q. ground arith), ground arith)
