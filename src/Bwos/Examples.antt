-- ===== src/Bwos/Examples.antt =====
-- A block of four places, and tests.
use coro_wayland.Base.{ℕ, true, ◌≡◌, refl, [], ◌∷◌, ◌++◌, arith}
use coro_wayland.Bwos.Words.{pack, index_of, round_of, previous, add64}
use coro_wayland.Bwos.Block.{
  Block, new_block, put, get, grant, takeover, steal, steal_load, steal_rest, steal_claim,
  steal_finish, is_writable, reduce_round,
}
use coro_wayland.Bwos.Block.Contents.{IsOwned, IsGranted, owned}
use coro_wayland.Bwos.Block.Owner.{Put, Got, put-Put, get-Got}
use coro_wayland.Bwos.Block.Sharing.{Stolen, steals, steal-Stolen, takeover-steals-grant}

-- Four places of which one is stolen, with two items, of the owner.
abbrev two_items : Block ℕ
two_items = record {
  head = 1;
  tail = 3;
  steal_count = 1;
  steal_tail = 4;
  ring_buffer = 10 ∷ 11 ∷ 12 ∷ 13 ∷ [];
}

abbrev three_items : Block ℕ
three_items = record two_items { tail = 4 }

-- The same block when the thieves have it.
abbrev shared : Block ℕ
shared = record three_items { head = 4; steal_tail = 1 }

owned-two_items : owned two_items ≡ 11 ∷ 12 ∷ []
unfolding index_of
owned-two_items = refl

grant-three_items : grant three_items ≡ shared
unfolding grant
grant-three_items = refl

steals-shared : (steals 0 5 shared 0).1 ≡ 11 ∷ 12 ∷ 13 ∷ []
unfolding steal steal_load steal_rest steal_claim steal_finish index_of round_of add64
steals-shared = refl

is_writable_new : is_writable {A = ℕ} (new_block 0 4) 0 ≡ true
unfolding is_writable new_block pack previous
is_writable_new = refl

reduce_round_writable :
    is_writable (reduce_round (record shared { steal_tail = pack 1 4 })) 1 ≡ true
unfolding is_writable reduce_round pack previous index_of round_of
reduce_round_writable = refl

two_items-IsOwned : IsOwned two_items
unfolding index_of
two_items-IsOwned = record {
  small = omega arith;
  ordered = omega arith;
  within = omega arith;
  closed = omega arith;
  counted = omega arith;
}

three_items-IsOwned : IsOwned three_items
unfolding index_of
three_items-IsOwned = record {
  small = omega arith;
  ordered = omega arith;
  within = omega arith;
  closed = omega arith;
  counted = omega arith;
}

shared-IsGranted : IsGranted shared
unfolding index_of
shared-IsGranted = record {
  small = omega arith;
  full = omega arith;
  word = omega arith;
  within = omega arith;
  closed = omega arith;
  counted = omega arith;
}

put-Put_example : Put two_items 7 (put two_items 7)
put-Put_example = put-Put two_items 7 two_items-IsOwned

get-Got_example : Got 0 two_items (get 0 two_items)
get-Got_example = get-Got 0 two_items two_items-IsOwned

steal-Stolen_example : Stolen 0 shared 0 (steal 0 shared 0)
steal-Stolen_example = steal-Stolen 0 shared 0 shared-IsGranted

takeover-steals-grant_example :
    IsOwned (takeover (steals 0 2 (grant three_items) 0).0)
    × (owned three_items
        ≡ (steals 0 2 (grant three_items) 0).1
          ++ owned (takeover (steals 0 2 (grant three_items) 0).0))
takeover-steals-grant_example =
    takeover-steals-grant 0 three_items 2 0 three_items-IsOwned refl (omega arith)
