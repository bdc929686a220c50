-- ===== src/Tests/Registry.antt =====
-- The table of resources of src/pp_resource.c with one graphics resource, owned and then acquired.
use freshplayerplugin.Base.{ℕ, ◌≡◌, refl, true, false, pos, arith}
use freshplayerplugin.Base.Assoc.{lookup, insert}
use freshplayerplugin.Resource.{Res, allocate, acquire, unref, got, find}
use freshplayerplugin.Resource.Owners.{
  System, Reach, here, next, allocates, acquires, initial, update, Accounts,
}
use freshplayerplugin.Resource.Holding.{Reach-Accounts, unref-destroyed_iff, is_destroyed}

abbrev zero_state : System ℕ
zero_state = initial

abbrev allocated : System ℕ
allocated = record {
  registry = (allocate 7 5 1 zero_state.registry).0;
  owned = update zero_state.owned zero_state.registry.res_tbl_next 1;
  held = zero_state.held;
}

Reach-allocated : Reach allocated
Reach-allocated = next here (allocates 7 5 1 (omega arith))

abbrev resource_1 : Res ℕ
resource_1 = record {
  resource_type = 5;
  ref_cnt = pos 2;
  instance_ptr = 1;
  self_id = 1;
  locked = true;
  body = 7;
}

acquire-allocated : (acquire 1 5 allocated.registry).1 ≡ got resource_1
unfolding acquire allocate lookup insert
acquire-allocated = refl

abbrev inside : System ℕ
inside = record {
  registry = (acquire 1 5 allocated.registry).0;
  owned = allocated.owned;
  held = update allocated.held 1 true;
}

Reach-inside : Reach inside
Reach-inside = next Reach-allocated (acquires 1 5 resource_1 acquire-allocated)

Reach-Accounts_example : Accounts (find 1 inside.registry) 1 true
Reach-Accounts_example = Reach-Accounts Reach-inside 1

unref-destroyed_iff_example : is_destroyed (unref 1 inside.registry).1 ≡ false
unref-destroyed_iff_example = unref-destroyed_iff Reach-inside 1 (omega arith)
