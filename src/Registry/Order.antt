-- ===== src/Registry/Order.antt =====
-- `entryLess` is an order, so that the registry's lists are sorted.
use local_router.Prelude.{◌≡◌, true, false, arith, eq_iff, str_lt_asym, str_lt_total, str_le_trans}
use local_router.Prelude.Sorting.{IsOrder}
use local_router.Registry.{Entry, entry_less}

entry_less_asym : (a b : Entry) → entry_less a b ≡ true → entry_less b a ≡ false
unfolding entry_less
entry_less_asym a b h = ground (
  arith,
  eq_iff a.provider_id b.provider_id,
  eq_iff b.provider_id a.provider_id,
  str_lt_asym a.provider_id b.provider_id,
  str_lt_asym a.model_id b.model_id,
)

entry_less_trans :
    (a b c : Entry) → entry_less b a ≡ false → entry_less c b ≡ false → entry_less c a ≡ false
unfolding entry_less
entry_less_trans a b c p q = ground (
  arith,
  eq_iff a.provider_id b.provider_id,
  eq_iff b.provider_id a.provider_id,
  eq_iff b.provider_id c.provider_id,
  eq_iff c.provider_id b.provider_id,
  eq_iff c.provider_id a.provider_id,
  str_lt_total a.provider_id b.provider_id,
  str_le_trans a.provider_id b.provider_id c.provider_id,
  str_le_trans a.model_id b.model_id c.model_id,
)

pub entry_less-IsOrder : IsOrder entry_less
entry_less-IsOrder = record { asym = entry_less_asym; le_trans = entry_less_trans }
