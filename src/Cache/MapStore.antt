-- ===== src/Cache/MapStore.antt =====
-- A store that keeps its entries in a map with their deadlines: it has the laws that the cache of
-- cache/gocache.go relies on.
use market_proxy.Prelude.{
  ℕ, ◌+◌, String, refl, Option, none, some, [], ltb, string_eq, if◌then◌else◌, arith, ap, ◌∙◌,
}
use market_proxy.Prelude.Int.{ℤ, pos, pos_part, ltb_ℤ}
use market_proxy.Prelude.Maps.{Map, lookup, insert, delete, lookup-insert, lookup-delete}
use market_proxy.Cache.{Store, Item}
use market_proxy.Cache.Laws.{IsGoCache}

abbrev pub Entry : Type 0
Entry = Item × Option ℕ

abbrev pub deadline : ℕ → ℤ → Option ℕ
deadline now ttl = if ltb_ℤ (pos 0) ttl then some (now + pos_part ttl) else none

abbrev pub alive : ℕ → Option Entry → Option Item
alive now none = none
alive now (some (item, none)) = some item
alive now (some (item, some d)) = if ltb d now then none else some item

abbrev pub map_store : Store
map_store = record {
  State = Map String Entry;
  get = λ s now k. alive now (lookup k s);
  set = λ s now k item ttl. insert k (item, deadline now ttl) s;
  delete = λ s k. delete k s;
  flush = λ s. [];
}

pub map_store-IsGoCache : IsGoCache map_store
unfolding lookup
map_store-IsGoCache = record {
  get_set = λ s now later k item ttl p a b.
      ap (alive later) (lookup-insert k k (item, deadline now ttl) s)
      ∙ ground (arith, string_eq.same_iff k k);
  get_set_other = λ s now later k j item ttl n.
      ap (alive later) (lookup-insert k j (item, deadline now ttl) s)
      ∙ ground (arith, string_eq.same_iff k j);
  get_expired = λ s now later k item ttl p a.
      ap (alive later) (lookup-insert k k (item, deadline now ttl) s)
      ∙ ground (arith, string_eq.same_iff k k);
  get_delete =
      λ s now k. ap (alive now) (lookup-delete k k s) ∙ ground (arith, string_eq.same_iff k k);
  get_delete_other =
      λ s now k j n. ap (alive now) (lookup-delete k j s) ∙ ground (arith, string_eq.same_iff k j);
  get_flush = λ s now k. refl;
}
