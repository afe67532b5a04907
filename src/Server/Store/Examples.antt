-- ===== src/Server/Store/Examples.antt =====
-- Runs of the store, and its theorems at concrete stores.
use rdows.Prelude.{
  zero, suc, ◌≡◌, ◌↔◌, ◌%◌, ◌/◌, ◌^◌, ◌<◌, true, refl, [], ◌∷◌, ok, checked, wrapping, arith, inl,
  inr, replicate, some,
}
use rdows.Prelude.Dict.{lookup, insert, remove}
use rdows.Bytes.{from_be}
use rdows.Core.Memory.{contains, rights_bits}
use rdows.Server.Store.{
  MemoryRegionEntry, MemoryStore, Rng, new_store, draw, add_region, register_with_key, register,
  deregister, write_region, read_region, atomic_op,
}
use rdows.Server.Store.Invariant.{IsValid, new_store-IsValid, added, added-IsValid}
use rdows.Server.Store.View.{view}
use rdows.Server.Store.Register.{Registered, register-Registered}
use rdows.Server.Store.Deregister.{Deregistered, deregister-Deregistered}
use rdows.Server.Store.Access.{Readout, Written, read_region-Readout, write_region-Written}
use rdows.Server.Store.Atomic.{Exchanged, atomic_op-Exchanged}
use rdows.Server.Store.Isolation.{read_region-write_region, read_region-write_region_apart}
use rdows.Server.Store.Lifecycle.{
  Reach, here, after, registers, deregisters, writes, IsRevoked, session-IsValid,
  deregister-IsRevoked,
}

rights_bits_example :
    ((contains 6 0x01 ≡ true) ↔ (6 % 2 ≡ 1))
    × ((contains 6 0x02 ≡ true) ↔ (6 / 2 % 2 ≡ 1))
    × ((contains 6 0x04 ≡ true) ↔ (6 / 4 % 2 ≡ 1))
    × ((contains 6 0x08 ≡ true) ↔ (6 / 8 % 2 ≡ 1))
rights_bits_example = rights_bits 6

-- A random source that gives 0 first, and then 77.
abbrev pub keys : Rng
keys zero = 0 ∷ 0 ∷ 0 ∷ 0 ∷ []
keys (suc i) = 0 ∷ 0 ∷ 0 ∷ 77 ∷ []

abbrev pub start : MemoryStore
start = new_store 4 1024

registered : (register checked keys 5 14 16 start).0 ≡ ok (1, 77)
unfolding register register_with_key add_region draw from_be
registered = refl

-- A store with a region of 16 bytes under the R_Key 77, with all remote rights.
abbrev pub entry : MemoryRegionEntry
entry = record { pd = 5; lkey = 1; rkey = 77; access_flags = 14; content = replicate 16 0 }

abbrev pub one_region : MemoryStore
one_region = added entry 2 16 start

start-IsValid : IsValid start
start-IsValid = new_store-IsValid 4 1024 (omega arith)

pub one_region-IsValid : IsValid one_region
one_region-IsValid =
    added-IsValid start-IsValid entry 2 16 refl refl refl (omega arith) refl (omega arith)
      (omega arith)

register-Registered_example : Registered 5 14 16 start keys (register checked keys 5 14 16 start)
register-Registered_example =
    register-Registered 5 14 16 start keys checked start-IsValid (omega arith)

deregister-Deregistered_example : Deregistered 5 1 one_region (deregister wrapping 5 1 one_region)
deregister-Deregistered_example = deregister-Deregistered 5 1 one_region wrapping one_region-IsValid

read_region-Readout_example : Readout 77 4 8 one_region (read_region 77 4 8 one_region)
read_region-Readout_example = read_region-Readout 77 4 8 one_region one_region-IsValid

write_region-Written_example :
    Written 77 14 (1 ∷ 2 ∷ []) one_region (write_region 77 14 (1 ∷ 2 ∷ []) one_region)
write_region-Written_example = write_region-Written 77 14 (1 ∷ 2 ∷ []) one_region one_region-IsValid

atomic_op-Exchanged_example : Exchanged 77 8 1 0 9 one_region (atomic_op 77 8 1 0 9 one_region)
atomic_op-Exchanged_example = atomic_op-Exchanged 77 8 1 0 9 one_region one_region-IsValid

pub seen_77 : view one_region 77 ≡ some (14, replicate 16 0)
unfolding view lookup insert
seen_77 = refl

pub grants_14 : (contains 14 2 ≡ true) × (contains 14 4 ≡ true)
unfolding contains
grants_14 = (refl, refl)

read_region-write_region_example :
    read_region 77 14 2 (write_region 77 14 (1 ∷ 2 ∷ []) one_region).1 ≡ ok (1 ∷ 2 ∷ [])
read_region-write_region_example =
    read_region-write_region 77 14 (1 ∷ 2 ∷ []) one_region one_region-IsValid 14 (replicate 16 0)
      seen_77 grants_14.0 grants_14.1 (omega arith)

read_region-write_region_apart_example :
    read_region 77 0 14 (write_region 77 14 (1 ∷ 2 ∷ []) one_region).1
    ≡ read_region 77 0 14 one_region
read_region-write_region_apart_example =
    read_region-write_region_apart 77 14 (1 ∷ 2 ∷ []) one_region one_region-IsValid 77 0 14
      (inr (inl (omega arith)))

-- A registration, a write and a deregistration.
abbrev session_end : MemoryStore
session_end =
    (deregister checked 5 1
      (write_region 77 0 (1 ∷ []) (register checked keys 5 14 16 start).1).1).1

session_run : Reach checked start session_end
session_run =
    after
      (after (after here (registers keys 5 14 16 (omega arith) (λ p. ground (arith, registered))))
        (writes 77 0 (1 ∷ [])))
      (deregisters 5 1)

session-IsValid_example : IsValid session_end
session-IsValid_example = session-IsValid checked 4 1024 (omega arith) session_run

abbrev emptied : MemoryStore
emptied = (deregister checked 5 1 one_region).1

found_1 : lookup 1 one_region.regions ≡ some entry
unfolding lookup insert
found_1 = refl

-- The same key cannot be drawn again: the second source gives another.
abbrev other_keys : Rng
other_keys i = 0 ∷ 0 ∷ 0 ∷ 78 ∷ []

again : (register checked other_keys 5 14 16 emptied).0 ≡ ok (2, 78)
unfolding register register_with_key add_region draw from_be deregister lookup insert remove
again = refl

room : suc emptied.next_lkey < 2 ^ 32
unfolding deregister lookup insert
room = omega arith

deregister-IsRevoked_example : IsRevoked 77 (register checked other_keys 5 14 16 emptied).1
deregister-IsRevoked_example =
    deregister-IsRevoked checked 5 1 one_region entry one_region-IsValid found_1 refl
      (after here (registers other_keys 5 14 16 room (λ p. ground (arith, again))))
